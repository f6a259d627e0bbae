-- ===== src/Identity/Credentials/Lookup.antt =====
-- What a lookup by label finds after a creation and after a deletion.
use solid_community_rs.Prelude.{
  ◌≡◌, ◌≢◌, refl, sym, ◌∙◌, false, inl, inr, none, some, arith, Text, text_eq, text_eq_iff,
  text_eq_refl, Bool-cases, Option-cases, if◌then◌else◌,
}
use solid_community_rs.Prelude.HashMap
use solid_community_rs.Prelude.HashMap.{HashMap, get-insert, get-remove}
use solid_community_rs.Identity.Credentials.{
  BaseClientCredentialsStore, get, find_by_label, create, delete_found, delete, IsIndexed,
  created_label,
}

-- New credentials are found by their label, and every other label still leads where it led.
pub find_after_create :
    (id secret label web_id account_id : Text) (s : BaseClientCredentialsStore) (l : Text)
    → IsIndexed s
    → get id s ≡ none
    → let (creds, s') = create id secret label web_id account_id s in
      find_by_label l s' ≡ (if text_eq label l then some creds else find_by_label l s)
unfolding find_by_label create get
find_after_create id secret label web_id account_id s l indexed fresh =
    elim (Bool-cases (text_eq label l)) [
      | inl e ↦ rw (get-insert, e) (rw (get-insert, text_eq_refl id) refl)
      | inr e ↦ elim (Option-cases (HashMap.get s.by_label l)) [
        | inl o ↦ rw (get-insert, e, o) refl
        | inr (i, o) ↦
            let (c, now, before, same) = created_label id _ s l i indexed fresh o in
            rw (get-insert, e, o) (now ∙ sym before)
      ]
    ]

text_ne : (a b : Text) → a ≢ b → text_eq a b ≡ false
text_ne a b ne = ground (arith, text_eq_iff a b)

-- Two credentials that share a label share its place in the index: deleting the first leaves the
-- second stored, and no lookup by the label finds it.
pub shared_label_lost :
    (id id2 secret secret2 label web_id web_id2 account_id account_id2 : Text)
    (s : BaseClientCredentialsStore)
    → id ≢ id2
    → let first = (create id secret label web_id account_id s).1 in
      let (creds, second) = create id2 secret2 label web_id2 account_id2 first in
      let s' = (delete id second).1 in (get id2 s' ≡ some creds) × (find_by_label label s' ≡ none)
unfolding create delete delete_found get find_by_label
shared_label_lost id id2 secret secret2 label web_id web_id2 account_id account_id2 s ne =
    let other = text_ne id2 id (λ e. ne (sym e)) in
    rw (get-insert, other, get-insert, text_eq_refl id)
      (
        rw (get-remove, text_ne id id2 ne, get-insert, text_eq_refl id2) refl,
        rw (get-remove, text_eq_refl label) refl,
      )
