-- ===== src/ServerCore/Store/Invariant.antt =====
-- Every key of the store is normalised, and the container flag of its entry is that of the key.
use solid_community_rs.Prelude.{
  ◌≡◌, refl, sym, ◌∙◌, Bool, true, false, inl, inr, List, [], ◌∷◌, ◌++◌, Option, none, some, arith,
  Text, text_eq, text_eq_iff, slash, ends_with, member, Bool-cases, ℕ, if◌then◌else◌,
}
use solid_community_rs.Prelude.HashMap
use solid_community_rs.Prelude.HashMap.{get-empty, get-insert, get-remove}
use solid_community_rs.Prelude.Trim.{ends_with-concat}
use solid_community_rs.ServerCore.Store.{
  Entry, LdpStore, auto_container, new, key, put, delete, is_container, store_key,
}
use solid_community_rs.ServerCore.Store.Ancestors.{or_auto}
use solid_community_rs.ServerCore.Store.Keys.{key_idem, written_keys, written_keys_sound}
use solid_community_rs.ServerCore.Store.Access.{written, get-put, key_of_ancestor}

abbrev pub FitsKey : Text → Entry → Type 0
FitsKey k e = (key k ≡ k) × (e.is_container ≡ ends_with k slash)

pub record IsWellFormed (s : LdpStore) : Type 0 where
  pub at_key : (k : Text) (e : Entry) → HashMap.get s.inner k ≡ some e → FitsKey k e

-- The entry of an insertion, or the one that was there.
pub insert_fits :
    (k j : Text) (v e : Entry) (o : Option Entry)
    → FitsKey k v
    → (o ≡ some e → FitsKey j e)
    → (if text_eq k j then some v else o) ≡ some e
    → FitsKey j e
insert_fits k j v e o new old h = elim (Bool-cases (text_eq k j)) [
  | inl same ↦
      let found : v ≡ e = ground (arith, rw same at h) in
      let here : k ≡ j = (text_eq_iff k j).0 same in rw (← here, ← found) new
  | inr other ↦ old (rw other at h)
]

pub or_auto_fits :
    (k : Text) (e : Entry) (m : Bool) (o : Option Entry)
    → (m ≡ true → FitsKey k auto_container)
    → (o ≡ some e → FitsKey k e)
    → or_auto m o ≡ some e
    → FitsKey k e
or_auto_fits k e m (some e') new old h = old h
or_auto_fits k e true none new old h =
    let found : auto_container ≡ e = ground arith in rw (← found) (new refl)
or_auto_fits k e false none new old h = old h

root_fits : FitsKey (slash ∷ []) auto_container
unfolding key ends_with
root_fits = (refl, refl)

ends_with-store_key : (t : Text) → ends_with (store_key (t ++ slash ∷ [])) slash ≡ true
unfolding store_key
ends_with-store_key t = elim (Bool-cases (text_eq (t ++ slash ∷ []) (slash ∷ slash ∷ []))) [
  | inl d ↦ rw d (unfold ends_with in refl)
  | inr d ↦ rw d (ends_with-concat t slash)
]

pub written_fits :
    (path j : Text) → member j (written_keys (key path)) ≡ true → FitsKey j auto_container
written_fits path j h = elim (written_keys_sound path j h) [
  | inl root ↦ rw root root_fits
  | inr (p, r, cut, e) ↦ rw e (key_of_ancestor path p r cut, sym (ends_with-store_key p))
]

pub new-IsWellFormed : IsWellFormed new
unfolding new
new-IsWellFormed = record {
  at_key = λ k e h.
      insert_fits (slash ∷ []) k auto_container e none root_fits (λ p. cc p)
        (rw (get-insert, get-empty) at h);
}

-- A `put` into a well-formed store gives a well-formed store: its keys are normalised, and the
-- container flag of each entry is that of its key.
pub put-IsWellFormed :
    (path : Text) (body : List ℕ) (content_type : Text) (s : LdpStore)
    → IsWellFormed s
    → IsWellFormed (put path body content_type s).1
put-IsWellFormed path body content_type s wf = record {
  at_key = λ k e h.
      insert_fits (key path) k (written path body content_type) e _
        (unfold is_container in (key_idem path, refl))
        (or_auto_fits k e _ _ (written_fits path k) (wf.at_key k e))
        (sym (get-put path body content_type s k) ∙ h);
}

-- A `delete` from a well-formed store gives a well-formed store.
pub delete-IsWellFormed :
    (path : Text) (s : LdpStore) → IsWellFormed s → IsWellFormed (delete path s).1
unfolding delete
delete-IsWellFormed path s wf = record {
  at_key = λ k e h. wf.at_key k e (ground (arith, get-remove s.inner (key path) k));
}
