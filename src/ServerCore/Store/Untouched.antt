-- ===== src/ServerCore/Store/Untouched.antt =====
-- What a `put` and a `delete` leave absent, and as it is.
use solid_community_rs.Prelude.{
  ℕ, ◌≡◌, ◌≢◌, refl, ap, sym, ◌∙◌, true, false, inl, inr, List, [], ◌∷◌, ◌++◌, none, arith,
  append_assoc, replicate, Text, text_eq, slash, starts_with, trim_end_matches, Bool-cases,
  Option-cases,
}
use solid_community_rs.Prelude.HashMap.{get-remove}
use solid_community_rs.Prelude.Split.{starts_with-append}
use solid_community_rs.Prelude.Trim.{trim_end_matches_suffix}
use solid_community_rs.ServerCore.Store.{LdpStore, key, get, put, delete, store_key}
use solid_community_rs.ServerCore.Store.Access.{put_adds_ancestors}
use solid_community_rs.ServerCore.Store.Keys.{key-cons}

begins_cut :
    (k p r : Text)
    → trim_end_matches k slash ≡ p ++ slash ∷ r
    → starts_with k (p ++ slash ∷ []) ≡ true
begins_cut k p r cut =
    let (n, e) = trim_end_matches_suffix k slash in
    let tail = replicate n slash in
    let whole : k ≡ (p ++ slash ∷ []) ++ (r ++ tail) =
      e
      ∙ ap (λ t. t ++ tail) cut
      ∙ append_assoc p (slash ∷ r) tail
      ∙ sym (append_assoc p (slash ∷ []) (r ++ tail)) in
    ap (λ t. starts_with t (p ++ slash ∷ [])) whole
    ∙ starts_with-append (p ++ slash ∷ []) (r ++ tail)

begins_root : (path : Text) → starts_with (key path) (slash ∷ []) ≡ true
unfolding starts_with
begins_root path = let (t, e) = key-cons path in rw e refl

-- The key of what a `put` creates begins the key that is put.
begins_ancestor :
    (path p r : Text)
    → trim_end_matches (key path) slash ≡ p ++ slash ∷ r
    → starts_with (key path) (store_key (p ++ slash ∷ [])) ≡ true
unfolding store_key
begins_ancestor path p r cut = elim (Bool-cases (text_eq (p ++ slash ∷ []) (slash ∷ slash ∷ []))) [
  | inl d ↦ rw d (begins_root path)
  | inr d ↦ rw d (begins_cut (key path) p r cut)
]

begins_self : (t : Text) → starts_with t t ≡ true
unfolding starts_with
begins_self [] = refl
begins_self (x ∷ t) = ground (arith, begins_self t)

-- What is absent stays absent when a key that its key does not begin is put.
pub put_adds_nothing :
    (path : Text) (body : List ℕ) (content_type : Text) (s : LdpStore) (j : Text)
    → starts_with (key path) (key j) ≡ false
    → get j s ≡ none
    → get j (put path body content_type s).1 ≡ none
put_adds_nothing path body content_type s j apart absent =
    elim (Option-cases (get j (put path body content_type s).1)) [
      | inl e ↦ e
      | inr (v, there) ↦
          let other : key j ≢ key path = λ same.
            let h = sym apart ∙ ap (starts_with (key path)) same ∙ begins_self (key path) in cc h in
          elim (put_adds_ancestors path body content_type s j v other absent there).1 [
            | inl root ↦
                let h = sym apart ∙ ap (starts_with (key path)) root ∙ begins_root path in cc h
            | inr (p, r, cut, own) ↦
                let h =
                  sym apart ∙ ap (starts_with (key path)) own ∙ begins_ancestor path p r cut in
                cc h
          ]
    ]

-- What is absent stays absent when anything is deleted.
pub delete_adds_nothing :
    (path : Text) (s : LdpStore) (j : Text) → get j s ≡ none → get j (delete path s).1 ≡ none
unfolding delete get
delete_adds_nothing path s j absent = ground (arith, get-remove s.inner (key path) (key j))
