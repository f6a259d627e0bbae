-- ===== src/ServerCore/Store/Access.antt =====
-- What `put`, `get`, `delete` and `exists` do to one another.
use solid_community_rs.Prelude.{
  ℕ, ◌≤◌, ◌≡◌, ◌≢◌, refl, ap, sym, ◌∙◌, Bool, true, not, ◌||◌, ◌⊎◌, inl, inr, List, [], ◌∷◌, ◌++◌,
  Option, none, some, arith, Text, text_eq, text_eq_iff, text_eq_refl, slash, member, count,
  trim_end_matches, length, length-append, Bool-cases, if◌then◌else◌,
}
use solid_community_rs.Prelude.HashMap
use solid_community_rs.Prelude.HashMap.{map_laws, get-insert, get-remove}
use solid_community_rs.Prelude.Trim.{trim_end_matches-concat, length-trim_end_matches}
use solid_community_rs.ServerCore.Store.{
  Entry, LdpStore, auto_container, key, get, exists, put, delete, is_container, store_key,
}
use solid_community_rs.ServerCore.Store.Ancestors.{or_auto}
use solid_community_rs.ServerCore.Store.Keys.{
  key-slash, get-ensure_ancestors, written_keys, member-written_keys, written_keys_sound,
  written_keys_root, trim-key-cases,
}

pub append_ne_nil : (p : Text) (c : ℕ) (r : Text) → ¬ (p ++ c ∷ r ≡ [])
append_ne_nil [] c r e = cc
append_ne_nil (x ∷ p) c r e = cc

-- A strict prefix of the trimmed key is not the key.
not_own_ancestor :
    (k p r : Text) → trim_end_matches k slash ≡ p ++ slash ∷ r → k ≢ store_key (p ++ slash ∷ [])
unfolding store_key
not_own_ancestor k p r e h = elim (Bool-cases (text_eq (p ++ slash ∷ []) (slash ∷ slash ∷ []))) [
  | inl d ↦
      let root : k ≡ slash ∷ [] = rw d at h in
      absurd (append_ne_nil p slash r (sym e ∙ (rw root (unfold trim_end_matches in refl))))
  | inr d ↦
      let own : k ≡ p ++ slash ∷ [] = rw d at h in
      let same : p ++ slash ∷ r ≡ trim_end_matches p slash =
        sym e ∙ ap (λ t. trim_end_matches t slash) own ∙ trim_end_matches-concat p slash in
      absurd (
        omega (arith, ap length same, length-append p (slash ∷ r), length-trim_end_matches p slash))
]

root_trims : (k u : Text) → trim_end_matches k slash ≡ slash ∷ u → ¬ (text_eq (slash ∷ []) k ≡ true)
unfolding trim_end_matches
root_trims k u e h =
    let root : k ≡ slash ∷ [] = sym ((text_eq_iff (slash ∷ []) k).0 h) in cc (rw root at e)

own_not_written :
    (path u : Text)
    → trim_end_matches (key path) slash ≡ slash ∷ u
    → ¬ (member (key path) (written_keys (key path)) ≡ true)
own_not_written path u e h = elim (written_keys_sound path (key path) h) [
  | inl root ↦ root_trims (key path) u e (rw root (text_eq_refl (slash ∷ [])))
  | inr (p, r, cut, own) ↦ not_own_ancestor (key path) p r cut own
]

both_false : (a b : Bool) → ¬ (a ≡ true) → ¬ (b ≡ true) → a ≡ b
both_false a b p q = ground (arith, p, q)

-- `put` of a key writes that key, and before it the ancestors; the key is its own ancestor only at
-- the root.
member_own :
    (path : Text) → member (key path) (written_keys (key path)) ≡ text_eq (slash ∷ []) (key path)
unfolding member
member_own path = elim (trim-key-cases path) [
  | inl e ↦ rw (written_keys_root (key path) e) (ground arith)
  | inr (u, e) ↦ both_false _ _ (own_not_written path u e) (λ h. root_trims (key path) u e h)
]

abbrev pub written : Text → List ℕ → Text → Entry
written path body content_type = record {
  body = body;
  content_type = content_type;
  is_container = is_container path;
}

pub get-put :
    (path : Text) (body : List ℕ) (content_type : Text) (s : LdpStore) (j : Text)
    → HashMap.get (put path body content_type s).1.inner j ≡ (
        if text_eq (key path) j
        then some (written path body content_type)
        else or_auto (member j (written_keys (key path))) (HashMap.get s.inner j))
unfolding put is_container
get-put path body content_type s j =
    simp get-insert (ground (arith, get-ensure_ancestors (key path) s j))

-- A resource that was put is there, with the body and the content type that were given.
pub get-put_self :
    (path : Text) (body : List ℕ) (content_type : Text) (s : LdpStore)
    → get path (put path body content_type s).1 ≡ some (written path body content_type)
unfolding get
get-put_self path body content_type s =
    rw (get-put path body content_type s (key path), text_eq_refl (key path)) refl

-- `put` reports a new resource exactly if there was none, but for the root, which the loop over
-- the ancestors has always created before the test.
pub put_created :
    (path : Text) (body : List ℕ) (content_type : Text) (s : LdpStore)
    → (put path body content_type s).0 ≡ not (exists path s || text_eq (slash ∷ []) (key path))
unfolding put exists
put_created path body content_type s =
    ground (arith, get-ensure_ancestors (key path) s (key path), member_own path)

-- No other resource that was there is changed.
pub put_keeps :
    (path : Text) (body : List ℕ) (content_type : Text) (s : LdpStore) (j : Text) (e : Entry)
    → key j ≢ key path
    → get j s ≡ some e
    → get j (put path body content_type s).1 ≡ some e
unfolding get
put_keeps path body content_type s j e other there =
    ground (arith, get-put path body content_type s (key j), text_eq_iff (key path) (key j), other)

key-store_key : (t : Text) → key (store_key (slash ∷ t)) ≡ store_key (slash ∷ t)
unfolding store_key
key-store_key t = elim (Bool-cases (text_eq (slash ∷ t) (slash ∷ slash ∷ []))) [
  | inl d ↦ rw d (key-slash [])
  | inr d ↦ rw d (key-slash t)
]

key-store_key_append :
    (p u r : Text)
    → slash ∷ u ≡ p ++ slash ∷ r
    → key (store_key (p ++ slash ∷ [])) ≡ store_key (p ++ slash ∷ [])
key-store_key_append [] u r e = key-store_key []
key-store_key_append (x ∷ p) u r e =
    let x_slash : x ≡ slash = cc in rw x_slash (key-store_key (p ++ slash ∷ []))

pub key_of_ancestor :
    (path p r : Text)
    → trim_end_matches (key path) slash ≡ p ++ slash ∷ r
    → key (store_key (p ++ slash ∷ [])) ≡ store_key (p ++ slash ∷ [])
key_of_ancestor path p r cut = elim (trim-key-cases path) [
  | inl nil ↦ absurd (append_ne_nil p slash r (sym cut ∙ nil))
  | inr (u, e) ↦ key-store_key_append p u r (sym e ∙ cut)
]

added :
    (k j : Text) (v : Entry) (m : Bool) (o o' : Option Entry) (e : Entry)
    → o' ≡ (if text_eq k j then some v else or_auto m o)
    → j ≢ k
    → o ≡ none
    → o' ≡ some e
    → (e ≡ auto_container) × (m ≡ true)
added k j v m o o' e h other absent there = ground (arith, text_eq_iff k j, other)

-- Each container on the way to the key, up to 98 slashes deep, is there after a `put`.
put_creates_ancestors :
    (path : Text) (body : List ℕ) (content_type : Text) (s : LdpStore) (p r : Text)
    → trim_end_matches (key path) slash ≡ p ++ slash ∷ r
    → count slash p ≤ 98
    → exists (store_key (p ++ slash ∷ [])) (put path body content_type s).1 ≡ true
unfolding exists
put_creates_ancestors path body content_type s p r cut deep = rw (key_of_ancestor path p r cut) (
    ground (
      arith,
      get-put path body content_type s (store_key (p ++ slash ∷ [])),
      member-written_keys path p r cut deep,
    ))

-- What a `put` adds beside its key is an empty container on the way to the key, or the root.
pub put_adds_ancestors :
    (path : Text) (body : List ℕ) (content_type : Text) (s : LdpStore) (j : Text) (e : Entry)
    → key j ≢ key path
    → get j s ≡ none
    → get j (put path body content_type s).1 ≡ some e
    → (e ≡ auto_container)
      × ((key j ≡ slash ∷ [])
          ⊎ ((p r : Text) × (trim_end_matches (key path) slash ≡ p ++ slash ∷ r)
              × (key j ≡ store_key (p ++ slash ∷ []))))
unfolding get
put_adds_ancestors path body content_type s j e other absent there =
    let (same, wrote) =
      added _ _ _ _ _ _ e (get-put path body content_type s (key j)) other absent there in
    (same, written_keys_sound path (key j) wrote)

-- A deleted resource is gone, and `delete` reports whether it was there.
pub delete_lem :
    (path : Text) (s : LdpStore)
    → ((delete path s).0 ≡ exists path s) × (get path (delete path s).1 ≡ none)
unfolding delete exists get
delete_lem path s =
    (refl, rw (get-remove s.inner (key path) (key path), text_eq_refl (key path)) refl)

-- `delete` leaves every other resource as it was.
pub get-delete_ne :
    (path : Text) (s : LdpStore) (j : Text) → key j ≢ key path → get j (delete path s).1 ≡ get j s
unfolding delete get
get-delete_ne path s j other =
    ground (arith, get-remove s.inner (key path) (key j), text_eq_iff (key path) (key j), other)
