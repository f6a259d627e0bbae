-- ===== src/ServerCore/Store/Containers.antt =====
-- The containers of a key, described without the loop of `ensure_ancestors`.
use solid_community_rs.Prelude.{
  ℕ, ◌+◌, ◌≤◌, ◌≡◌, refl, ap, sym, ◌∙◌, Bool, true, false, not, ◌&&◌, ◌||◌, inl, inr, List, [], ◌∷◌,
  ◌++◌, map, arith, Text, text_eq, text_eq_iff, text_eq_refl, slash, member, count,
  trim_end_matches, ◌==◌, ==_iff, Bool-cases, if◌then◌else◌,
}
use solid_community_rs.ServerCore.Store.{key, store_key}
use solid_community_rs.ServerCore.Store.Ancestors.{or_cases, or_right}
use solid_community_rs.ServerCore.Store.Keys.{
  trim-key-cases, written_keys, written_keys_root, member-written_keys, written_keys_sound,
  member-map, member-map_inv,
}

-- The beginnings of a text that end in a slash.
pub slash_prefixes : Text → List Text
slash_prefixes [] = []
slash_prefixes (c ∷ t) =
    let rest = map (λ p. c ∷ p) (slash_prefixes t) in
    if c == slash then (slash ∷ []) ∷ rest else rest

abbrev pub two_slashes : Text
two_slashes = slash ∷ slash ∷ []

-- The root is a container of every key, and so is each beginning of the key that ends in a slash,
-- but for two slashes, which stand for the root.
unfoldable pub is_container_of : Text → Text → Bool
unfolding slash_prefixes
is_container_of k j =
    text_eq (slash ∷ []) j
    || (member j (slash_prefixes (trim_end_matches k slash)) && not (text_eq j two_slashes))

member-slash_prefixes :
    (p r : Text) → member (p ++ slash ∷ []) (slash_prefixes (p ++ slash ∷ r)) ≡ true
unfolding slash_prefixes member
member-slash_prefixes [] r = rw (text_eq_refl (slash ∷ [])) refl
member-slash_prefixes (c ∷ p) r =
    let later =
      member-map (λ q. c ∷ q) (p ++ slash ∷ []) (slash_prefixes (p ++ slash ∷ r))
        (member-slash_prefixes p r) in
    elim (Bool-cases (c == slash)) [ inl e ↦ rw e (or_right _ later) | inr e ↦ rw e later ]

pub slash_prefixes_sound :
    (t j : Text)
    → member j (slash_prefixes t) ≡ true
    → (p r : Text) × (t ≡ p ++ slash ∷ r) × (j ≡ p ++ slash ∷ [])
unfolding slash_prefixes member
slash_prefixes_sound [] j h = absurd (ground arith)
slash_prefixes_sound (c ∷ t) j h = elim (Bool-cases (c == slash)) [
  | inl e ↦ elim (or_cases (text_eq (slash ∷ []) j) (rw e at h)) [
    | inl here ↦ ([], t, ap (λ x. x ∷ t) ((==_iff c slash).0 e), sym ((text_eq_iff _ _).0 here))
    | inr later ↦ deeper c t j later (slash_prefixes_sound t)
  ]
  | inr e ↦ deeper c t j (rw e at h) (slash_prefixes_sound t)
]
  where
    deeper :
        (c : ℕ) (t j : Text)
        → member j (map (λ p. c ∷ p) (slash_prefixes t)) ≡ true
        → ((q : Text)
            → member q (slash_prefixes t) ≡ true
            → (p r : Text) × (t ≡ p ++ slash ∷ r) × (q ≡ p ++ slash ∷ []))
        → (p r : Text) × (c ∷ t ≡ p ++ slash ∷ r) × (j ≡ p ++ slash ∷ [])
    deeper c t j h ih =
        let (q, m, e) = member-map_inv (λ p. c ∷ p) j (slash_prefixes t) h in
        let (p, r, cut, same) = ih q m in (c ∷ p, r, ap (λ x. c ∷ x) cut, e ∙ ap (λ x. c ∷ x) same)

count-append : (c : ℕ) (p q : Text) → count c (p ++ q) ≡ count c p + count c q
unfolding count
count-append c [] q = omega arith
count-append c (x ∷ p) q = omega (arith, count-append c p q)

both_true : (a b : Bool) → (a ≡ true → b ≡ true) → (b ≡ true → a ≡ true) → a ≡ b
both_true true b p q = sym (p refl)
both_true false true p q = q refl
both_true false false p q = refl

written_is_container :
    (path j : Text)
    → member j (written_keys (key path)) ≡ true
    → is_container_of (key path) j ≡ true
unfolding is_container_of store_key
written_is_container path j h = elim (written_keys_sound path j h) [
  | inl root ↦ rw (root, text_eq_refl (slash ∷ [])) refl
  | inr (p, r, cut, e) ↦ elim (Bool-cases (text_eq (p ++ slash ∷ []) two_slashes)) [
    | inl two ↦ rw (e, two, text_eq_refl (slash ∷ [])) refl
    | inr other ↦
        let same : j ≡ p ++ slash ∷ [] = e ∙ (rw other refl) in
        rw (same, cut, member-slash_prefixes p r, other) (or_right _ refl)
  ]
]

pub root_written : (path : Text) → member (slash ∷ []) (written_keys (key path)) ≡ true
unfolding member store_key count
root_written path = elim (trim-key-cases path) [
  | inl e ↦ rw (written_keys_root (key path) e) (rw (text_eq_refl (slash ∷ [])) refl)
  | inr (u, e) ↦ member-written_keys path [] u e (omega arith)
]

pub and_parts : (a b : Bool) → (a && not b) ≡ true → (a ≡ true) × (b ≡ false)
and_parts a b h = ground arith

pub store_key_same : (j : Text) → text_eq j two_slashes ≡ false → store_key j ≡ j
unfolding store_key
store_key_same j other = rw other refl

pub few_before : (t p r : Text) → t ≡ p ++ slash ∷ r → count slash t ≤ 99 → count slash p ≤ 98
unfolding count
few_before t p r cut few =
    omega (arith, ap (count slash) cut, few, count-append slash p (slash ∷ r))

container_is_written :
    (path j : Text)
    → count slash (trim_end_matches (key path) slash) ≤ 99
    → is_container_of (key path) j ≡ true
    → member j (written_keys (key path)) ≡ true
unfolding is_container_of
container_is_written path j few h = elim (or_cases (text_eq (slash ∷ []) j) h) [
  | inl root ↦ rw (sym ((text_eq_iff (slash ∷ []) j).0 root)) (root_written path)
  | inr deep ↦
      let (below, other) = and_parts _ _ deep in
      let (p, r, cut, same) = slash_prefixes_sound (trim_end_matches (key path) slash) j below in
      let own : store_key (p ++ slash ∷ []) ≡ j =
        ap store_key (sym same) ∙ store_key_same j other in
      rw (sym own) (member-written_keys path p r cut (few_before _ p r cut few))
]

-- The keys that the loop writes are the containers, if the key has at most 99 slashes before its
-- last segment's end.
pub member-written_keys_eq :
    (path j : Text)
    → count slash (trim_end_matches (key path) slash) ≤ 99
    → member j (written_keys (key path)) ≡ is_container_of (key path) j
member-written_keys_eq path j few =
    both_true _ _ (written_is_container path j) (container_is_written path j few)
