-- ===== src/ServerCore/Store/Keys.antt =====
-- Which keys `ensure_ancestors` writes for a normalised key.
use solid_community_rs.Prelude.{
  ℕ, suc, ◌≤◌, ◌≡◌, refl, ap, sym, ◌∙◌, true, ◌⊎◌, inl, inr, List, [], ◌∷◌, ◌++◌, map, arith, Text,
  text_eq, text_eq_iff, text_eq_refl, slash, member, count, ends_with, keep_head, trim_end_matches,
  length, ltb, ◌==◌, Bool-cases,
}
use solid_community_rs.Prelude.HashMap
use solid_community_rs.Prelude.Split.{splitn, splitn_at, splitn-cons}
use solid_community_rs.ServerCore.Store.{
  LdpStore, key, extend, store_key, ensure_ancestors, ancestor_parts,
}
use solid_community_rs.ServerCore.Store.Ancestors.{
  currents, joined, pieces, or_auto, or_cases, or_right, get-ensure_each, currents-eq-joined,
  member-joined, joined_sound, without_last-split,
}

pub key-cons : (path : Text) → (t : Text) × (key path ≡ slash ∷ t)
unfolding key
key-cons [] = ([], refl)
key-cons (x ∷ t) = elim (Bool-cases (x == slash)) [
  | inl e ↦ (t, ground arith)
  | inr e ↦ (x ∷ t, ground arith)
]

pub key-slash : (t : Text) → key (slash ∷ t) ≡ slash ∷ t
unfolding key
key-slash t = refl

-- Normalising twice changes nothing.
pub key_idem : (path : Text) → key (key path) ≡ key path
key_idem path = let (t, e) = key-cons path in rw e (key-slash t)

keep_head-cases :
    (c x : ℕ) (t : Text) → (keep_head c x t ≡ []) ⊎ ((u : Text) × (keep_head c x t ≡ x ∷ u))
keep_head-cases c x [] = elim (Bool-cases (x == c)) [
  | inl e ↦ inl (rw e refl)
  | inr e ↦ inr ([], rw e refl)
]
keep_head-cases c x (y ∷ t) = inr (y ∷ t, refl)

-- A key trimmed at its end is empty or still starts with its slash.
pub trim-key-cases :
    (path : Text)
    → (trim_end_matches (key path) slash ≡ [])
      ⊎ ((u : Text) × (trim_end_matches (key path) slash ≡ slash ∷ u))
unfolding trim_end_matches
trim-key-cases path =
    let (t, e) = key-cons path in rw e (keep_head-cases slash slash (trim_end_matches t slash))

abbrev pub written_keys : Text → List Text
written_keys k = map store_key (currents [] (ancestor_parts k))

pub get-ensure_ancestors :
    (k : Text) (s : LdpStore) (j : Text)
    → HashMap.get (ensure_ancestors k s).inner j
      ≡ or_auto (member j (written_keys k)) (HashMap.get s.inner j)
unfolding ensure_ancestors
get-ensure_ancestors k s j = get-ensure_each s.inner [] (ancestor_parts k) j

currents-pieces :
    (n : ℕ) (t : Text)
    → currents [] (pieces (suc (suc n)) (slash ∷ t)) ≡ joined [] (pieces (suc (suc n)) (slash ∷ t))
unfolding extend
currents-pieces n t = rw (splitn_at n slash t slash refl) (
    rw (without_last-split n t)
      (ap (λ l. (slash ∷ []) ∷ l) (currents-eq-joined (slash ∷ []) _ (unfold ends_with in refl))))

ancestor_parts_lem :
    (k t : Text) → trim_end_matches k slash ≡ slash ∷ t → ancestor_parts k ≡ pieces 100 (slash ∷ t)
unfolding ancestor_parts
ancestor_parts_lem k t e =
    let (u, us, e') = splitn-cons 98 t slash in
    let e'' : splitn 100 (slash ∷ t) slash ≡ [] ∷ u ∷ us =
      splitn_at 98 slash t slash refl ∙ ap (λ l. [] ∷ l) e' in
    let two : ltb 1 (length ([] ∷ u ∷ us)) ≡ true = ground arith in rw e (rw e'' (rw two refl))

-- The keys for a key that is not only slashes.
pub written_keys_lem :
    (k t : Text)
    → trim_end_matches k slash ≡ slash ∷ t
    → written_keys k ≡ map store_key (joined [] (pieces 100 (slash ∷ t)))
written_keys_lem k t e =
    ap (map store_key) (ap (currents []) (ancestor_parts_lem k t e) ∙ currents-pieces 98 t)

-- A key of slashes alone has the root.
pub written_keys_root :
    (k : Text) → trim_end_matches k slash ≡ [] → written_keys k ≡ (slash ∷ []) ∷ []
unfolding ancestor_parts splitn extend store_key
written_keys_root k e = rw e refl

append_ne_nil : (p : Text) (c : ℕ) (r : Text) → ¬ (p ++ c ∷ r ≡ [])
append_ne_nil [] c r e = cc
append_ne_nil (x ∷ p) c r e = cc

member_singleton : (t j : Text) → member j (t ∷ []) ≡ true → t ≡ j
unfolding member
member_singleton t j h = ground (arith, text_eq_iff t j)

pub member-map :
    (f : Text → Text) (t : Text) (l : List Text) → member t l ≡ true → member (f t) (map f l) ≡ true
unfolding member
member-map f t [] h = h
member-map f t (u ∷ l) h = elim (or_cases (text_eq u t) h) [
  | inl e ↦ ground (arith, text_eq_iff u t, text_eq_iff (f u) (f t))
  | inr e ↦ or_right _ (member-map f t l e)
]

pub member-map_inv :
    (f : Text → Text) (t : Text) (l : List Text)
    → member t (map f l) ≡ true
    → (u : Text) × (member u l ≡ true) × (t ≡ f u)
unfolding member
member-map_inv f t [] h = absurd (ground arith)
member-map_inv f t (u ∷ l) h = elim (or_cases (text_eq (f u) t) h) [
  | inl e ↦ (u, rw (text_eq_refl u) refl, sym ((text_eq_iff _ _).0 e))
  | inr e ↦ let (v, m, e') = member-map_inv f t l e in (v, or_right _ m, e')
]

-- Each prefix that ends in a slash is written, up to the hundredth piece.
pub member-written_keys :
    (path p r : Text)
    → trim_end_matches (key path) slash ≡ p ++ slash ∷ r
    → count slash p ≤ 98
    → member (store_key (p ++ slash ∷ [])) (written_keys (key path)) ≡ true
member-written_keys path p r e h = elim (trim-key-cases path) [
  | inl none ↦ absurd (append_ne_nil p slash r (sym e ∙ none))
  | inr (u, e') ↦
      rw (written_keys_lem (key path) u e')
        (member-map store_key _ _ (rw (sym e' ∙ e) (member-joined p r [] 100 (omega arith))))
]

-- Nothing else is written.
pub written_keys_sound :
    (path j : Text)
    → member j (written_keys (key path)) ≡ true
    → (j ≡ slash ∷ [])
      ⊎ ((p r : Text) × (trim_end_matches (key path) slash ≡ p ++ slash ∷ r)
          × (j ≡ store_key (p ++ slash ∷ [])))
written_keys_sound path j h = elim (trim-key-cases path) [
  | inl e ↦ inl (sym (member_singleton (slash ∷ []) j (rw (written_keys_root _ e) at h)))
  | inr (u, e) ↦
      let (v, m, e') = member-map_inv store_key j _ (rw (written_keys_lem (key path) u e) at h) in
      let w = joined_sound (slash ∷ u) [] v 100 m in
      inr (w.prefix, w.rest, e ∙ w.cut, e' ∙ ap store_key w.path)
]
