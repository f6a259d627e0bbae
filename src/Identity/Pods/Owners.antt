-- ===== src/Identity/Pods/Owners.antt =====
-- The owners of pods as a function from pod and WebID, which the operations on rows refine.
use solid_community_rs.Prelude.{
  ◌≡◌, refl, sym, ap, ◌∙◌, Bool, true, false, inl, inr, Option, none, some, Text, text_eq,
  text_eq_iff, text_eq_refl, Bool-cases, Option-cases, if◌then◌else◌,
}
use solid_community_rs.Prelude.HashMap
use solid_community_rs.Prelude.HashMap.{HashMap, get-empty, get-insert, get-remove}
use solid_community_rs.Prelude.HashMap.Scan.{find_value_sound, find_value-none}
use solid_community_rs.Identity.Pods.{OwnerRow, is_owner, find_owner}

-- A row stands at the identifier that it holds, and a pod has one row for a WebID at most.
pub record AreDistinct (m : HashMap OwnerRow) : Type 0 where
  pub keyed : (k : Text) (r : OwnerRow) → HashMap.get m k ≡ some r → r.id ≡ k
  pub single :
      (p x j k : Text) (q r : OwnerRow)
      → HashMap.get m j ≡ some q
      → is_owner p x q ≡ true
      → HashMap.get m k ≡ some r
      → is_owner p x r ≡ true
      → j ≡ k

abbrev pub visibility_of : Option (Text × OwnerRow) → Option Bool
visibility_of none = none
visibility_of (some (k, r)) = some r.visible

-- Whether a WebID owns a pod, and then whether it does so visibly.
abbrev pub visibility : Text → Text → HashMap OwnerRow → Option Bool
visibility p x m = visibility_of (find_owner p x m)

none_ne_some : {a : OwnerRow} → ¬ (none ≡ some a)
none_ne_some h = cc h

row_eq : {q r : OwnerRow} → some q ≡ some r → q ≡ r
row_eq h = cc h

visibility_at :
    (p x : Text) (m : HashMap OwnerRow) (k : Text) (r : OwnerRow)
    → AreDistinct m
    → HashMap.get m k ≡ some r
    → is_owner p x r ≡ true
    → visibility p x m ≡ some r.visible
visibility_at p x m k r d there owns = elim (Option-cases (find_owner p x m)) [
  | inl e ↦ cc (sym owns ∙ find_value-none (is_owner p x) m k r e there)
  | inr ((j, q), e) ↦
      let (found, holds) = find_value_sound (is_owner p x) m j q e in
      let same = d.single p x j k q r found holds there owns in
      rw e (ap (λ t. some t.visible) (row_eq (sym found ∙ ap (HashMap.get m) same ∙ there)))
]

-- Two maps with the same rows for a pod and a WebID.
visibility_same :
    (p x : Text) (m n : HashMap OwnerRow)
    → AreDistinct n
    → ((k : Text) (r : OwnerRow)
        → is_owner p x r ≡ true
        → HashMap.get m k ≡ some r
        → HashMap.get n k ≡ some r)
    → ((k : Text) (r : OwnerRow)
        → is_owner p x r ≡ true
        → HashMap.get n k ≡ some r
        → HashMap.get m k ≡ some r)
    → visibility p x n ≡ visibility p x m
visibility_same p x m n d there back = elim (Option-cases (find_owner p x m)) [
  | inr ((k, r), e) ↦
      let (found, holds) = find_value_sound (is_owner p x) m k r e in
      visibility_at p x n k r d (there k r holds found) holds ∙ (rw e refl)
  | inl e ↦ elim (Option-cases (find_owner p x n)) [
    | inl e' ↦ rw (e, e') refl
    | inr ((k, r), e') ↦
        let (found, holds) = find_value_sound (is_owner p x) n k r e' in
        cc (sym holds ∙ find_value-none (is_owner p x) m k r e (back k r holds found))
  ]
]

true_ne_false : ¬ (true ≡ false)
true_ne_false h = cc h

-- Writing a row for a pod and a WebID at a key that was free or held a row for the same two.
pub visibility-insert :
    (k : Text) (row : OwnerRow) (m : HashMap OwnerRow) (p x : Text)
    → AreDistinct (HashMap.insert k row m)
    → ((r : OwnerRow) → HashMap.get m k ≡ some r → is_owner p x r ≡ is_owner p x row)
    → visibility p x (HashMap.insert k row m)
      ≡ (if is_owner p x row then some row.visible else visibility p x m)
visibility-insert k row m p x d same = elim (Bool-cases (is_owner p x row)) [
  | inl e ↦ rw e (visibility_at p x _ k row d (get-insert m k k row ∙ (rw (text_eq_refl k) refl)) e)
  | inr e ↦ rw e (
      visibility_same p x m _ d
        (λ j r holds found. elim (Bool-cases (text_eq k j)) [
          | inl y ↦
              let here = ap (HashMap.get m) ((text_eq_iff k j).0 y) ∙ found in
              absurd (true_ne_false (sym holds ∙ same r here ∙ e))
          | inr y ↦ get-insert m k j row ∙ (rw y found)
        ])
        (λ j r holds found. elim (Bool-cases (text_eq k j)) [
          | inl y ↦
              let own : row ≡ r = row_eq (rw (get-insert, y) at found) in
              absurd (true_ne_false (sym holds ∙ ap (is_owner p x) (sym own) ∙ e))
          | inr y ↦ rw (get-insert, y) at found
        ]))
]

pub visibility-remove :
    (k : Text) (row : OwnerRow) (m : HashMap OwnerRow) (p x : Text)
    → AreDistinct m
    → AreDistinct (HashMap.remove k m)
    → HashMap.get m k ≡ some row
    → visibility p x (HashMap.remove k m) ≡ (if is_owner p x row then none else visibility p x m)
visibility-remove k row m p x d d' there = elim (Bool-cases (is_owner p x row)) [
  | inl e ↦ elim (Option-cases (find_owner p x (HashMap.remove k m))) [
    | inl f ↦ rw (e, f) refl
    | inr ((j, r), f) ↦
        let (found, holds) = find_value_sound (is_owner p x) (HashMap.remove k m) j r f in
        elim (Bool-cases (text_eq k j)) [
          | inl y ↦ absurd (none_ne_some (rw (get-remove, y) at found))
          | inr y ↦
              let old : HashMap.get m j ≡ some r = rw (get-remove, y) at found in
              let one = d.single p x k j row r there e old holds in
              absurd (true_ne_false (sym ((text_eq_iff k j).1 one) ∙ y))
        ]
  ]
  | inr e ↦ rw e (
      visibility_same p x m _ d'
        (λ j r holds found. elim (Bool-cases (text_eq k j)) [
          | inl y ↦
              let own = row_eq (sym there ∙ ap (HashMap.get m) ((text_eq_iff k j).0 y) ∙ found) in
              absurd (true_ne_false (sym holds ∙ ap (is_owner p x) (sym own) ∙ e))
          | inr y ↦ get-remove m k j ∙ (rw y found)
        ])
        (λ j r holds found. elim (Bool-cases (text_eq k j)) [
          | inl y ↦ absurd (none_ne_some (rw (get-remove, y) at found))
          | inr y ↦ rw (get-remove, y) at found
        ]))
]
