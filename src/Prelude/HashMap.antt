-- ===== src/Prelude/HashMap.antt =====
-- `std::collections::HashMap` keyed by strings, known to its users by the laws below. The
-- representation is an association list; a key that it holds twice counts once, so the laws need
-- no condition. Iteration follows the list, and no law tells the order.
pub mod Scan
pub mod Listing
use solid_community_rs.Prelude.Basics.{if◌then◌else◌, is_some, Bool-cases}
use solid_community_rs.Prelude.Strings.{Text, text_eq, text_eq_iff}
use mathlib.Core.Path.{◌≡◌, refl, ap, ◌∙◌}
use mathlib.Core.Logic.{inl, inr}
use mathlib.Core.Bool.{Bool}
use mathlib.Core.Option.{Option, none, some}
use mathlib.Core.List.{List, [], ◌∷◌}
use native.Mathlib.Omega.{arith}

abbrev pub Pairs {ℓ} : Type ℓ → Type ℓ
Pairs V = List (Text × V)

pub record HashMap {ℓ} (V : Type ℓ) : Type ℓ where
  pub pairs : Pairs V

some_ne_none {ℓ} : {A : Type ℓ} {a : A} → ¬ (some a ≡ none)
some_ne_none h = cc h

module _ {ℓ} {V : Type ℓ} where
  unfoldable pub find_pair : Pairs V → Text → Option V
  find_pair [] k = none
  find_pair ((j, v) ∷ l) k = if text_eq j k then some v else find_pair l k

  unfoldable pub without : Text → Pairs V → Pairs V
  without k [] = []
  without k ((j, v) ∷ l) = let rest = without k l in if text_eq j k then rest else (j, v) ∷ rest

  unfoldable pub retained : (Text → V → Bool) → Pairs V → Pairs V
  retained p [] = []
  retained p ((k, v) ∷ l) =
      let rest = retained p l in if p k v then (k, v) ∷ rest else without k rest

  unfoldable pub distinct : Pairs V → Pairs V
  distinct [] = []
  distinct ((k, v) ∷ l) = (k, v) ∷ without k (distinct l)

  pub find_pair-without :
      (l : Pairs V) (k j : Text)
      → find_pair (without k l) j ≡ (if text_eq k j then none else find_pair l j)
  unfolding find_pair without
  find_pair-without [] k j = ground arith
  find_pair-without ((i, v) ∷ l) k j =
      ground (arith, find_pair-without l k j, text_eq_iff i k, text_eq_iff i j, text_eq_iff k j)

  abbrev pub keep_if : Bool → V → Option V
  keep_if b v = if b then some v else none

  abbrev pub filter_value : (V → Bool) → Option V → Option V
  filter_value p none = none
  filter_value p (some v) = keep_if (p v) v

  find_pair-retained :
      (p : Text → V → Bool) (l : Pairs V) (k : Text)
      → find_pair (retained p l) k ≡ filter_value (p k) (find_pair l k)
  unfolding find_pair retained
  find_pair-retained p [] k = refl
  find_pair-retained p ((j, v) ∷ l) k =
      ground
        (arith, find_pair-retained p l k, find_pair-without (retained p l) j k, text_eq_iff j k)

  -- `HashMap::new()`
  unfoldable pub empty : HashMap V
  empty = record { pairs = [] }

  -- `m.get(k)`
  unfoldable pub get : HashMap V → Text → Option V
  unfolding find_pair
  get m k = find_pair m.pairs k

  -- `m.contains_key(k)`
  abbrev pub contains_key : HashMap V → Text → Bool
  contains_key m k = is_some (get m k)

  -- `m.insert(k, v)`
  unfoldable pub insert : Text → V → HashMap V → HashMap V
  unfolding without
  insert k v m = record { pairs = (k, v) ∷ without k m.pairs }

  -- `m.remove(k)`
  unfoldable pub remove : Text → HashMap V → HashMap V
  unfolding without
  remove k m = record { pairs = without k m.pairs }

  -- `m.retain(p)`
  unfoldable pub retain : (Text → V → Bool) → HashMap V → HashMap V
  unfolding retained without
  retain p m = record { pairs = retained p m.pairs }

  -- `m.iter()`, collected
  unfoldable pub entries : HashMap V → Pairs V
  unfolding distinct without
  entries m = distinct m.pairs

  pub get-empty : (k : Text) → get empty k ≡ none
  unfolding get empty
  get-empty k = refl

  pub get-insert :
      (m : HashMap V) (k j : Text) (v : V)
      → get (insert k v m) j ≡ (if text_eq k j then some v else get m j)
  unfolding get insert
  get-insert m k j v = ground (arith, find_pair-without m.pairs k j)

  pub get-remove :
      (m : HashMap V) (k j : Text) → get (remove k m) j ≡ (if text_eq k j then none else get m j)
  unfolding get remove
  get-remove m k j = find_pair-without m.pairs k j

  pub get-retain :
      (p : Text → V → Bool) (m : HashMap V) (k : Text)
      → get (retain p m) k ≡ filter_value (p k) (get m k)
  unfolding get retain
  get-retain p m k = find_pair-retained p m.pairs k

  without_absent : (l : Pairs V) (k : Text) → find_pair l k ≡ none → without k l ≡ l
  unfolding find_pair without
  without_absent [] k h = refl
  without_absent ((j, v) ∷ l) k h = elim (Bool-cases (text_eq j k)) [
    | inl e ↦ absurd (some_ne_none (rw e at h))
    | inr e ↦ rw e (ap (λ r. (j, v) ∷ r) (without_absent l k (rw e at h)))
  ]

  pub find_pair-distinct : (l : Pairs V) (k : Text) → find_pair (distinct l) k ≡ find_pair l k
  unfolding find_pair distinct
  find_pair-distinct [] k = refl
  find_pair-distinct ((j, v) ∷ l) k =
      ground (arith, find_pair-distinct l k, find_pair-without (distinct l) j k, text_eq_iff j k)

  -- A key that is new comes first.
  pub entries-insert :
      (m : HashMap V) (k : Text) (v : V)
      → get m k ≡ none
      → entries (insert k v m) ≡ (k, v) ∷ entries m
  unfolding get insert entries distinct
  entries-insert m k v h =
      ap (λ l. (k, v) ∷ without k (distinct l)) (without_absent m.pairs k h)
      ∙ ap (λ l. (k, v) ∷ l)
          (without_absent (distinct m.pairs) k (find_pair-distinct m.pairs k ∙ h))

pub ruleset map_laws = (get-empty, get-insert, get-remove, get-retain)
