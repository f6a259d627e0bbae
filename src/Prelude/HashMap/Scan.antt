-- ===== src/Prelude/HashMap/Scan.antt =====
-- A search through all entries of a map, and what it tells of the map.
use solid_community_rs.Prelude.Basics.{if◌then◌else◌, Bool-cases}
use solid_community_rs.Prelude.Strings.{Text, text_eq, text_eq_iff, text_eq_refl}
use mathlib.Core.Path.{◌≡◌, refl, sym, ap, ◌∙◌}
use mathlib.Core.Logic.{inl, inr}
use mathlib.Core.Bool.{Bool, true, false}
use mathlib.Core.Option.{Option, none, some}
use mathlib.Core.List.{[], ◌∷◌}
use native.Mathlib.Omega.{arith}
use solid_community_rs.Prelude.HashMap
use solid_community_rs.Prelude.HashMap.{
  HashMap, Pairs, find_pair, without, distinct, find_pair-without, find_pair-distinct,
}

module _ {V : Type 0} where
  -- `iter().find(|(_, v)| p(v))`
  unfoldable pub find_value : (V → Bool) → Pairs V → Option (Text × V)
  find_value p [] = none
  find_value p ((k, v) ∷ l) = let rest = find_value p l in if p v then some (k, v) else rest

  -- No key stands twice.
  abbrev IsUnique : Pairs V → Type 0
  IsUnique [] = Unit {0}
  IsUnique ((k, v) ∷ l) = (find_pair l k ≡ none) × IsUnique l

  without-IsUnique : (k : Text) (l : Pairs V) → IsUnique l → IsUnique (without k l)
  unfolding without
  without-IsUnique k [] u = tt
  without-IsUnique k ((j, v) ∷ l) u = elim (Bool-cases (text_eq j k)) [
    | inl e ↦ rw e (without-IsUnique k l u.1)
    | inr e ↦ rw e (
      find_pair-without l k j ∙ (rw u.0 (ground (arith, text_eq_iff k j))),
      without-IsUnique k l u.1,
    )
  ]

  distinct-IsUnique : (l : Pairs V) → IsUnique (distinct l)
  unfolding distinct
  distinct-IsUnique [] = tt
  distinct-IsUnique ((k, v) ∷ l) = (
    find_pair-without (distinct l) k k ∙ (rw (text_eq_refl k) refl),
    without-IsUnique k (distinct l) (distinct-IsUnique l),
  )

  some_ne_none : {a : V} → ¬ (some a ≡ none)
  some_ne_none h = cc h

  pair_eq :
      {j k : Text} {w v : V}
      → ◌≡◌ {A = Option (Text × V)} (some (j, w)) (some (k, v))
      → (j ≡ k) × (w ≡ v)
  pair_eq h = (cc h, cc h)

  found_in_list :
      (p : V → Bool) (l : Pairs V) (k : Text) (v : V)
      → IsUnique l
      → find_value p l ≡ some (k, v)
      → (find_pair l k ≡ some v) × (p v ≡ true)
  unfolding find_value find_pair
  found_in_list p [] k v u h = cc h
  found_in_list p ((j, w) ∷ l) k v u h = elim (Bool-cases (p w)) [
    | inl e ↦
        let (same_key, same) = pair_eq (rw e at h) in
        (rw (same_key, text_eq_refl k) (ap some same), sym (ap p same) ∙ e)
    | inr e ↦
        let (later, holds) = found_in_list p l k v u.1 (rw e at h) in
        elim (Bool-cases (text_eq j k)) [
          | inl x ↦
              absurd
                (some_ne_none (sym later ∙ sym (ap (find_pair l) ((text_eq_iff j k).0 x)) ∙ u.0))
          | inr x ↦ (rw x later, holds)
        ]
  ]

  none_in_list :
      (p : V → Bool) (l : Pairs V) (k : Text) (v : V)
      → find_value p l ≡ none
      → find_pair l k ≡ some v
      → p v ≡ false
  unfolding find_value find_pair
  none_in_list p [] k v h there = cc there
  none_in_list p ((j, w) ∷ l) k v h there = ground (arith, none_in_list p l k v, text_eq_iff j k)

  -- What is found is in the map and passes the test.
  pub find_value_sound :
      (p : V → Bool) (m : HashMap V) (k : Text) (v : V)
      → find_value p (HashMap.entries m) ≡ some (k, v)
      → (HashMap.get m k ≡ some v) × (p v ≡ true)
  unfolding HashMap.get HashMap.entries
  find_value_sound p m k v h =
      let (there, holds) = found_in_list p (distinct m.pairs) k v (distinct-IsUnique m.pairs) h in
      (sym (find_pair-distinct m.pairs k) ∙ there, holds)

  -- If nothing is found, no value passes the test.
  pub find_value-none :
      (p : V → Bool) (m : HashMap V) (k : Text) (v : V)
      → find_value p (HashMap.entries m) ≡ none
      → HashMap.get m k ≡ some v
      → p v ≡ false
  unfolding HashMap.get HashMap.entries
  find_value-none p m k v h there =
      none_in_list p (distinct m.pairs) k v h (find_pair-distinct m.pairs k ∙ there)
