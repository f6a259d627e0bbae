-- ===== src/Prelude/HashMap/Listing.antt =====
-- Which keys of a map are listed by a test of the values.
use mathlib.Core.Path.{◌≡◌, refl}
use mathlib.Core.Bool.{Bool, false}
use mathlib.Core.Option.{Option, none, some}
use mathlib.Core.List.{List, [], ◌∷◌, map}
use native.Mathlib.Omega.{arith}
use solid_community_rs.Prelude.Basics.{if◌then◌else◌}
use solid_community_rs.Prelude.Lists.{filter}
use solid_community_rs.Prelude.Strings.{Text, text_eq, text_eq_iff, member}
use solid_community_rs.Prelude.HashMap.{HashMap, Pairs, find_pair, without, distinct, get, entries}

module _ {V : Type 0} (p : V → Bool) where
  abbrev pub keys_where : List (Text × V) → List Text
  keys_where l = map (λ e. e.0) (filter (λ e. p e.1) l)

  abbrev pub holds : Option V → Bool
  holds none = false
  holds (some v) = p v

  keys_where-without :
      (l : Pairs V) (k j : Text)
      → member j (keys_where (without k l))
        ≡ (if text_eq k j then false else member j (keys_where l))
  unfolding member without
  keys_where-without [] k j = ground arith
  keys_where-without ((i, v) ∷ l) k j =
      ground (arith, keys_where-without l k j, text_eq_iff i k, text_eq_iff i j, text_eq_iff k j)

  keys_where-distinct :
      (l : Pairs V) (j : Text) → member j (keys_where (distinct l)) ≡ holds (find_pair l j)
  unfolding member distinct find_pair
  keys_where-distinct [] j = refl
  keys_where-distinct ((i, v) ∷ l) j =
      ground (arith, keys_where-distinct l j, keys_where-without (distinct l) i j, text_eq_iff i j)

  -- A key is listed exactly if its value passes the test.
  pub keys_where-entries :
      (m : HashMap V) (j : Text) → member j (keys_where (entries m)) ≡ holds (get m j)
  unfolding entries get
  keys_where-entries m j = keys_where-distinct m.pairs j
