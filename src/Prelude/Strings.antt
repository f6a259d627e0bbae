-- ===== src/Prelude/Strings.antt =====
-- Rust strings as lists of code points, with the methods of `str` that the sources call.
use Prim.Native.Nat.{ℕ, ◌+◌}
use Prim.Native.Char.{code}
use Prim.Native.String.{String}
use mathlib.Core.Path.{◌≡◌, refl}
use mathlib.Core.Logic.{◌↔◌}
use mathlib.Core.Bool.{Bool, true, false, ◌&&◌, ◌||◌}
use mathlib.Core.List.{List, [], ◌∷◌}
use native.Mathlib.Omega.{arith}
use solid_community_rs.Prelude.Basics.{◌==◌, if◌then◌else◌}

abbrev pub Text : Type 0
Text = List ℕ

-- A literal of the source.
abbrev pub text : String → Text
text String.[] = []
text (String.◌∷◌ c s) = code c ∷ text s

abbrev pub slash : ℕ
slash = b'/'

unfoldable pub text_eq : Text → Text → Bool
text_eq [] [] = true
text_eq (x ∷ xs) (y ∷ ys) = (x == y) && text_eq xs ys
text_eq _ _ = false

pub text_eq_iff : (a b : Text) → (text_eq a b ≡ true) ↔ (a ≡ b)
unfolding text_eq
text_eq_iff [] [] = (λ _. refl, λ _. refl)
text_eq_iff [] (y ∷ ys) = (λ h. cc, λ h. cc)
text_eq_iff (x ∷ xs) [] = (λ h. cc, λ h. cc)
text_eq_iff (x ∷ xs) (y ∷ ys) = ground (arith, text_eq_iff xs ys)

pub text_eq_refl : (a : Text) → text_eq a a ≡ true
text_eq_refl a = (text_eq_iff a a).1 refl

abbrev pub is_empty : Text → Bool
is_empty [] = true
is_empty (_ ∷ _) = false

-- `s.starts_with(p)`
unfoldable pub starts_with : Text → Text → Bool
starts_with s [] = true
starts_with [] (y ∷ p) = false
starts_with (x ∷ s) (y ∷ p) = (x == y) && starts_with s p

-- `s.ends_with(c)` for a character `c`
unfoldable pub ends_with : Text → ℕ → Bool
ends_with [] c = false
ends_with (x ∷ []) c = x == c
ends_with (x ∷ y ∷ s) c = ends_with (y ∷ s) c

-- Put a character before what is left of a text trimmed at its end.
abbrev pub keep_head : ℕ → ℕ → Text → Text
keep_head c x [] = if x == c then [] else x ∷ []
keep_head c x (y ∷ s) = x ∷ y ∷ s

-- `s.trim_end_matches(c)`
unfoldable pub trim_end_matches : Text → ℕ → Text
trim_end_matches [] c = []
trim_end_matches (x ∷ s) c = keep_head c x (trim_end_matches s c)

-- `s.trim_start_matches(c)`
unfoldable pub trim_start_matches : Text → ℕ → Text
trim_start_matches [] c = []
trim_start_matches (x ∷ s) c = let rest = trim_start_matches s c in if x == c then rest else x ∷ s

-- `l.contains(t)`
unfoldable pub member : Text → List Text → Bool
unfolding text_eq
member t [] = false
member t (u ∷ l) = text_eq u t || member t l

-- How often a character stands in a text.
unfoldable pub count : ℕ → Text → ℕ
count c [] = 0
count c (x ∷ s) = (if x == c then 1 else 0) + count c s
