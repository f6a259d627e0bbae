-- ===== src/Prelude/Trim.antt =====
-- Laws of trimming a text at its end, and of prefixes.
use Prim.Native.Nat.{ℕ, suc, ◌≤◌}
use mathlib.Core.Path.{◌≡◌, refl, ap}
use mathlib.Core.Logic.{inl, inr}
use mathlib.Core.Bool.{true, false}
use mathlib.Core.List.{[], ◌∷◌, ◌++◌}
use native.Mathlib.Omega.{arith}
use solid_community_rs.Prelude.Basics.{◌==◌, ==_iff, Bool-cases}
use solid_community_rs.Prelude.Lists.{replicate, length}
use solid_community_rs.Prelude.Strings.{Text, ends_with, trim_end_matches, keep_head}

pub ends_with-concat : (s : Text) (c : ℕ) → ends_with (s ++ c ∷ []) c ≡ true
unfolding ends_with
ends_with-concat [] c = ground arith
ends_with-concat (x ∷ []) c = ground arith
ends_with-concat (x ∷ y ∷ s) c = ends_with-concat (y ∷ s) c

ends_with-keep_head :
    (s : Text) (c x : ℕ) → ends_with s c ≡ false → ends_with (keep_head c x s) c ≡ false
unfolding ends_with
ends_with-keep_head [] c x h = ground arith
ends_with-keep_head (y ∷ s) c x h = h

pub ends_with-trim_end_matches : (s : Text) (c : ℕ) → ends_with (trim_end_matches s c) c ≡ false
unfolding trim_end_matches
ends_with-trim_end_matches [] c = unfold ends_with in refl
ends_with-trim_end_matches (x ∷ s) c =
    ends_with-keep_head (trim_end_matches s c) c x (ends_with-trim_end_matches s c)

pub trim_end_matches_fixed : (s : Text) (c : ℕ) → ends_with s c ≡ false → trim_end_matches s c ≡ s
unfolding trim_end_matches ends_with
trim_end_matches_fixed [] c h = refl
trim_end_matches_fixed (x ∷ []) c h = ground arith
trim_end_matches_fixed (x ∷ y ∷ s) c h = ground (arith, trim_end_matches_fixed (y ∷ s) c h)

pub trim_end_matches-concat :
    (s : Text) (c : ℕ) → trim_end_matches (s ++ c ∷ []) c ≡ trim_end_matches s c
unfolding trim_end_matches
trim_end_matches-concat [] c = ground arith
trim_end_matches-concat (x ∷ s) c = ap (keep_head c x) (trim_end_matches-concat s c)

keep_head_suffix :
    (t s : Text) (c x n : ℕ)
    → s ≡ t ++ replicate n c
    → (m : ℕ) × (x ∷ s ≡ keep_head c x t ++ replicate m c)
keep_head_suffix [] s c x n e = elim (Bool-cases (x == c)) [
  | inl h ↦ (suc n, ground (arith, ==_iff x c))
  | inr h ↦ (n, rw h (ap (λ l. x ∷ l) e))
]
keep_head_suffix (y ∷ t) s c x n e = (n, ap (λ l. x ∷ l) e)

-- Only copies of `c` are cut off.
pub trim_end_matches_suffix :
    (s : Text) (c : ℕ) → (n : ℕ) × (s ≡ trim_end_matches s c ++ replicate n c)
unfolding trim_end_matches
trim_end_matches_suffix [] c = (0, refl)
trim_end_matches_suffix (x ∷ s) c =
    let (n, e) = trim_end_matches_suffix s c in keep_head_suffix (trim_end_matches s c) s c x n e

length-keep_head : (c x : ℕ) (t : Text) → length (keep_head c x t) ≤ suc (length t)
length-keep_head c x [] = elim (Bool-cases (x == c)) [
  | inl e ↦ rw e (omega arith)
  | inr e ↦ rw e (omega arith)
]
length-keep_head c x (y ∷ t) = omega arith

pub length-trim_end_matches : (s : Text) (c : ℕ) → length (trim_end_matches s c) ≤ length s
unfolding trim_end_matches
length-trim_end_matches [] c = omega arith
length-trim_end_matches (x ∷ s) c =
    omega (arith, length-trim_end_matches s c, length-keep_head c x (trim_end_matches s c))
