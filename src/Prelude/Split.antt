-- ===== src/Prelude/Split.antt =====
-- `str::split`, `splitn`, `trim`, `strip_prefix`, `strip_suffix`, `contains` and `rfind`.
use Prim.Native.Nat.{ℕ, zero, suc, ◌+◌, ◌/◌, ◌%◌}
use mathlib.Core.Bool.{Bool, true, false, ◌&&◌, ◌||◌}
use mathlib.Core.Option
use mathlib.Core.Option.{Option, none, some}
use native.Mathlib.Omega.{arith}
use mathlib.Core.Path.{◌≡◌, refl, ap, ◌∙◌}
use mathlib.Core.Logic.{inl, inr}
use mathlib.Core.List.{List, [], ◌∷◌, ◌++◌}
use solid_community_rs.Prelude.Basics.{◌==◌, ==_iff, leb, Bool-cases, if◌then◌else◌}
use solid_community_rs.Prelude.Lists.{length, length-append}
use solid_community_rs.Prelude.Strings.{Text, starts_with, text_eq, text_eq_iff, text_eq_refl}

-- Put a character before the first piece.
abbrev pub extend_first : ℕ → List Text → List Text
extend_first c [] = (c ∷ []) ∷ []
extend_first c (t ∷ ts) = (c ∷ t) ∷ ts

-- `s.split(c)`
unfoldable pub split : Text → ℕ → List Text
split [] c = [] ∷ []
split (x ∷ s) c = let rest = split s c in if x == c then [] ∷ rest else extend_first x rest

-- `s.splitn(n, c)`: the last of `n` pieces holds all that is left.
unfoldable pub splitn : ℕ → Text → ℕ → List Text
splitn zero s c = []
splitn (suc zero) s c = s ∷ []
splitn (suc (suc n)) [] c = [] ∷ []
splitn (suc (suc n)) (x ∷ s) c = elim (x == c) [
  | true ↦ [] ∷ splitn (suc n) s c
  | false ↦ extend_first x (splitn (suc (suc n)) s c)
]

-- The first piece of a `split`, which always has one.
abbrev pub first_piece : List Text → Text
first_piece [] = []
first_piece (t ∷ ts) = t

-- Unicode White_Space, the characters that `str::trim` removes.
unfoldable pub is_whitespace : ℕ → Bool
is_whitespace c =
    (leb 9 c && leb c 13)
    || c == 32
    || c == 0x85
    || c == 0xa0
    || c == 0x1680
    || (leb 0x2000 c && leb c 0x200a)
    || c == 0x2028
    || c == 0x2029
    || c == 0x202f
    || c == 0x205f
    || c == 0x3000

unfoldable pub trim_start : Text → Text
unfolding is_whitespace
trim_start [] = []
trim_start (x ∷ s) = let rest = trim_start s in if is_whitespace x then rest else x ∷ s

abbrev pub keep_before : Bool → ℕ → Text → Text
keep_before white x [] = if white then [] else x ∷ []
keep_before white x (y ∷ s) = x ∷ y ∷ s

unfoldable pub trim_end : Text → Text
unfolding is_whitespace
trim_end [] = []
trim_end (x ∷ s) = keep_before (is_whitespace x) x (trim_end s)

-- `s.trim()`
unfoldable pub trim : Text → Text
unfolding trim_start trim_end
trim s = trim_end (trim_start s)

-- `s.strip_prefix(p)`
unfoldable pub strip_prefix : Text → Text → Option Text
strip_prefix s [] = some s
strip_prefix [] (y ∷ p) = none
strip_prefix (x ∷ s) (y ∷ p) = let rest = strip_prefix s p in if x == y then rest else none

-- `s.contains(p)`
unfoldable pub contains : Text → Text → Bool
unfolding starts_with
contains [] p = starts_with [] p
contains (x ∷ s) p = starts_with (x ∷ s) p || contains s p

abbrev pub found_later : Bool → Option ℕ → Option ℕ
found_later here none = if here then some 0 else none
found_later here (some i) = some (suc i)

-- `s.rfind(c)`
unfoldable pub rfind : Text → ℕ → Option ℕ
rfind [] c = none
rfind (x ∷ s) c = found_later (x == c) (rfind s c)

pub splitn_at :
    (n x : ℕ) (s : Text) (c : ℕ)
    → (x == c) ≡ true
    → splitn (suc (suc n)) (x ∷ s) c ≡ [] ∷ splitn (suc n) s c
unfolding splitn
splitn_at n x s c h = rw (h, splitn) refl

pub splitn_past :
    (n x : ℕ) (s : Text) (c : ℕ)
    → (x == c) ≡ false
    → splitn (suc (suc n)) (x ∷ s) c ≡ extend_first x (splitn (suc (suc n)) s c)
unfolding splitn
splitn_past n x s c h = rw (h, splitn) refl

-- There is always a piece.
pub splitn-cons :
    (n : ℕ) (s : Text) (c : ℕ) → (t : Text) × (ts : List Text) × (splitn (suc n) s c ≡ t ∷ ts)
unfolding splitn
splitn-cons zero s c = (s, [], refl)
splitn-cons (suc n) [] c = ([], [], refl)
splitn-cons (suc n) (x ∷ s) c = elim (Bool-cases (x == c)) [
  | inl h ↦ ([], splitn (suc n) s c, splitn_at n x s c h)
  | inr h ↦
      let (t, ts, e) = splitn-cons (suc n) s c in
      (x ∷ t, ts, splitn_past n x s c h ∙ ap (extend_first x) e)
]

-- `s.strip_suffix(p)`
unfoldable pub strip_suffix : Text → Text → Option Text
strip_suffix [] p = if text_eq [] p then some [] else none
strip_suffix (x ∷ s) p =
    let rest = Option.map (λ t. x ∷ t) (strip_suffix s p) in
    if text_eq (x ∷ s) p then some [] else rest

pub strip_suffix_sound : (s p t : Text) → strip_suffix s p ≡ some t → s ≡ t ++ p
unfolding strip_suffix
strip_suffix_sound [] p t h = ground (arith, text_eq_iff [] p)
strip_suffix_sound (x ∷ s) p t h = elim (Bool-cases (text_eq (x ∷ s) p)) [
  | inl e ↦ ground (arith, text_eq_iff (x ∷ s) p)
  | inr e ↦
      let (u, found, same) = (Option.map-eq-some_iff _ _).0 (rw e at h) in
      ap (λ l. x ∷ l) (strip_suffix_sound s p u found) ∙ ap (λ l. l ++ p) same
]

strip_suffix_self : (p : Text) → strip_suffix p p ≡ some []
unfolding strip_suffix
strip_suffix_self [] = rw (text_eq_refl []) refl
strip_suffix_self (y ∷ p) = rw (text_eq_refl (y ∷ p)) refl

pub strip_suffix-append : (t p : Text) → strip_suffix (t ++ p) p ≡ some t
unfolding strip_suffix
strip_suffix-append [] p = strip_suffix_self p
strip_suffix-append (x ∷ t) p = elim (Bool-cases (text_eq (x ∷ t ++ p) p)) [
  | inl e ↦ absurd (omega (arith, ap length ((text_eq_iff _ _).0 e), length-append t p))
  | inr e ↦ rw e (rw (strip_suffix-append t p) refl)
]

pub starts_with-append : (p s : Text) → starts_with (p ++ s) p ≡ true
unfolding starts_with
starts_with-append [] s = refl
starts_with-append (x ∷ p) s = ground (arith, starts_with-append p s)

pub starts_with_sound : (s p : Text) → starts_with s p ≡ true → (r : Text) × (s ≡ p ++ r)
unfolding starts_with
starts_with_sound s [] h = (s, refl)
starts_with_sound [] (y ∷ p) h = cc
starts_with_sound (x ∷ s) (y ∷ p) h =
    let (r, e) = starts_with_sound s p (ground arith) in (r, ground (arith, ==_iff x y))

-- The bytes of a text in UTF-8.
unfoldable pub utf8_char : ℕ → List ℕ
utf8_char c =
    if leb c 0x7f
    then c ∷ []
    else if leb c 0x7ff
    then (0xc0 + c / 0x40) ∷ (0x80 + c % 0x40) ∷ []
    else if leb c 0xffff
    then (0xe0 + c / 0x1000) ∷ (0x80 + c / 0x40 % 0x40) ∷ (0x80 + c % 0x40) ∷ []
    else (0xf0 + c / 0x40000)
      ∷ (0x80 + c / 0x1000 % 0x40)
      ∷ (0x80 + c / 0x40 % 0x40)
      ∷ (0x80 + c % 0x40)
      ∷ []

unfoldable pub utf8 : Text → List ℕ
unfolding utf8_char
utf8 [] = []
utf8 (c ∷ s) = utf8_char c ++ utf8 s
