-- ===== src/HttpTypes/Identifier/Climb.antt =====
-- From parent to parent: how many containers are above an identifier, and which.
use solid_community_rs.Prelude.{
  ℕ, zero, suc, ◌+◌, ◌<◌, ◌≡◌, refl, sym, ap, ◌∙◌, Bool, true, false, not, ◌&&◌, ◌⊎◌, inl, inr, [],
  ◌∷◌, ◌++◌, append_assoc, append-nil, Option, none, some, arith, Text, slash, ends_with,
  trim_end_matches, take, drop, take-append-drop, replicate, ◌==◌, Option-cases, if◌then◌else◌,
}
use mathlib.Core.Option
use solid_community_rs.Prelude.Split.{rfind, found_later}
use solid_community_rs.Prelude.Trim.{
  ends_with-concat, ends_with-trim_end_matches, trim_end_matches-concat, trim_end_matches_suffix,
}
use solid_community_rs.HttpTypes.Identifier.{ResourceIdentifier, parent}
use solid_community_rs.HttpTypes.Identifier.Laws.{found_here, rfind-some}

trim-doubled :
    (q : Text) → trim_end_matches (q ++ slash ∷ slash ∷ []) slash ≡ trim_end_matches q slash
trim-doubled q =
    ap (λ t. trim_end_matches t slash) (sym (append_assoc q (slash ∷ []) (slash ∷ [])))
    ∙ trim_end_matches-concat (q ++ slash ∷ []) slash
    ∙ trim_end_matches-concat q slash

-- The parent of the parent, and so on.
unfoldable pub climb : ℕ → ResourceIdentifier → Option ResourceIdentifier
climb zero id = some id
climb (suc n) id = Option.bind (parent id) (climb n)

abbrev starts_segment : ℕ → Text → Bool
starts_segment c [] = false
starts_segment c (d ∷ t) = (c == slash) && not (d == slash)

-- How many slashes of a path are followed by another character.
unfoldable pub levels : Text → ℕ
levels [] = 0
levels (c ∷ t) = let rest = levels t in if starts_segment c t then suc rest else rest

levels-append : (p t : Text) (c : ℕ) → levels (p ++ c ∷ t) ≡ levels (p ++ c ∷ []) + levels (c ∷ t)
unfolding levels
levels-append [] t c = omega arith
levels-append (x ∷ []) t c = ground (arith, levels-append [] t c)
levels-append (x ∷ y ∷ p) t c = ground (arith, levels-append (y ∷ p) t c)

-- Slashes at the end count for nothing.
levels-concat : (p : Text) → levels (p ++ slash ∷ []) ≡ levels p
unfolding levels
levels-concat [] = refl
levels-concat (x ∷ []) = ground arith
levels-concat (x ∷ y ∷ p) = ground (arith, levels-concat (y ∷ p))

levels-replicate : (n : ℕ) (p : Text) → levels (p ++ replicate n slash) ≡ levels p
levels-replicate zero p = ap levels (append-nil p)
levels-replicate (suc n) p =
    ap levels (sym (append_assoc p (slash ∷ []) (replicate n slash)))
    ∙ levels-replicate n (p ++ slash ∷ [])
    ∙ levels-concat p

levels-trim : (t : Text) → levels (trim_end_matches t slash) ≡ levels t
levels-trim t =
    let (n, e) = trim_end_matches_suffix t slash in
    sym (ap levels e ∙ levels-replicate n (trim_end_matches t slash))

not_later : (b : Bool) (o : Option ℕ) → found_later b o ≡ none → (b ≡ false) × (o ≡ none)
not_later true none h = cc h
not_later false none h = (refl, refl)
not_later b (some i) h = cc h

no_segment : (x : ℕ) (t : Text) → (x == slash) ≡ false → starts_segment x t ≡ false
no_segment x [] h = refl
no_segment x (d ∷ t) h = rw h refl

-- Without a slash there are no levels.
levels_flat : (t : Text) → rfind t slash ≡ none → levels t ≡ 0
unfolding levels rfind
levels_flat [] h = refl
levels_flat (x ∷ t) h =
    let (other, rest) = not_later (x == slash) (rfind t slash) h in
    rw (no_segment x t other) (levels_flat t rest)

-- Nothing but the last slash is found.
rfind_last : (s : Text) (c i : ℕ) → rfind s c ≡ some i → rfind (drop (suc i) s) c ≡ none
unfolding rfind
rfind_last [] c i h = refl
rfind_last (x ∷ s) c i h = elim (Option-cases (rfind s c)) [
  | inl e ↦ let here = found_here (x == c) i (rw e at h) in rw here.1 e
  | inr (j, e) ↦
      let h' : found_later (x == c) (some j) ≡ some i = rw e at h in
      let later : i ≡ suc j = ground arith in rw later (rfind_last s c j e)
]

-- What stands after the last slash is one level.
last_level :
    (q r : Text)
    → ends_with (q ++ slash ∷ r) slash ≡ false
    → rfind r slash ≡ none
    → levels (q ++ slash ∷ r) ≡ levels q + 1
last_level q [] h none_there = let h' = sym (ends_with-concat q slash) ∙ h in cc h'
last_level q (x ∷ r) h none_there =
    let (other, rest) = not_later (x == slash) (rfind r slash) (unfold rfind in none_there) in
    let one : levels (slash ∷ x ∷ r) ≡ 1 =
      unfold levels in rw (other, no_segment x r other, levels_flat r rest) refl in
    levels-append q (x ∷ r) slash ∙ (omega (arith, levels-concat q, one))

-- `p` is above `id`: it is cut before a slash of the identifier, and two slashes are added.
abbrev pub IsAbove : ResourceIdentifier → ResourceIdentifier → Type 0
IsAbove id p =
    (q r : Text) × (trim_end_matches id.path slash ≡ q ++ slash ∷ r)
    × (p.path ≡ q ++ slash ∷ slash ∷ [])

parent-cases :
    (id : ResourceIdentifier)
    → ((parent id ≡ none) × (levels id.path ≡ 0))
      ⊎ ((p : ResourceIdentifier) × (parent id ≡ some p)
          × (levels id.path ≡ levels p.path + 1)
          × IsAbove id p)
unfolding parent Option.bind
parent-cases id =
    let trimmed = trim_end_matches id.path slash in
    elim (Option-cases (rfind trimmed slash)) [
      | inl e ↦ inl (rw e refl, sym (levels-trim id.path) ∙ levels_flat trimmed e)
      | inr (i, e) ↦
          let q = take i trimmed in
          let r = drop (suc i) trimmed in
          let upto = rfind-some trimmed slash i e in
          let cut : trimmed ≡ q ++ slash ∷ r =
            sym (take-append-drop (suc i) trimmed)
            ∙ ap (λ t. t ++ r) upto
            ∙ append_assoc q (slash ∷ []) r in
          let doubled : take (suc i) trimmed ++ slash ∷ [] ≡ q ++ slash ∷ slash ∷ [] =
            ap (λ t. t ++ slash ∷ []) upto ∙ append_assoc q (slash ∷ []) (slash ∷ []) in
          let above : levels (take (suc i) trimmed ++ slash ∷ []) ≡ levels q =
            levels-concat _ ∙ ap levels upto ∙ levels-concat q in
          let closed : ends_with (q ++ slash ∷ r) slash ≡ false =
            ap (λ t. ends_with t slash) (sym cut) ∙ ends_with-trim_end_matches id.path slash in
          inr (
            record { path = take (suc i) trimmed ++ slash ∷ [] },
            rw e refl,
            sym (levels-trim id.path)
                ∙ ap levels cut
                ∙ last_level q r closed (rfind_last trimmed slash i e)
                ∙ (omega (arith, above)),
            (q, r, cut, doubled),
          )
    ]

-- What is above the parent is above the identifier.
IsAbove-trans : (id p a : ResourceIdentifier) → IsAbove id p → IsAbove p a → IsAbove id a
IsAbove-trans id p a (q, r, cut, doubled) (q', r', cut', doubled') =
    let shorter = ap (λ t. trim_end_matches t slash) doubled ∙ trim-doubled q in
    let (n, e) = trim_end_matches_suffix q slash in
    let tail = replicate n slash ++ slash ∷ r in
    (
      q',
      r' ++ tail,
      cut
          ∙ ap (λ t. t ++ slash ∷ r) e
          ∙ append_assoc (trim_end_matches q slash) (replicate n slash) (slash ∷ r)
          ∙ ap (λ t. t ++ tail) (sym shorter ∙ cut')
          ∙ append_assoc q' (slash ∷ r') tail,
      doubled',
    )

-- The n-th container above an identifier: count the slashes in its path that are followed by
-- a character other than a slash. If n is above their number there is none. Else there is one, which
-- has n such slashes less and is, unless n is 0, the identifier cut before one of its slashes, with
-- two slashes added.
pub climb_lem :
    (n : ℕ) (id : ResourceIdentifier)
    → ((climb n id ≡ none) × (levels id.path < n))
      ⊎ ((a : ResourceIdentifier) × (climb n id ≡ some a)
          × (levels id.path ≡ levels a.path + n)
          × (((n ≡ 0) × (a ≡ id)) ⊎ IsAbove id a))
unfolding climb Option.bind
climb_lem zero id = inr (id, refl, omega arith, inl (refl, refl))
climb_lem (suc n) id = elim (parent-cases id) [
  | inl (e, flat) ↦ inl (rw e refl, omega (arith, flat))
  | inr (p, e, level, above) ↦ elim (climb_lem n p) [
    | inl (ends, less) ↦ inl (rw e ends, omega (arith, less, level))
    | inr (a, climbed, left, inl (start, same)) ↦
        inr (a, rw e climbed, omega (arith, left, level), inr (rw same above))
    | inr (a, climbed, left, inr above') ↦
        inr (a, rw e climbed, omega (arith, left, level), inr (IsAbove-trans id p a above above'))
  ]
]
