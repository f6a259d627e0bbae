-- ===== src/HttpTypes/Metadata/Links.antt =====
-- A link is told by its text, if no delimiter stands inside its parts.
use solid_community_rs.Prelude.{
  ℕ, ◌≡◌, refl, sym, ap, ◌∙◌, List, [], ◌∷◌, ◌++◌, arith, Text, text, count, All, append-nil,
}
use solid_community_rs.HttpTypes.Metadata.{LinkHeader, to_string, shown_params}

-- The texts up to a delimiter that stands in neither are equal, and so is what follows.
cut_at :
    (c : ℕ) (a b s t : Text)
    → count c a ≡ 0
    → count c b ≡ 0
    → a ++ c ∷ s ≡ b ++ c ∷ t
    → (a ≡ b) × (s ≡ t)
unfolding count
cut_at c [] [] s t na nb e = (refl, ground arith)
cut_at c [] (y ∷ b) s t na nb e = ground arith
cut_at c (x ∷ a) [] s t na nb e = ground arith
cut_at c (x ∷ a) (y ∷ b) s t na nb e = ground (arith, cut_at c a b s t)

-- No delimiter of the text of a link stands inside its parts.
pub record IsDelimited (l : LinkHeader) : Type 0 where
  pub target_closed : count b'>' l.target ≡ 0
  pub rel_closed : count b'"' l.rel ≡ 0
  pub params_closed : All (λ p. count b';' p ≡ 0) l.params

not_closed : (c : ℕ) (p q t : Text) → count c p ≡ 0 → p ≡ q ++ c ∷ t → ⊥
unfolding count
not_closed c [] [] t n e = cc e
not_closed c [] (y ∷ q) t n e = cc e
not_closed c (x ∷ p) [] t n e = ground arith
not_closed c (x ∷ p) (y ∷ q) t n e = ground (arith, not_closed c p q t)

param_end :
    (p q : Text) (ps qs : List Text)
    → count b';' p ≡ 0
    → count b';' q ≡ 0
    → p ++ shown_params ps ≡ q ++ shown_params qs
    → (p ≡ q) × (shown_params ps ≡ shown_params qs)
unfolding shown_params
param_end p q [] [] np nq e = (sym (append-nil p) ∙ e ∙ append-nil q, refl)
param_end p q [] (r ∷ qs) np nq e =
    absurd (not_closed b';' p q (b' ' ∷ r ++ shown_params qs) np (sym (append-nil p) ∙ e))
param_end p q (r ∷ ps) [] np nq e =
    absurd (not_closed b';' q p (b' ' ∷ r ++ shown_params ps) nq (sym (append-nil q) ∙ sym e))
param_end p q (r ∷ ps) (t ∷ qs) np nq e =
    let (same, behind) =
      cut_at b';' p q (b' ' ∷ r ++ shown_params ps) (b' ' ∷ t ++ shown_params qs) np nq e in
    (same, ap (λ l. b';' ∷ l) behind)

after_mark : {s t : Text} → b';' ∷ b' ' ∷ s ≡ b';' ∷ b' ' ∷ t → s ≡ t
after_mark h = cc h

shown_params_injective :
    (ps qs : List Text)
    → All (λ p. count b';' p ≡ 0) ps
    → All (λ p. count b';' p ≡ 0) qs
    → shown_params ps ≡ shown_params qs
    → ps ≡ qs
unfolding shown_params
shown_params_injective [] [] a b e = refl
shown_params_injective [] (q ∷ qs) a b e = cc e
shown_params_injective (p ∷ ps) [] a b e = cc e
shown_params_injective (p ∷ ps) (q ∷ qs) a b e =
    let (one, others) = param_end p q ps qs a.0 b.0 (after_mark e) in
    cc (one, shown_params_injective ps qs a.1 b.1 others)

abbrev rel_mark : Text
rel_mark = text "; rel=\""

after_rel_mark : {s t : Text} → rel_mark ++ s ≡ rel_mark ++ t → s ≡ t
after_rel_mark h = cc h

after_bracket : {s t : Text} → b'<' ∷ s ≡ b'<' ∷ t → s ≡ t
after_bracket h = cc h

-- What follows the target.
abbrev behind_target : LinkHeader → Text
behind_target l = rel_mark ++ (l.rel ++ b'"' ∷ shown_params l.params)

-- Two links with the same text are the same link, if no target holds `>`, no relation `"` and no
-- parameter `;`.
pub to_string_injective :
    (l m : LinkHeader) → IsDelimited l → IsDelimited m → to_string l ≡ to_string m → l ≡ m
unfolding to_string
to_string_injective l m dl dm e =
    let (targets, rest) =
      cut_at b'>' l.target m.target (behind_target l) (behind_target m) dl.target_closed
        dm.target_closed (after_bracket e) in
    let (rels, params) =
      cut_at b'"' l.rel m.rel (shown_params l.params) (shown_params m.params) dl.rel_closed
        dm.rel_closed (after_rel_mark rest) in
    let same = shown_params_injective l.params m.params dl.params_closed dm.params_closed params in
    cc (targets, rels, same)
