-- ===== src/HttpTypes/Preferences/Wildcards.antt =====
-- When the preferences of a header accept any type.
use solid_community_rs.Prelude.{
  ◌≡◌, refl, sym, ap, ◌∙◌, true, ◌&&◌, List, [], ◌∷◌, arith, Text, ◌↔◌, and-eq-true_iff,
  text_eq_iff, All,
}
use solid_community_rs.Prelude.Split.{split}
use solid_community_rs.HttpTypes.Preferences.{
  Floats, MediaRange, ranges, insert, sort_by_weight, from_accept_header, is_wildcard,
  all_wildcards, any_type, accepts_any,
}

module _ {F : Type 0} (floats : Floats F) where
  all_wildcards-insert :
      (x : MediaRange F) (ys : List (MediaRange F))
      → all_wildcards (insert floats x ys) ≡ (is_wildcard x && all_wildcards ys)
  unfolding insert all_wildcards
  all_wildcards-insert x [] = refl
  all_wildcards-insert x (y ∷ ys) = ground (arith, all_wildcards-insert x ys)

  all_wildcards-sort_by_weight :
      (rs : List (MediaRange F)) → all_wildcards (sort_by_weight floats rs) ≡ all_wildcards rs
  unfolding sort_by_weight all_wildcards
  all_wildcards-sort_by_weight [] = refl
  all_wildcards-sort_by_weight (r ∷ rs) =
      all_wildcards-insert r (sort_by_weight floats rs)
      ∙ ap (λ b. is_wildcard r && b) (all_wildcards-sort_by_weight rs)

  all_wildcards_iff :
      (rs : List (MediaRange F)) → (all_wildcards rs ≡ true) ↔ All (λ r. r.media_type ≡ any_type) rs
  unfolding all_wildcards is_wildcard
  all_wildcards_iff [] = (λ _. tt, λ _. refl)
  all_wildcards_iff (r ∷ rs) = (
    λ h.
        let (one, others) = (and-eq-true_iff _ _).0 h in
        ((text_eq_iff _ _).0 one, (all_wildcards_iff rs).0 others),
    λ a. (and-eq-true_iff _ _).1 ((text_eq_iff _ _).1 a.0, (all_wildcards_iff rs).1 a.1),
  )

  -- The preferences of a header accept any type exactly if each of its ranges is `*/*`, whatever
  -- the weights are.
  accepts_any_iff :
      (value : Text)
      → (accepts_any (from_accept_header floats value) ≡ true)
        ↔ All (λ r. r.media_type ≡ any_type) (ranges floats (split value b','))
  unfolding accepts_any from_accept_header
  accepts_any_iff value =
      let rs = ranges floats (split value b',') in
      (
        λ h. (all_wildcards_iff rs).0 (sym (all_wildcards-sort_by_weight rs) ∙ h),
        λ a. all_wildcards-sort_by_weight rs ∙ (all_wildcards_iff rs).1 a,
      )
