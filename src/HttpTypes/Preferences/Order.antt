-- ===== src/HttpTypes/Preferences/Order.antt =====
-- The order of the media ranges of an `Accept` header: by weight, the greatest first, and ranges of
-- the same weight as in the header.
use solid_community_rs.Prelude.{
  ◌≡◌, refl, sym, ap, ◌∙◌, Bool, true, false, not, ◌&&◌, List, [], ◌∷◌, ◌++◌, Option, none, some,
  inl, inr, arith, Text, filter, Bool-cases, All, if◌then◌else◌,
}
use solid_community_rs.Prelude.Split.{split}
use solid_community_rs.HttpTypes.Preferences.{
  Floats, MediaRange, ranges, insert, sort_by_weight, from_accept_header, first_type,
  most_preferred,
}

-- What `<` on floats promises: it is transitive, and so is its negation past a number, any value
-- but NaN.
pub record IsOrder {F : Type 0} (floats : Floats F) (is_number : F → Bool) : Type 0 where
  pub less_irrefl : (a : F) → floats.less a a ≡ false
  pub less_trans :
      (a b c : F) → floats.less a b ≡ true → floats.less b c ≡ true → floats.less a c ≡ true
  pub unless_trans :
      (a b c : F)
      → is_number b ≡ true
      → floats.less a b ≡ false
      → floats.less b c ≡ false
      → floats.less a c ≡ false

module _ {F : Type 0} (floats : Floats F) where
  -- The range stands at its place: those before it have less weight, those behind it no more.
  pub record IsFirstGreatest (rs : List (MediaRange F)) (r : MediaRange F) : Type 0 where
    pub before : List (MediaRange F)
    pub behind : List (MediaRange F)
    pub split_at : rs ≡ before ++ r ∷ behind
    pub lighter : All (λ x. floats.less x.q r.q ≡ true) before
    pub no_heavier : All (λ x. floats.less r.q x.q ≡ false) behind

  -- The weights of the ranges are numbers.
  abbrev pub Numbers : (F → Bool) → List (MediaRange F) → Type 0
  Numbers is_number rs = All (λ r. is_number r.q ≡ true) rs

  -- The type is that of a first greatest range, or there is no range.
  abbrev pub IsMostPreferred : List (MediaRange F) → Option Text → Type 0
  IsMostPreferred rs none = rs ≡ []
  IsMostPreferred rs (some t) = (r : MediaRange F) × IsFirstGreatest rs r × (r.media_type ≡ t)

  -- Every range has no less weight than those behind it.
  abbrev pub Descending : List (MediaRange F) → Type 0
  Descending [] = Unit
  Descending (r ∷ rs) = All (λ x. floats.less r.q x.q ≡ false) rs × Descending rs

  -- Whether a range has the weight `w`.
  abbrev pub weighs : F → MediaRange F → Bool
  weighs w r = not (floats.less w r.q) && not (floats.less r.q w)

  module _ (is_number : F → Bool) (order : IsOrder floats is_number) where
    less_asym : (a b : F) → floats.less a b ≡ true → floats.less b a ≡ false
    less_asym a b h = elim (Bool-cases (floats.less b a)) [
      | inr e ↦ e
      | inl back ↦ cc (sym (order.less_trans a b a h back) ∙ order.less_irrefl a)
    ]

    All-insert :
        (P : MediaRange F → Type 0) (x : MediaRange F) (ys : List (MediaRange F))
        → P x
        → All P ys
        → All P (insert floats x ys)
    unfolding insert
    All-insert P x [] px ps = (px, tt)
    All-insert P x (y ∷ ys) px ps = elim (Bool-cases (floats.less x.q y.q)) [
      | inl e ↦ rw e (ps.0, All-insert P x ys px ps.1)
      | inr e ↦ rw e (px, ps)
    ]

    All-sort_by_weight :
        (P : MediaRange F → Type 0) (rs : List (MediaRange F))
        → All P rs
        → All P (sort_by_weight floats rs)
    unfolding sort_by_weight
    All-sort_by_weight P [] ps = tt
    All-sort_by_weight P (r ∷ rs) ps =
        All-insert P r (sort_by_weight floats rs) ps.0 (All-sort_by_weight P rs ps.1)

    no_heavier_than :
        (x y : MediaRange F) (zs : List (MediaRange F))
        → is_number y.q ≡ true
        → floats.less x.q y.q ≡ false
        → All (λ z. floats.less y.q z.q ≡ false) zs
        → All (λ z. floats.less x.q z.q ≡ false) zs
    no_heavier_than x y [] n h zs = tt
    no_heavier_than x y (z ∷ l) n h zs =
        (order.unless_trans x.q y.q z.q n h zs.0, no_heavier_than x y l n h zs.1)

    insert-Descending :
        (x : MediaRange F) (ys : List (MediaRange F))
        → Numbers is_number ys
        → Descending ys
        → Descending (insert floats x ys)
    unfolding insert
    insert-Descending x [] n d = (tt, tt)
    insert-Descending x (y ∷ ys) n d = elim (Bool-cases (floats.less x.q y.q)) [
      | inl e ↦ rw e (
        All-insert (λ z. floats.less y.q z.q ≡ false) x ys (less_asym x.q y.q e) d.0,
        insert-Descending x ys n.1 d.1,
      )
      | inr e ↦ rw e ((e, no_heavier_than x y ys n.0 e d.0), d)
    ]

    sort_by_weight-Descending :
        (rs : List (MediaRange F)) → Numbers is_number rs → Descending (sort_by_weight floats rs)
    unfolding sort_by_weight
    sort_by_weight-Descending [] n = tt
    sort_by_weight-Descending (r ∷ rs) n =
        insert-Descending r (sort_by_weight floats rs)
          (All-sort_by_weight (λ z. is_number z.q ≡ true) rs n.1) (sort_by_weight-Descending rs n.1)

    not_both :
        (w a b : F)
        → is_number w ≡ true
        → floats.less a b ≡ true
        → floats.less a w ≡ false
        → floats.less w b ≡ true
    not_both w a b n h e = elim (Bool-cases (floats.less w b)) [
      | inl g ↦ g
      | inr g ↦ cc (sym (order.unless_trans a w b n e g) ∙ h)
    ]

    filter-insert :
        (w : F) (x : MediaRange F) (ys : List (MediaRange F))
        → is_number w ≡ true
        → filter (weighs w) (insert floats x ys) ≡ filter (weighs w) (x ∷ ys)
    unfolding insert
    filter-insert w x [] n = refl
    filter-insert w x (y ∷ ys) n = elim (Bool-cases (floats.less x.q y.q)) [
      | inr e ↦ rw e refl
      | inl e ↦ rw e (ground (arith, filter-insert w x ys n, not_both w x.q y.q n e))
    ]

    filter-sort_by_weight :
        (w : F) (rs : List (MediaRange F))
        → is_number w ≡ true
        → filter (weighs w) (sort_by_weight floats rs) ≡ filter (weighs w) rs
    unfolding sort_by_weight
    filter-sort_by_weight w [] n = refl
    filter-sort_by_weight w (r ∷ rs) n =
        filter-insert w r (sort_by_weight floats rs) n
        ∙ ap (λ l. if weighs w r then r ∷ l else l) (filter-sort_by_weight w rs n)

    -- The preferences of a header whose weights are all numbers: no range has less weight than one
    -- behind it, and the ranges of each weight are those of the header, in their order.
    pub from_accept_header_lem :
        (value : Text)
        → Numbers is_number (ranges floats (split value b','))
        → let sorted = (from_accept_header floats value).type_preferences in
          Descending sorted
          × ((w : F)
              → is_number w ≡ true
              → filter (weighs w) sorted ≡ filter (weighs w) (ranges floats (split value b',')))
    unfolding from_accept_header
    from_accept_header_lem value n = (
      sort_by_weight-Descending (ranges floats (split value b',')) n,
      λ w. filter-sort_by_weight w (ranges floats (split value b',')),
    )

    light_than :
        (x r : MediaRange F) (zs : List (MediaRange F))
        → floats.less x.q r.q ≡ false
        → All (λ z. floats.less z.q r.q ≡ true) zs
        → All (λ z. floats.less x.q z.q ≡ false) zs
    light_than x r [] h zs = tt
    light_than x r (z ∷ l) h zs = (
      (elim (Bool-cases (floats.less x.q z.q)) [
        | inr e ↦ e
        | inl e ↦ cc (sym (order.less_trans x.q z.q r.q e zs.0) ∙ h)
      ]),
      light_than x r l h zs.1,
    )

    All-append :
        (P : MediaRange F → Type 0) (xs ys : List (MediaRange F))
        → All P xs
        → All P ys
        → All P (xs ++ ys)
    All-append P [] ys ps qs = qs
    All-append P (x ∷ xs) ys ps qs = (ps.0, All-append P xs ys ps.1 qs)

    -- The first range of a sorted list is the first greatest.
    Preferred : List (MediaRange F) → List (MediaRange F) → Type 0
    Preferred rs [] = rs ≡ []
    Preferred rs (r ∷ _) = IsFirstGreatest rs r

    Preferred-insert :
        (x : MediaRange F) (rs sorted : List (MediaRange F))
        → Numbers is_number sorted
        → Preferred rs sorted
        → Preferred (x ∷ rs) (insert floats x sorted)
    unfolding insert Preferred
    Preferred-insert x rs [] n p = record {
      before = [];
      behind = rs;
      split_at = refl;
      lighter = tt;
      no_heavier = rw p tt;
    }
    Preferred-insert x rs (y ∷ ys) n p = elim (Bool-cases (floats.less x.q y.q)) [
      | inl e ↦ rw e (record {
        before = x ∷ p.before;
        behind = p.behind;
        split_at = ap (λ l. x ∷ l) p.split_at;
        lighter = (e, p.lighter);
        no_heavier = p.no_heavier;
      })
      | inr e ↦ rw e (record {
        before = [];
        behind = rs;
        split_at = refl;
        lighter = tt;
        no_heavier = rw p.split_at (
            All-append (λ z. floats.less x.q z.q ≡ false) p.before (y ∷ p.behind)
              (light_than x y p.before e p.lighter)
              (e, no_heavier_than x y p.behind n.0 e p.no_heavier));
      })
    ]

    Preferred-sort_by_weight :
        (rs : List (MediaRange F)) → Numbers is_number rs → Preferred rs (sort_by_weight floats rs)
    unfolding sort_by_weight Preferred
    Preferred-sort_by_weight [] n = refl
    Preferred-sort_by_weight (r ∷ rs) n =
        Preferred-insert r rs (sort_by_weight floats rs)
          (All-sort_by_weight (λ z. is_number z.q ≡ true) rs n.1) (Preferred-sort_by_weight rs n.1)

    first_type_lem :
        (rs sorted : List (MediaRange F))
        → Preferred rs sorted
        → IsMostPreferred rs (first_type sorted)
    unfolding Preferred
    first_type_lem rs [] p = p
    first_type_lem rs (r ∷ _) p = (r, p, refl)

    -- The most preferred type of a header whose weights are all numbers is that of the first range
    -- of the header that no other outweighs; there is none exactly if the header has no range.
    pub most_preferred_lem :
        (value : Text)
        → Numbers is_number (ranges floats (split value b','))
        → IsMostPreferred
            (ranges floats (split value b','))
            (most_preferred (from_accept_header floats value))
    unfolding from_accept_header most_preferred
    most_preferred_lem value n =
        first_type_lem _ _ (Preferred-sort_by_weight (ranges floats (split value b',')) n)
