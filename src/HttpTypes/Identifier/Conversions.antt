-- ===== src/HttpTypes/Identifier/Conversions.antt =====
-- http-types/src/identifier.rs: the traits of identifiers, to and from text, and their order. Strings
-- are compared by their bytes, which is the order of their characters.
use Prim.Native.Nat.{Ordering, compare}
use solid_community_rs.Prelude.{◌≡◌, ◌↔◌, refl, ap, ◌∙◌, [], ◌∷◌, Option, some, arith, Text}
use solid_community_rs.HttpTypes.Identifier.{ResourceIdentifier}

unfoldable pub new : Text → ResourceIdentifier
new path = record { path = path }

-- `Display`, `AsRef<str>` and `From<ResourceIdentifier> for String`
unfoldable pub to_string : ResourceIdentifier → Text
to_string id = id.path

-- `FromStr`, which never fails
unfoldable pub from_str : Text → Option ResourceIdentifier
unfolding new
from_str s = some (new s)

-- `TryFrom<Url>`, which never fails; `as_str` is of the crate url.
unfoldable pub try_from_url : {Url : Type 0} → (Url → Text) → Url → Option ResourceIdentifier
unfolding new
try_from_url as_str url = some (new (as_str url))

-- The first difference decides.
abbrev pub then_with : Ordering → Ordering → Ordering
then_with Ordering.eq o = o
then_with Ordering.lt o = Ordering.lt
then_with Ordering.gt o = Ordering.gt

unfoldable pub compare_text : Text → Text → Ordering
compare_text [] [] = Ordering.eq
compare_text [] (y ∷ t) = Ordering.lt
compare_text (x ∷ s) [] = Ordering.gt
compare_text (x ∷ s) (y ∷ t) = then_with (compare x y) (compare_text s t)

-- `Ord`
unfoldable pub cmp : ResourceIdentifier → ResourceIdentifier → Ordering
unfolding compare_text
cmp id other = compare_text id.path other.path

-- `PartialOrd`
unfoldable pub partial_cmp : ResourceIdentifier → ResourceIdentifier → Option Ordering
unfolding cmp
partial_cmp id other = some (cmp id other)

compare_same : (s : Text) → compare_text s s ≡ Ordering.eq
unfolding compare_text
compare_same [] = refl
compare_same (x ∷ s) = ground (arith, compare_same s)

compare_equal : (s t : Text) → compare_text s t ≡ Ordering.eq → s ≡ t
unfolding compare_text
compare_equal [] [] h = refl
compare_equal [] (y ∷ t) h = cc h
compare_equal (x ∷ s) [] h = cc h
compare_equal (x ∷ s) (y ∷ t) h = ground (arith, compare_equal s t)

compare_flip : (s t : Text) → (compare_text s t ≡ Ordering.lt) ↔ (compare_text t s ≡ Ordering.gt)
unfolding compare_text
compare_flip [] [] = ((λ h. cc h), (λ h. cc h))
compare_flip [] (y ∷ t) = ((λ h. refl), (λ h. refl))
compare_flip (x ∷ s) [] = ((λ h. cc h), (λ h. cc h))
compare_flip (x ∷ s) (y ∷ t) = ground (arith, compare_flip s t)

compare_trans :
    (s t u : Text)
    → compare_text s t ≡ Ordering.lt
    → compare_text t u ≡ Ordering.lt
    → compare_text s u ≡ Ordering.lt
unfolding compare_text
compare_trans [] [] [] h k = cc h
compare_trans [] (y ∷ t) [] h k = cc k
compare_trans [] t (z ∷ u) h k = refl
compare_trans (x ∷ s) [] u h k = cc h
compare_trans (x ∷ s) (y ∷ t) [] h k = cc k
compare_trans (x ∷ s) (y ∷ t) (z ∷ u) h k = ground (arith, compare_trans s t u)

-- The order of identifiers is total and agrees with their equality: it is `Equal` for the same
-- identifier only, it turns around with its sides, and less than less is less.
cmp_order :
    (a b c : ResourceIdentifier)
    → ((cmp a b ≡ Ordering.eq) ↔ (a ≡ b))
      × ((cmp a b ≡ Ordering.lt) ↔ (cmp b a ≡ Ordering.gt))
      × (cmp a b ≡ Ordering.lt → cmp b c ≡ Ordering.lt → cmp a c ≡ Ordering.lt)
unfolding cmp
cmp_order a b c = (
  (
    λ h. ap (λ p. record { path = p }) (compare_equal a.path b.path h),
    λ h. ap (λ (id : ResourceIdentifier). compare_text id.path b.path) h ∙ compare_same b.path,
  ),
  compare_flip a.path b.path,
  λ h k. compare_trans a.path b.path c.path h k,
)
