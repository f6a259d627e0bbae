-- ===== src/HttpTypes/Preferences.antt =====
-- http-types/src/operation.rs, content preferences: media ranges with their weights, and how an
-- `Accept` header is read. The record `Floats` stands for `f32`.
pub mod Order
pub mod Wildcards
mod Tests
use solid_community_rs.Prelude.{
  ℕ, ◌+◌, Bool, true, false, not, ◌&&◌, ◌||◌, List, [], ◌∷◌, Option, none, some, map, Text, text,
  text_eq, is_empty, is_some, unwrap_or, leb, if◌then◌else◌,
}
use solid_community_rs.Prelude.Split.{split, splitn, trim, strip_prefix, strip_suffix}

-- `less` is `<`; `clamp` is the clamping to the range from 0 to 1.
pub record Floats (F : Type 0) : Type 0 where
  pub parse : Text → Option F
  pub clamp : F → F
  pub one : F
  pub less : F → F → Bool

pub record MediaRange (F : Type 0) : Type 0 where
  pub media_type : Text
  pub q : F

abbrev pub any_type : Text
any_type = text "*/*"

-- `str::to_ascii_lowercase`
abbrev pub lower : ℕ → ℕ
lower c = if leb b'A' c && leb c b'Z' then c + 32 else c

abbrev pub to_ascii_lowercase : Text → Text
to_ascii_lowercase s = map lower s

unfoldable pub is_wildcard : {F : Type 0} → MediaRange F → Bool
unfolding text_eq
is_wildcard r = text_eq r.media_type any_type

unfoldable pub is_subtype_wildcard : {F : Type 0} → MediaRange F → Bool
unfolding text_eq strip_suffix
is_subtype_wildcard r =
    is_some (strip_suffix r.media_type (text "/*")) && not (text_eq r.media_type any_type)

-- `type_preferences`
pub record ContentPreferences (F : Type 0) : Type 0 where
  pub type_preferences : List (MediaRange F)

-- An empty list is covered by `all`, too.
unfoldable pub all_wildcards : {F : Type 0} → List (MediaRange F) → Bool
unfolding is_wildcard
all_wildcards [] = true
all_wildcards (r ∷ rs) = is_wildcard r && all_wildcards rs

abbrev pub first_type : {F : Type 0} → List (MediaRange F) → Option Text
first_type [] = none
first_type (r ∷ rs) = some r.media_type

unfoldable pub accepts_any : {F : Type 0} → ContentPreferences F → Bool
unfolding all_wildcards
accepts_any p = all_wildcards p.type_preferences

unfoldable pub most_preferred : {F : Type 0} → ContentPreferences F → Option Text
most_preferred p = first_type p.type_preferences

module _ {F : Type 0} (floats : Floats F) where
  unfoldable pub new : Text → F → MediaRange F
  new media_type q = record { media_type = media_type; q = floats.clamp q }

  unfoldable pub wildcard : MediaRange F
  unfolding new
  wildcard = new any_type floats.one

  -- `find_map` over the parameters: the first that begins with `q=`, without that.
  unfoldable pub find_weight : List Text → Option Text
  unfolding trim strip_prefix
  find_weight [] = none
  find_weight (p ∷ ps) =
      let later = find_weight ps in
      let stripped = strip_prefix (trim p) (text "q=") in
      if is_some stripped then stripped else later

  -- A weight that is missing or no number is 1.
  abbrev pub weight_of : Option Text → F
  weight_of none = floats.one
  weight_of (some v) = unwrap_or (floats.parse v) floats.one

  -- The pieces of `splitn(2, ';')`.
  abbrev pub weight : List Text → F
  weight (media_type ∷ params ∷ _) = weight_of (find_weight (split params b';'))
  weight _ = floats.one

  abbrev pub first : List Text → Text
  first [] = []
  first (t ∷ ts) = t

  -- The closure of `filter_map`, on the pieces of a part.
  abbrev pub range_of : List Text → Option (MediaRange F)
  range_of pieces =
      let media_type = to_ascii_lowercase (trim (first pieces)) in
      if is_empty media_type then none else some (new media_type (weight pieces))

  abbrev pub push_range : Option (MediaRange F) → List (MediaRange F) → List (MediaRange F)
  push_range none rs = rs
  push_range (some r) rs = r ∷ rs

  unfoldable pub ranges : List Text → List (MediaRange F)
  unfolding new find_weight trim split splitn
  ranges [] = []
  ranges (part ∷ parts) = push_range (range_of (splitn 2 part b';')) (ranges parts)

  -- `sort_by` of the standard library is stable: a range goes before all that stood behind it,
  -- save those that the comparison puts first.
  unfoldable pub insert : MediaRange F → List (MediaRange F) → List (MediaRange F)
  insert x [] = x ∷ []
  insert x (y ∷ ys) = let rest = insert x ys in if floats.less x.q y.q then y ∷ rest else x ∷ y ∷ ys

  unfoldable pub sort_by_weight : List (MediaRange F) → List (MediaRange F)
  unfolding insert
  sort_by_weight [] = []
  sort_by_weight (x ∷ xs) = insert x (sort_by_weight xs)

  unfoldable pub from_accept_header : Text → ContentPreferences F
  unfolding ranges sort_by_weight split
  from_accept_header value = record {
    type_preferences = sort_by_weight (ranges (split value b','));
  }
