-- ===== src/HttpTypes/Preferences/Tests.antt =====
-- The theorems on content preferences at a concrete header, with tenths for weights.
use solid_community_rs.Prelude.{
  ℕ, ◌≡◌, refl, Bool, true, false, List, Option, none, some, arith, Text, text, text_eq, filter,
  is_some, ltb, leb, if◌then◌else◌,
}
use solid_community_rs.Prelude.Split.{split}
use solid_community_rs.HttpTypes.Preferences
use solid_community_rs.HttpTypes.Preferences.{
  Floats, MediaRange, ranges, from_accept_header, accepts_any, most_preferred, any_type,
}
use solid_community_rs.HttpTypes.Preferences.Order.{
  IsOrder, Descending, weighs, Numbers, IsMostPreferred, from_accept_header_lem, most_preferred_lem,
}

-- A weight in tenths; `none` is NaN, which no weight is less or greater than.
abbrev Tenths : Type 0
Tenths = Option ℕ

abbrev less_tenths : Tenths → Tenths → Bool
less_tenths (some a) (some b) = ltb a b
less_tenths _ _ = false

-- The texts `0.d` and `1`, and `NaN`.
abbrev parse_tenths : Text → Option Tenths
parse_tenths t =
    if text_eq t (text "1")
    then some (some 10)
    else if text_eq t (text "0.9")
    then some (some 9)
    else if text_eq t (text "0.1")
    then some (some 1)
    else if text_eq t (text "NaN")
    then some none
    else none

abbrev clamp_tenths : Tenths → Tenths
clamp_tenths none = none
clamp_tenths (some n) = some (if leb n 10 then n else 10)

abbrev tenths : Floats Tenths
tenths = record { parse = parse_tenths; clamp = clamp_tenths; one = some 10; less = less_tenths }

less_irrefl : (a : Tenths) → less_tenths a a ≡ false
less_irrefl none = refl
less_irrefl (some n) = ground arith

less_trans :
    (a b c : Tenths) → less_tenths a b ≡ true → less_tenths b c ≡ true → less_tenths a c ≡ true
less_trans none b c h k = cc h
less_trans (some a) none c h k = cc h
less_trans (some a) (some b) none h k = cc k
less_trans (some a) (some b) (some c) h k = ground arith

unless_trans :
    (a b c : Tenths)
    → is_some b ≡ true
    → less_tenths a b ≡ false
    → less_tenths b c ≡ false
    → less_tenths a c ≡ false
unless_trans none b c n h k = refl
unless_trans (some a) none c n h k = cc n
unless_trans (some a) (some b) none n h k = refl
unless_trans (some a) (some b) (some c) n h k = ground arith

tenths-IsOrder : IsOrder tenths is_some
tenths-IsOrder = record {
  less_irrefl = less_irrefl;
  less_trans = less_trans;
  unless_trans = unless_trans;
}

abbrev accept : Text
accept = text "text/turtle;q=0.9, application/LD+json, */*;q=0.1"

abbrev header_ranges : List (MediaRange Tenths)
header_ranges = ranges tenths (split accept b',')

header-Numbers : Numbers tenths is_some header_ranges
unfolding ranges split Preferences.new Preferences.find_weight text_eq
header-Numbers = (refl, (refl, (refl, tt)))

from_accept_header_lem_example :
    let sorted = (from_accept_header tenths accept).type_preferences in
    Descending tenths sorted
    × ((w : Tenths)
        → is_some w ≡ true
        → filter (weighs tenths w) sorted
          ≡ filter (weighs tenths w) (ranges tenths (split accept b',')))
from_accept_header_lem_example =
    from_accept_header_lem tenths is_some tenths-IsOrder accept header-Numbers

most_preferred_lem_example :
    IsMostPreferred tenths
      (ranges tenths (split accept b','))
      (most_preferred (from_accept_header tenths accept))
most_preferred_lem_example = most_preferred_lem tenths is_some tenths-IsOrder accept header-Numbers

json_first : most_preferred (from_accept_header tenths accept) ≡ some (text "application/ld+json")
unfolding most_preferred from_accept_header ranges split Preferences.new Preferences.find_weight
    text_eq
json_first = refl
