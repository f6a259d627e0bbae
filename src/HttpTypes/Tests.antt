-- ===== src/HttpTypes/Tests.antt =====
-- The theorems on http-types at concrete values.
use solid_community_rs.Prelude.{
  none, ◌+◌, ◌<◌, ◌⊎◌, ◌≡◌, refl, false, [], ◌∷◌, some, text, ends_with, trim_end_matches, ℕ, ◌*◌,
  ◌≤◌, count, length,
}
use solid_community_rs.HttpTypes.Error
use solid_community_rs.HttpTypes.Error.{SolidError, status_code, is_client_error, is_server_error}
use solid_community_rs.HttpTypes.Metadata.{LinkHeader, link, with_param, to_string}
use solid_community_rs.HttpTypes.Metadata.Links.{IsDelimited, to_string_injective}
use solid_community_rs.HttpTypes.Representation.{from_text, content_type, from_text_bounds}
use solid_community_rs.HttpTypes.Identifier.{ResourceIdentifier, is_container, parent}
use solid_community_rs.HttpTypes.Identifier.Climb.{climb, levels, IsAbove, climb_lem}

abbrev missing : SolidError
missing = Error.not_found (text "/a")

abbrev foo : ResourceIdentifier
foo = record { path = text "http://a.org/foo" }

foo_is_document : is_container foo ≡ false
unfolding is_container ends_with
foo_is_document = refl

-- The parent that the code gives, with two slashes at its end.
abbrev doubled : ResourceIdentifier
doubled = record { path = text "http://a.org//" }

foo_above : parent foo ≡ some doubled
unfolding parent trim_end_matches
foo_above = refl

from_text_bounds_example :
    let r = from_text (text "héé") (text "text/plain") in
    (n : ℕ) × (r.metadata.content_length ≡ some n)
    × (n ≡ length r.bytes)
    × (length (text "héé") ≤ n)
    × (n ≤ 4 * length (text "héé"))
    × (content_type r ≡ some (text "text/plain"))
from_text_bounds_example = from_text_bounds (text "héé") (text "text/plain")

abbrev acl_link : LinkHeader
acl_link = with_param (link (text "http://a.org/.acl") (text "acl")) (text "title=x")

acl_link-IsDelimited : IsDelimited acl_link
unfolding with_param link count
acl_link-IsDelimited = record {
  target_closed = refl;
  rel_closed = refl;
  params_closed = (refl, tt);
}

abbrev written_out : LinkHeader
written_out = record {
  target = text "http://a.org/.acl";
  rel = text "acl";
  params = text "title=x" ∷ [];
}

written_out-IsDelimited : IsDelimited written_out
unfolding count
written_out-IsDelimited = record {
  target_closed = refl;
  rel_closed = refl;
  params_closed = (refl, tt);
}

same_text : to_string acl_link ≡ to_string written_out
unfolding to_string with_param link
same_text = refl

to_string_injective_example : acl_link ≡ written_out
to_string_injective_example =
    to_string_injective acl_link written_out acl_link-IsDelimited written_out-IsDelimited same_text

abbrev two : ℕ
two = 2

climb_lem_example :
    ((climb two foo ≡ none) × (levels foo.path < two))
    ⊎ ((a : ResourceIdentifier) × (climb two foo ≡ some a)
        × (levels foo.path ≡ levels a.path + two)
        × (((two ≡ 0) × (a ≡ foo)) ⊎ IsAbove foo a))
climb_lem_example = climb_lem two foo

-- The two containers above, and that there is no third.
foo_climbed :
    (levels foo.path ≡ 2)
    × (climb 2 foo ≡ some (record { path = text "http:///" }))
    × (climb 3 foo ≡ none)
unfolding levels climb parent trim_end_matches
foo_climbed = (refl, refl, refl)

-- The root of a server has a parent too, the text of its scheme with three slashes, and that has none.
root_climbs :
    (parent (record { path = text "http://localhost/" }) ≡ some (record { path = text "http:///" }))
    × (parent (record { path = text "http:///" }) ≡ none)
unfolding parent trim_end_matches
root_climbs = (refl, refl)
