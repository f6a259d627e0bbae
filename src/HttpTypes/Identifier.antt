-- ===== src/HttpTypes/Identifier.antt =====
-- http-types/src/identifier.rs: identifiers of resources.
pub mod Laws
pub mod Climb
pub mod Conversions
use solid_community_rs.Prelude.{
  ℕ, suc, Bool, List, [], ◌∷◌, ◌++◌, Option, none, some, Text, slash, starts_with, ends_with,
  trim_end_matches, trim_start_matches, take, if◌then◌else◌,
}
use mathlib.Core.Option
use solid_community_rs.Prelude.Split.{rfind}

pub record ResourceIdentifier : Type 0 where
  pub path : Text

unfoldable pub is_container : ResourceIdentifier → Bool
is_container id = ends_with id.path slash

unfoldable pub as_container : ResourceIdentifier → ResourceIdentifier
unfolding is_container
as_container id = if is_container id then id else record { path = id.path ++ slash ∷ [] }

unfoldable pub as_document : ResourceIdentifier → ResourceIdentifier
as_document id = record { path = trim_end_matches id.path slash }

-- `self.path.find(start)`, and what stands from there on
unfoldable pub from_first : Text → Text → Option Text
from_first [] start = if starts_with [] start then some [] else none
from_first (c ∷ s) start =
    let later = from_first s start in if starts_with (c ∷ s) start then some (c ∷ s) else later

abbrev pub or_whole : Text → Option Text → Text
or_whole s none = s
or_whole s (some t) = t

-- `url_path` is the path of the parsed URL, nothing if the text is no URL (the crate url).
unfoldable pub path_only : (Text → Option Text) → ResourceIdentifier → Text
unfolding from_first Option.bind
path_only url_path id =
    if starts_with id.path (slash ∷ [])
    then id.path
    else or_whole id.path (Option.bind (url_path id.path) (from_first id.path))

-- The last slash of the trimmed path ends the slice, and `format!` adds one more.
unfoldable pub parent : ResourceIdentifier → Option ResourceIdentifier
unfolding rfind Option.bind
parent id =
    let trimmed = trim_end_matches id.path slash in
    Option.bind (rfind trimmed slash)
      (λ pos. some (record { path = take (suc pos) trimmed ++ slash ∷ [] }))

unfoldable pub join : ResourceIdentifier → Text → ResourceIdentifier
unfolding trim_start_matches
join id segment = record {
  path = trim_end_matches id.path slash ++ slash ∷ trim_start_matches segment slash;
}
