-- ===== src/StaticAssets.antt =====
-- static-assets/src/entry.rs and static-assets/src/handler.rs: from the path of a URL to the path of
-- a file. Paths are texts with the separator `/`; the guess of a MIME type is the parameter `mime`.
pub mod Resolution
mod Tests
use solid_community_rs.Prelude.{
  ℕ, Bool, true, false, List, [], ◌∷◌, ◌++◌, Option, none, some, Text, text, slash, length, drop,
  filter, ltb, starts_with, ends_with, trim_start_matches, is_empty, if◌then◌else◌,
}
use solid_community_rs.Prelude.Split.{split, first_piece, contains, utf8}
use solid_community_rs.HttpTypes.Error
use solid_community_rs.HttpTypes.Error.{SolidError}

pub record StaticAssetEntry : Type 0 where
  pub url_path : Text
  pub fs_path : Text

pub record StaticAssetHandler : Type 0 where
  pub entries : List StaticAssetEntry
  pub expires : Option ℕ

unfoldable pub cache_max_age : StaticAssetHandler → Option ℕ
cache_max_age h = h.expires

-- `url_path.len()`, in bytes
abbrev pub url_length : StaticAssetEntry → ℕ
url_length e = length (utf8 e.url_path)

-- `max_by_key`, which gives the last of the greatest.
unfoldable pub longest_from : StaticAssetEntry → List StaticAssetEntry → StaticAssetEntry
longest_from e [] = e
longest_from e (f ∷ fs) = longest_from (if ltb (url_length f) (url_length e) then e else f) fs

unfoldable pub longest : List StaticAssetEntry → Option StaticAssetEntry
unfolding longest_from
longest [] = none
longest (e ∷ es) = some (longest_from e es)

unfoldable pub best : Text → List StaticAssetEntry → Option StaticAssetEntry
unfolding longest starts_with
best clean entries = longest (filter (λ e. starts_with clean e.url_path) entries)

-- `Path::join` of a path that is not absolute.
unfoldable pub join : Text → Text → Text
join base relative =
    if is_empty base
    then relative
    else if ends_with base slash
    then base ++ relative
    else base ++ slash ∷ relative

pub data Resolved : Type 0 where
  asset : Text → Text → Resolved
  failure : SolidError → Resolved

abbrev pub no_asset : Text → Resolved
no_asset url_path = failure (Error.not_found (text "No static asset at " ++ url_path))

abbrev pub with_mime : (Text → Text) → Text → Resolved
with_mime mime fs_path = asset fs_path (mime fs_path)

-- The rest of `resolve` for the entry that was found, on what follows its prefix.
abbrev pub resolve_suffix : (Text → Text) → Text → Text → Text → Resolved
resolve_suffix mime url_path fs_path suffix =
    if contains suffix (text "..")
    then no_asset url_path
    else with_mime mime (join fs_path (trim_start_matches suffix slash))

abbrev pub resolve_best : (Text → Text) → Text → Text → Option StaticAssetEntry → Resolved
resolve_best mime url_path clean none = no_asset url_path
resolve_best mime url_path clean (some e) =
    resolve_suffix mime url_path e.fs_path (drop (length e.url_path) clean)

-- `url_path.split('?').next()`
abbrev pub clean : Text → Text
clean url_path = first_piece (split url_path b'?')

unfoldable pub resolve : (Text → Text) → StaticAssetHandler → Text → Resolved
unfolding split contains best join
resolve mime h url_path =
    resolve_best mime url_path (clean url_path) (best (clean url_path) h.entries)

-- What reading a file gives.
pub data FileRead : Type 0 where
  content : List ℕ → FileRead
  not_there : FileRead
  unreadable : Text → FileRead

pub data Served : Type 0 where
  served : List ℕ → Text → Served
  refused : SolidError → Served

abbrev pub serve_read : Text → Text → FileRead → Served
serve_read fs_path mime (content bytes) = served bytes mime
serve_read fs_path mime not_there = refused (Error.not_found fs_path)
serve_read fs_path mime (unreadable e) = refused (Error.internal e)

abbrev pub serve_resolved : (Text → FileRead) → Resolved → Served
serve_resolved read (asset fs_path mime) = serve_read fs_path mime (read fs_path)
serve_resolved read (failure e) = refused e

unfoldable pub serve : (Text → Text) → (Text → FileRead) → StaticAssetHandler → Text → Served
unfolding resolve
serve mime read h url_path = serve_resolved read (resolve mime h url_path)
