-- ===== src/StaticAssets/Tests.antt =====
-- The theorems on static assets at two entries, one below the other.
use solid_community_rs.Prelude.{
  ◌≡◌, refl, [], ◌∷◌, ◌++◌, none, Text, text, false, starts_with, ends_with, trim_start_matches,
  Any,
}
use solid_community_rs.Prelude.Split.{split, contains, utf8, utf8_char}
use solid_community_rs.StaticAssets.{
  StaticAssetEntry, StaticAssetHandler, asset, longest, longest_from, best, join, resolve,
}
use solid_community_rs.StaticAssets.Resolution.{Outcome, resolve_lem, resolve_stays_below}

abbrev assets : StaticAssetEntry
assets = record { url_path = text "/assets/"; fs_path = text "/srv/assets" }

abbrev styles : StaticAssetEntry
styles = record { url_path = text "/assets/styles"; fs_path = text "/srv/css/" }

abbrev handler : StaticAssetHandler
handler = record { entries = styles ∷ assets ∷ []; expires = none }

abbrev mime : Text → Text
mime _ = text "text/css"

abbrev url : Text
url = text "/assets/styles/main.css?v=2"

resolve_lem_example : Outcome mime handler url (resolve mime handler url)
resolve_lem_example = resolve_lem mime handler url

main_css : resolve mime handler url ≡ asset (text "/srv/css/main.css") (text "text/css")
unfolding resolve best longest longest_from join split contains starts_with ends_with
    trim_start_matches utf8 utf8_char
main_css = refl

resolve_stays_below_example :
    (e : StaticAssetEntry) × (r : Text) × Any (λ f. f ≡ e) handler.entries
    × (text "/srv/css/main.css" ≡ e.fs_path ++ r)
    × (contains r (text "..") ≡ false)
resolve_stays_below_example =
    resolve_stays_below mime handler url (text "/srv/css/main.css") (text "text/css") main_css
