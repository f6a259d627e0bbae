-- ===== src/ServerCore/Http.antt =====
-- Requests and responses as the handlers of server-core see them. The crates axum and http are not
-- part of the sources: what the handlers ask of a header value is the record `HeaderValues`.
use solid_community_rs.Prelude.{
  ℕ, ◌≡◌, Bool, true, List, [], ◌∷◌, ◌++◌, Option, none, some, Text, text, text_eq, text_eq_iff,
  arith, if◌then◌else◌,
}

-- `HeaderValue::to_str` and the test that a builder makes of a value. What `to_str` reads may be
-- written again, and the two content types that the sources spell out are valid values.
pub record HeaderValues : Type 0 where
  pub to_str : Text → Option Text
  pub is_valid : Text → Bool
  pub to_str_valid : (v t : Text) → to_str v ≡ some t → is_valid t ≡ true
  pub turtle_valid : is_valid (text "text/turtle") ≡ true
  pub octets_valid : is_valid (text "application/octet-stream") ≡ true

-- `wildcard` is what the router extracts from the path, decoded, or nothing on the route `/`;
-- `headers` gives the first value of a header; `body` is nothing if reading it fails.
pub record Request : Type 0 where
  pub method : Text
  pub path : Text
  pub wildcard : Option Text
  pub headers : Text → Option Text
  pub body : Option (List ℕ)

abbrev pub Headers : Type 0
Headers = List (Text × Text)

pub record Response : Type 0 where
  pub status : ℕ
  pub headers : Headers
  pub body : List ℕ

-- The first value of a header.
unfoldable pub header : Text → Headers → Option Text
header name [] = none
header name ((n, v) ∷ hs) = if text_eq n name then some v else header name hs

unfoldable pub remove_header : Text → Headers → Headers
remove_header name [] = []
remove_header name ((n, v) ∷ hs) =
    let rest = remove_header name hs in if text_eq n name then rest else (n, v) ∷ rest

-- `headers.insert(name, value)` takes the place of all values of that name.
unfoldable pub insert_header : Text → Text → Headers → Headers
unfolding remove_header
insert_header name value hs = remove_header name hs ++ (name, value) ∷ []

pub header-insert_header :
    (name other value : Text) (hs : Headers)
    → header other (insert_header name value hs)
      ≡ (if text_eq name other then some value else header other hs)
unfolding header insert_header
header-insert_header name other value [] = ground arith
header-insert_header name other value ((n, v) ∷ hs) = ground (
  arith,
  header-insert_header name other value hs,
  text_eq_iff n name,
  text_eq_iff n other,
  text_eq_iff name other,
)

-- `status.into_response()`
abbrev pub status_only : ℕ → Response
status_only code = record { status = code; headers = []; body = [] }

abbrev pub content_type : Text
content_type = text "content-type"

abbrev pub link : Text
link = text "link"

abbrev pub location : Text
location = text "location"
