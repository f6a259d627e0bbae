-- ===== src/IntegrationTests/Client.antt =====
-- integration-tests/src/client.rs: the requests of the client, and the assertions on a response.
-- `none` is the answer `Ok(())` of an assertion, and else there is the message of the error.
use solid_community_rs.Prelude.{
  ℕ, Bool, leb, ltb, ◌&&◌, List, Option, none, some, Text, text, ◌++◌, ◌==◌, [], ◌∷◌, starts_with,
  unwrap_or, if◌then◌else◌,
}
use solid_community_rs.Prelude.Split.{contains, utf8}
use solid_community_rs.ServerCore.Http.{Headers, content_type}

-- A response of reqwest, with the headers whose values are text and the body as bytes and as text.
pub record Answer : Type 0 where
  pub status : ℕ
  pub header : Text → Option Text
  pub bytes : List ℕ
  pub body : Text

-- What sending a request with a method, a path, a body and headers does: the work of url, reqwest
-- and the server under test, whose state is `S`. Every request is answered.
abbrev pub Send : Type 0 → Type 0
Send S = Text → Text → Option (List ℕ) → Headers → S → Answer × S

-- The requests of the client; `put`, `post` and `patch` take a path, a body and a content type,
-- and `get_accept` a path and an `Accept` header.
pub record SolidClient (S : Type 0) : Type 0 where
  pub get : Text → S → Answer × S
  pub get_accept : Text → Text → S → Answer × S
  pub head : Text → S → Answer × S
  pub put : Text → Text → Text → S → Answer × S
  pub post : Text → Text → Text → S → Answer × S
  pub patch : Text → Text → Text → S → Answer × S
  pub delete : Text → S → Answer × S
  pub options : Text → S → Answer × S

abbrev pub accept : Text
accept = text "accept"

module _ {S : Type 0} (send : Send S) where
  -- What is printed for a verbose client is left out.
  abbrev pub request_with_headers :
      Text → Text → Option (List ℕ) → Option Text → Headers → S → Answer × S
  request_with_headers method path body _slug headers s = send method path body headers s

  abbrev pub request : Text → Text → Option (List ℕ) → Option Text → S → Answer × S
  request method path body (some ct) s =
      request_with_headers method path body none ((content_type, ct) ∷ []) s
  request method path body none s = request_with_headers method path body none [] s

  abbrev pub client_of : SolidClient S
  client_of = record {
    get = λ path s. request (text "GET") path none none s;
    get_accept =
        λ path value s. request_with_headers (text "GET") path none none ((accept, value) ∷ []) s;
    head = λ path s. request (text "HEAD") path none none s;
    put = λ path body type s. request (text "PUT") path (some (utf8 body)) (some type) s;
    post = λ path body type s. request (text "POST") path (some (utf8 body)) (some type) s;
    patch = λ path body type s. request (text "PATCH") path (some (utf8 body)) (some type) s;
    delete = λ path s. request (text "DELETE") path none none s;
    options = λ path s. request (text "OPTIONS") path none none s;
  }

-- What the suites make of an assertion and of a client: `?` on an assertion, which ends a case that
-- it fails, and `let _ = c.delete(&path).await; Ok(())`.
abbrev pub and_then : {S : Type 0} → Option Text → (S → Option Text × S) → S → Option Text × S
and_then (some e) next s = (some e, s)
and_then none next s = next s

-- `if test { bail!(message) }`
abbrev pub bail_if : Bool → Text → Option Text
bail_if test message = if test then some message else none

abbrev pub is_success : ℕ → Bool
is_success status = leb 200 status && ltb status 300

abbrev pub clean_up : {S : Type 0} → SolidClient S → Text → S → Option Text × S
clean_up c path s = (none, (c.delete path s).1)

-- How a status code is displayed is a parameter.
unfoldable pub assert_status : (ℕ → Text) → Answer → ℕ → Option Text
assert_status show resp expected =
    if resp.status == expected
    then none
    else some (text "expected HTTP " ++ show expected ++ text ", got " ++ show resp.status)

unfoldable pub assert_content_type : Answer → Text → Option Text
unfolding starts_with
assert_content_type resp expected_prefix =
    let ct = unwrap_or (resp.header (text "content-type")) [] in
    if starts_with ct expected_prefix
    then none
    else some (
        text "expected Content-Type starting with '"
        ++ expected_prefix
        ++ text "', got '"
        ++ ct
        ++ text "'")

unfoldable pub assert_link_rel : Answer → Text → Option Text
unfolding contains
assert_link_rel resp rel_type =
    let link = unwrap_or (resp.header (text "link")) [] in
    if contains link rel_type
    then none
    else some (
        text "expected Link header to contain '" ++ rel_type ++ text "', got '" ++ link ++ text "'")

unfoldable pub assert_body_contains : Text → Text → Option Text
unfolding contains
assert_body_contains body needle =
    if contains body needle
    then none
    else some (text "expected body to contain '" ++ needle ++ text "', got:\n" ++ body)
