-- ===== src/IntegrationTests/ResourceCrud.antt =====
-- integration-tests/src/suites/resource_crud.rs: the cases of the suite, over what the client does to
-- a server with the state `S`. Each case gets the path that it draws.
pub mod Passing
pub mod EndToEnd
use solid_community_rs.Prelude.{
  ℕ, Bool, List, [], ◌∷◌, ◌++◌, ◌&&◌, not, Option, none, some, Text, text, ◌==◌, if◌then◌else◌,
}
use solid_community_rs.IntegrationTests.Client.{
  SolidClient, and_then, clean_up, assert_status, assert_content_type, assert_body_contains,
}
use solid_community_rs.IntegrationTests.Runner.{Case}

abbrev pub uniq : Text → Text → Text
uniq uuid suffix = text "/test-" ++ (uuid ++ (text "/" ++ suffix))

module _ {S : Type 0} (c : SolidClient S) (show : ℕ → Text) where
  unfoldable pub put_creates : Text → S → Option Text × S
  unfolding assert_status
  put_creates path s =
      let (resp, s') = c.put path (text "hello world") (text "text/plain") s in
      and_then (assert_status show resp 201) (clean_up c path) s'

  unfoldable pub get_returns : Text → S → Option Text × S
  unfolding assert_status assert_body_contains
  get_returns path s =
      let stored = (c.put path (text "stored body") (text "text/plain") s).1 in
      let (resp, s') = c.get path stored in
      and_then (assert_status show resp 200)
        (and_then (assert_body_contains resp.body (text "stored body")) (clean_up c path)) s'

  unfoldable pub get_absent : Text → S → Option Text × S
  unfolding assert_status
  get_absent path s = let (resp, s') = c.get path s in (assert_status show resp 404, s')

  abbrev pub overwritten : ℕ → Option Text
  overwritten status =
      if not (status == 200) && not (status == 204)
      then some (text "expected 200 or 204 for overwrite PUT, got " ++ show status)
      else none

  unfoldable pub put_overwrites : Text → S → Option Text × S
  unfolding assert_body_contains
  put_overwrites path s =
      let original = (c.put path (text "original") (text "text/plain") s).1 in
      let (resp, updated) = c.put path (text "updated") (text "text/plain") original in
      and_then (overwritten resp.status)
        (λ u.
          let (found, s') = c.get path u in
          and_then (assert_body_contains found.body (text "updated")) (clean_up c path) s')
        updated

  unfoldable pub delete_removes : Text → S → Option Text × S
  unfolding assert_status
  delete_removes path s =
      let stored = (c.put path (text "bye") (text "text/plain") s).1 in
      let (del, s') = c.delete path stored in
      and_then (assert_status show del 204)
        (λ u. let (resp, s'') = c.get path u in (assert_status show resp 404, s'')) s'

  unfoldable pub delete_absent : Text → S → Option Text × S
  unfolding assert_status
  delete_absent path s = let (resp, s') = c.delete path s in (assert_status show resp 404, s')

  unfoldable pub get_keeps_type : Text → S → Option Text × S
  unfolding assert_status assert_content_type
  get_keeps_type path s =
      let ttl = text "@prefix : <http://example.org/> .\n:me a :Person ." in
      let stored = (c.put path ttl (text "text/turtle") s).1 in
      let (resp, s') = c.get path stored in
      and_then (assert_status show resp 200)
        (and_then (assert_content_type resp (text "text/turtle")) (clean_up c path)) s'

  -- The cases of `suite`, with the UUID that each of them draws.
  abbrev pub cases : (ℕ → Text) → List (Case S)
  cases uuid =
      record {
        name = text "PUT creates a new document and returns 201";
        run = put_creates (uniq (uuid 0) (text "file.txt"));
      }
      ∷ record {
        name = text "GET returns the stored body after PUT";
        run = get_returns (uniq (uuid 1) (text "hello.txt"));
      }
      ∷ record {
        name = text "GET on absent resource returns 404";
        run = get_absent (uniq (uuid 2) (text "does-not-exist.txt"));
      }
      ∷ record {
        name = text "PUT on existing resource overwrites and returns 200 or 204";
        run = put_overwrites (uniq (uuid 3) (text "overwrite.txt"));
      }
      ∷ record {
        name = text "DELETE returns 204 and removes the resource";
        run = delete_removes (uniq (uuid 4) (text "todelete.txt"));
      }
      ∷ record {
        name = text "DELETE on absent resource returns 404";
        run = delete_absent (uniq (uuid 5) (text "phantom.txt"));
      }
      ∷ record {
        name = text "GET returns matching Content-Type";
        run = get_keeps_type (uniq (uuid 6) (text "data.ttl"));
      }
      ∷ []
