-- ===== src/IntegrationTests/Negotiation.antt =====
-- integration-tests/src/suites/content_negotiation.rs: the cases on `Accept`, over what the client
-- does to a server with the state `S`. Each case draws a UUID for its path.
pub mod Passing
use solid_community_rs.Prelude.{
  ℕ, not, ◌&&◌, ◌==◌, List, [], ◌∷◌, ◌++◌, Option, none, Text, text, if◌then◌else◌,
}
use solid_community_rs.IntegrationTests.Client.{
  SolidClient, and_then, bail_if, is_success, clean_up, assert_status, assert_content_type,
}
use solid_community_rs.IntegrationTests.Runner.{Case}

unfoldable pub path_of : Text → Text → Text
path_of uuid ext = text "/test-neg-" ++ (uuid ++ (text "." ++ ext))

abbrev pub triples : Text
triples = text "@prefix : <http://example.org/> .\n:s :p :o ."

abbrev pub turtle : Text
turtle = text "text/turtle"

abbrev pub json_ld : Text
json_ld = text "application/ld+json"

abbrev pub plain : Text
plain = text "text/plain"

abbrev pub unsupported : Text
unsupported = text "application/x-definitely-not-a-type"

module _ {S : Type 0} (c : SolidClient S) (show : ℕ → Text) where
  unfoldable pub turtle_returned : Text → S → Option Text × S
  unfolding assert_status assert_content_type
  turtle_returned p s =
      let stored = (c.put p triples turtle s).1 in
      let (resp, s') = c.get_accept p turtle stored in
      and_then (assert_status show resp 200)
        (and_then (assert_content_type resp turtle) (clean_up c p)) s'

  unfoldable pub json_ld_negotiated : Text → S → Option Text × S
  unfolding assert_content_type
  json_ld_negotiated p s =
      let stored = (c.put p triples turtle s).1 in
      let (resp, s') = c.get_accept p json_ld stored in
      and_then
        (bail_if (not (resp.status == 200) && not (resp.status == 406))
          (text "expected 200 or 406 for JSON-LD negotiation, got " ++ show resp.status))
        (and_then (if resp.status == 200 then assert_content_type resp json_ld else none)
          (clean_up c p))
        s'

  unfoldable pub plain_echoed : Text → S → Option Text × S
  unfolding assert_status assert_content_type
  plain_echoed p s =
      let stored = (c.put p (text "plain text body") plain s).1 in
      let (resp, s') = c.get p stored in
      and_then (assert_status show resp 200)
        (and_then (assert_content_type resp plain) (clean_up c p)) s'

  unfoldable pub unsupported_refused : Text → S → Option Text × S
  unsupported_refused p s =
      let stored = (c.put p (text "body") plain s).1 in
      let (resp, s') = c.get_accept p unsupported stored in
      and_then
        (bail_if (not (resp.status == 406) && not (is_success resp.status))
          (text "expected 406 or 200 for unsupported Accept, got " ++ show resp.status))
        (clean_up c p) s'

  -- The cases of `suite`, with the UUID that each of them draws.
  abbrev pub cases : (ℕ → Text) → List (Case S)
  cases uuid =
      let ttl = λ (i : ℕ). path_of (uuid i) (text "ttl") in
      let txt = λ (i : ℕ). path_of (uuid i) (text "txt") in
      record {
        name = text "GET with Accept: text/turtle returns Turtle";
        run = turtle_returned (ttl 0);
      }
      ∷ record {
        name = text "GET with Accept: application/ld+json returns JSON-LD or 406";
        run = json_ld_negotiated (ttl 1);
      }
      ∷ record {
        name = text "GET plain-text resource echoes text/plain";
        run = plain_echoed (txt 2);
      }
      ∷ record {
        name = text "GET with unsupported Accept type returns 406 or 200";
        run = unsupported_refused (txt 3);
      }
      ∷ []
