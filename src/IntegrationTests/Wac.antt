-- ===== src/IntegrationTests/Wac.antt =====
-- integration-tests/src/suites/wac.rs: the cases on access control, over what the client does to a
-- server with the state `S`. Each case draws a UUID for its path.
pub mod Outcome
use solid_community_rs.Prelude.{ℕ, not, ◌==◌, List, [], ◌∷◌, ◌++◌, Option, Text, text, is_some}
use solid_community_rs.IntegrationTests.Client.{
  Answer, SolidClient, and_then, bail_if, clean_up, assert_status,
}
use solid_community_rs.IntegrationTests.Runner.{Case}

abbrev pub public_path : Text → Text
public_path uuid = text "/wac-public-" ++ (uuid ++ text ".txt")

abbrev pub acl_path : Text → Text
acl_path uuid = text "/wac-test-" ++ (uuid ++ text ".ttl.acl")

abbrev pub acl_prefix : Text
acl_prefix = text "@prefix acl: <http://www.w3.org/ns/auth/acl#> ."

-- How a status code and the headers of a response are displayed are parameters.
module _ {S : Type 0} (c : SolidClient S) (show : ℕ → Text) (show_headers : Answer → Text) where
  unfoldable pub public_readable : Text → S → Option Text × S
  unfolding assert_status
  public_readable path s =
      let stored = (c.put path (text "public content") (text "text/plain") s).1 in
      let (resp, s') = c.get path stored in
      and_then (assert_status show resp 200) (clean_up c path) s'

  unfoldable pub acl_protected : Text → S → Option Text × S
  acl_protected path s =
      let stored = (c.put path acl_prefix (text "text/turtle") s).1 in
      let (resp, s') = c.get path stored in
      and_then
        (bail_if (not (resp.status == 401))
          (text "expected 401 Unauthorized on .acl path, got " ++ show resp.status))
        (clean_up c path) s'

  unfoldable pub modes_advertised : Text → S → Option Text × S
  modes_advertised path s =
      let stored = (c.put path acl_prefix (text "text/turtle") s).1 in
      let (resp, s') = c.get path stored in
      and_then
        (bail_if (not (is_some (resp.header (text "wac-allow")))) (
          text "expected WAC-Allow header on response to .acl path, got headers: "
          ++ show_headers resp))
        (clean_up c path) s'

  -- The cases of `suite`, with the UUID that each of them draws.
  abbrev pub cases : (ℕ → Text) → List (Case S)
  cases uuid =
      record {
        name = text "GET on unprotected resource returns 200";
        run = public_readable (public_path (uuid 0));
      }
      ∷ record {
        name = text "GET on ACL resource without credentials returns 401";
        run = acl_protected (acl_path (uuid 1));
      }
      ∷ record {
        name = text "WAC-Allow header is present on protected resource response";
        run = modes_advertised (acl_path (uuid 2));
      }
      ∷ []
