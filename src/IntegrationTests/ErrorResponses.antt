-- ===== src/IntegrationTests/ErrorResponses.antt =====
-- integration-tests/src/suites/error_responses.rs: the cases on errors, over what the client does to
-- a server with the state `S`. Each case draws a UUID for its path.
pub mod Passing
use solid_community_rs.Prelude.{
  ℕ, not, ◌&&◌, ◌||◌, ◌==◌, List, [], ◌∷◌, ◌++◌, Option, Text, text, is_empty,
}
use solid_community_rs.Prelude.Split.{trim}
use solid_community_rs.IntegrationTests.Client.{
  SolidClient, and_then, bail_if, clean_up, assert_status,
}
use solid_community_rs.IntegrationTests.Runner.{Case}

abbrev pub unknown_path : Text → Text
unknown_path uuid = text "/does-not-exist-" ++ uuid

abbrev pub patch_path : Text → Text
patch_path uuid = text "/patch-target-" ++ (uuid ++ text ".txt")

abbrev pub nope_path : Text → Text
nope_path uuid = text "/nope-" ++ uuid

abbrev pub deep_path : Text → Text
deep_path uuid = text "/no-such-container-" ++ (uuid ++ text "/file.txt")

module _ {S : Type 0} (c : SolidClient S) (show : ℕ → Text) where
  unfoldable pub unknown_missing : Text → S → Option Text × S
  unfolding assert_status
  unknown_missing path s = let (resp, s') = c.get path s in (assert_status show resp 404, s')

  unfoldable pub patch_refused : Text → S → Option Text × S
  patch_refused path s =
      let stored = (c.put path (text "original") (text "text/plain") s).1 in
      let (resp, s') =
        c.patch path (text "garbage patch body") (text "application/x-not-a-patch-type") stored in
      and_then
        (bail_if (not (resp.status == 415) && not (resp.status == 405) && not (resp.status == 400))
          (text "expected 415|405|400 for bad PATCH, got " ++ show resp.status))
        (clean_up c path) s'

  unfoldable pub missing_described : Text → S → Option Text × S
  unfolding assert_status trim
  missing_described path s =
      let (resp, s') = c.get path s in
      and_then (assert_status show resp 404)
        (λ u.
          (bail_if (is_empty (trim resp.body)) (text "expected non-empty error body for 404"), u))
        s'

  unfoldable pub deep_put : Text → S → Option Text × S
  deep_put path s =
      let (resp, s') = c.put path (text "body") (text "text/plain") s in
      let ok = resp.status == 201 || resp.status == 404 || resp.status == 409 in
      and_then
        (bail_if (not ok)
          (text "expected 201|404|409 for PUT to deep path, got " ++ show resp.status))
        (clean_up c path) s'

  -- The cases of `suite`, with the UUID that each of them draws.
  abbrev pub cases : (ℕ → Text) → List (Case S)
  cases uuid =
      record {
        name = text "GET unknown path returns 404";
        run = unknown_missing (unknown_path (uuid 0));
      }
      ∷ record {
        name = text "PATCH without supported patch Content-Type returns 415 or 405";
        run = patch_refused (patch_path (uuid 1));
      }
      ∷ record {
        name = text "404 response body describes the error";
        run = missing_described (nope_path (uuid 2));
      }
      ∷ record {
        name = text "PUT to path with missing parent returns 201 (auto-create) or 404/409";
        run = deep_put (deep_path (uuid 3));
      }
      ∷ []
