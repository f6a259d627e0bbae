-- ===== src/IntegrationTests/Containers.antt =====
-- integration-tests/src/suites/containers.rs: the cases on containers, over what the client does to
-- a server with the state `S`. Each case draws a UUID for its path.
pub mod Passing
pub mod EndToEnd
use solid_community_rs.Prelude.{
  ℕ, not, ◌&&◌, ◌==◌, List, [], ◌∷◌, ◌++◌, Option, Text, text, is_some,
}
use solid_community_rs.IntegrationTests.Client.{
  SolidClient, and_then, bail_if, clean_up, assert_status, assert_link_rel,
}
use solid_community_rs.IntegrationTests.Runner.{Case}

unfoldable pub container_path : Text → Text
container_path uuid = text "/test-" ++ (uuid ++ text "/")

abbrev pub ldp_container : Text
ldp_container = text "http://www.w3.org/ns/ldp#Container"

module _ {S : Type 0} (c : SolidClient S) (show : ℕ → Text) where
  unfoldable pub root_responds : S → Option Text × S
  root_responds s =
      let (resp, s') = c.get (text "/") s in
      (
        bail_if (not (resp.status == 200) && not (resp.status == 401))
            (text "expected 200|401 from GET /, got " ++ show resp.status),
        s',
      )

  unfoldable pub put_creates : Text → S → Option Text × S
  unfolding assert_status
  put_creates path s =
      let (resp, s') = c.put path [] (text "text/turtle") s in
      and_then (assert_status show resp 201) (clean_up c path) s'

  unfoldable pub post_creates : Text → S → Option Text × S
  unfolding assert_status
  post_creates container s =
      let there = (c.put container [] (text "text/turtle") s).1 in
      let (resp, s') = c.post container (text "child content") (text "text/plain") there in
      and_then (assert_status show resp 201)
        (and_then
          (bail_if (not (is_some (resp.header (text "location"))))
            (text "POST response missing Location header"))
          (clean_up c container))
        s'

  unfoldable pub get_links : Text → S → Option Text × S
  unfolding assert_status assert_link_rel
  get_links path s =
      let there = (c.put path [] (text "text/turtle") s).1 in
      let (resp, s') = c.get path there in
      and_then (assert_status show resp 200)
        (and_then (assert_link_rel resp ldp_container) (clean_up c path)) s'

  unfoldable pub delete_removes : Text → S → Option Text × S
  unfolding assert_status
  delete_removes path s =
      let there = (c.put path [] (text "text/turtle") s).1 in
      let (resp, s') = c.delete path there in (assert_status show resp 204, s')

  -- The cases of `suite`, with the UUID that each of them draws.
  abbrev pub cases : (ℕ → Text) → List (Case S)
  cases uuid =
      record {
        name = text "GET / responds with 200 or 401 (root is a container)";
        run = root_responds;
      }
      ∷ record {
        name = text "PUT to container URL creates container (201)";
        run = put_creates (container_path (uuid 1));
      }
      ∷ record {
        name = text "POST to container creates child resource (201)";
        run = post_creates (container_path (uuid 2));
      }
      ∷ record {
        name = text "GET on container includes ldp:Container Link header";
        run = get_links (container_path (uuid 3));
      }
      ∷ record {
        name = text "DELETE on empty container returns 204";
        run = delete_removes (container_path (uuid 4));
      }
      ∷ []
