-- ===== src/IntegrationTests/Health.antt =====
-- integration-tests/src/suites/health.rs: the smoke test of a server.
pub mod EndToEnd
use solid_community_rs.Prelude.{
  ℕ, not, ◌&&◌, ◌==◌, List, [], ◌∷◌, ◌++◌, Option, Text, text, is_empty,
}
use solid_community_rs.IntegrationTests.Client.{SolidClient, and_then, bail_if, is_success}
use solid_community_rs.IntegrationTests.Runner.{Case}

abbrev pub root : Text
root = text "/"

module _ {S : Type 0} (c : SolidClient S) (show : ℕ → Text) where
  unfoldable pub get_root : S → Option Text × S
  get_root s =
      let (resp, s') = c.get root s in
      (
        bail_if (not (resp.status == 200) && not (resp.status == 401))
            (text "expected 200 or 401 from GET /, got " ++ show resp.status),
        s',
      )

  unfoldable pub options_root : S → Option Text × S
  options_root s =
      let (resp, s') = c.options root s in
      (
        bail_if (not (resp.status == 204) && not (resp.status == 200))
            (text "expected 200 or 204 from OPTIONS /, got " ++ show resp.status),
        s',
      )

  unfoldable pub head_root : S → Option Text × S
  head_root s =
      let (resp, s') = c.head root s in
      and_then
        (bail_if (not (is_success resp.status) && not (resp.status == 401))
          (text "HEAD / returned unexpected " ++ show resp.status))
        (λ u. (bail_if (not (is_empty resp.bytes)) (text "HEAD / returned a non-empty body"), u)) s'

  abbrev pub cases : List (Case S)
  cases =
      record { name = text "GET / returns 200 or 401"; run = get_root }
      ∷ record { name = text "OPTIONS / returns 204 or 200 with Allow header"; run = options_root }
      ∷ record { name = text "HEAD / does not return a body"; run = head_root }
      ∷ []
