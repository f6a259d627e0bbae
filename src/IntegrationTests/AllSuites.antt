-- ===== src/IntegrationTests/AllSuites.antt =====
-- integration-tests/src/runner.rs, `TestSuite::new`, and cli/src/test_runner.rs: the suites that
-- `solid-test` runs, and its exit code.
pub mod Outcome
pub mod Keeping
pub mod Parts
pub mod Answers
pub mod FullRun
use solid_community_rs.Prelude.{ℕ, Bool, List, [], ◌∷◌, Option, Text, text, if◌then◌else◌}
use solid_community_rs.IntegrationTests.Client.{Answer, SolidClient}
use solid_community_rs.IntegrationTests.Runner.{Suite, select, Progress, run}
use solid_community_rs.IntegrationTests.Health
use solid_community_rs.IntegrationTests.ResourceCrud
use solid_community_rs.IntegrationTests.Containers
use solid_community_rs.IntegrationTests.Negotiation
use solid_community_rs.IntegrationTests.ErrorResponses
use solid_community_rs.IntegrationTests.Wac

module _ {S : Type 0} (c : SolidClient S) (show : ℕ → Text) (show_headers : Answer → Text) where
  -- The suites in the order in which they are registered; `uuid` gives
  -- the UUIDs that the cases of each suite draw.
  unfoldable pub all_suites : (Text → ℕ → Text) → List (Suite S)
  all_suites uuid =
      record { name = text "health"; cases = Health.cases c show }
      ∷ record {
        name = text "resource-crud";
        cases = ResourceCrud.cases c show (uuid (text "resource-crud"));
      }
      ∷ record {
        name = text "containers";
        cases = Containers.cases c show (uuid (text "containers"));
      }
      ∷ record {
        name = text "content-negotiation";
        cases = Negotiation.cases c show (uuid (text "content-negotiation"));
      }
      ∷ record {
        name = text "error-responses";
        cases = ErrorResponses.cases c show (uuid (text "error-responses"));
      }
      ∷ record { name = text "wac"; cases = Wac.cases c show show_headers (uuid (text "wac")) }
      ∷ []

  -- `TestSuite::new` and `run`, with the lower case of a text as a parameter.
  unfoldable pub run_tests : (Text → Text) → Option Text → (Text → ℕ → Text) → S → Bool × Progress S
  unfolding run all_suites
  run_tests to_lowercase filter uuid s = run (select to_lowercase filter (all_suites uuid)) s

-- `main`: the process exits with 1 unless all cases passed.
unfoldable pub exit_code : Bool → ℕ
exit_code passed = if passed then 0 else 1
