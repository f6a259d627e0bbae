-- ===== src/IntegrationTests/Runner.antt =====
-- integration-tests/src/runner.rs: the runner counts the cases and the failures and prints a report.
-- A case works on the state `S` of the server under test.
pub mod Counts
pub mod Failing
pub mod Passing
pub mod Tally
use solid_community_rs.Prelude.{
  ℕ, zero, suc, ◌+◌, ◌-◌, ◌≤◌, ◌≡◌, refl, sym, ap, ◌∙◌, Bool, true, false, List, [], ◌∷◌, ◌++◌,
  Option, none, some, arith, Text, length, length-append, filter, ◌==◌, append_assoc,
}
use solid_community_rs.Prelude.Split.{contains}

-- `none` is the result `Ok(())`, and else there is the message of the error.
pub record Case (S : Type 0) : Type 0 where
  pub name : Text
  pub run : S → Option Text × S

pub record Suite (S : Type 0) : Type 0 where
  pub name : Text
  pub cases : List (Case S)

-- What is printed; the lines of a message are printed one by one, indented.
pub data Line : Type 0 where
  version : Line
  suite_name : Text → Line
  ok : ℕ → Text → Line
  not_ok : ℕ → Text → Text → Line
  plan : ℕ → Line
  totals : ℕ → ℕ → Line

abbrev pub select : {S : Type 0} → (Text → Text) → Option Text → List (Suite S) → List (Suite S)
select to_lowercase none all = all
select to_lowercase (some f) all = filter (λ s. contains (to_lowercase s.name) (to_lowercase f)) all

-- The lines that were printed, the two counters, and the state.
pub record Progress (S : Type 0) : Type 0 where
  pub lines : List Line
  pub counter : ℕ
  pub failures : ℕ
  pub state : S

module _ {S : Type 0} where
  abbrev pub report_case : ℕ → Text → Option Text × S → Progress S → Progress S
  report_case n name (none, s) p = record {
    lines = p.lines ++ ok n name ∷ [];
    counter = n;
    failures = p.failures;
    state = s;
  }
  report_case n name (some e, s) p = record {
    lines = p.lines ++ not_ok n name e ∷ [];
    counter = n;
    failures = p.failures + 1;
    state = s;
  }

  unfoldable pub run_cases : List (Case S) → Progress S → Progress S
  run_cases [] p = p
  run_cases (c ∷ cs) p = run_cases cs (report_case (p.counter + 1) c.name (c.run p.state) p)

  unfoldable pub run_suites : List (Suite S) → Progress S → Progress S
  unfolding run_cases
  run_suites [] p = p
  run_suites (s ∷ ss) p =
      run_suites ss (run_cases s.cases (record p { lines = p.lines ++ suite_name s.name ∷ [] }))

  -- `true` if no case failed.
  unfoldable pub run : List (Suite S) → S → Bool × Progress S
  unfolding run_suites
  run suites s =
      let first : Progress S = record {
        lines = version ∷ [];
        counter = 0;
        failures = 0;
        state = s;
      } in
      let p = run_suites suites first in
      (
        p.failures == 0,
        record p {
          lines = p.lines ++ plan p.counter ∷ totals (p.counter - p.failures) p.failures ∷ [];
        },
      )
