-- ===== src/IntegrationTests/Runner/Tally.antt =====
-- The report of a run in which the cases that fail are the last ones.
use solid_community_rs.Prelude.{
  ◌+◌, ◌-◌, ◌≡◌, refl, ap, ◌∙◌, List, [], ◌∷◌, ◌++◌, none, arith, Text, length, All,
}
use solid_community_rs.IntegrationTests.Runner.{
  Case, Suite, Line, plan, totals, suite_name, Progress, report_case, run_cases, run_suites, run,
}
use solid_community_rs.IntegrationTests.Runner.Counts.{case_count, first, suites_counted}
use solid_community_rs.IntegrationTests.Runner.Passing.{IsPassing, report_passed, suites_pass}
use solid_community_rs.IntegrationTests.Runner.Failing.{AlwaysFails, report_failed}

module _ {S : Type 0} where
  run_suites-append :
      (ss ts : List (Suite S)) (p : Progress S)
      → run_suites (ss ++ ts) p ≡ run_suites ts (run_suites ss p)
  unfolding run_suites
  run_suites-append [] ts p = refl
  run_suites-append (s ∷ ss) ts p = run_suites-append ss ts _

  all_fail :
      (cs : List (Case S)) (p : Progress S)
      → All AlwaysFails cs
      → (run_cases cs p).failures ≡ p.failures + length cs
  unfolding run_cases
  all_fail [] p fails = omega arith
  all_fail (c ∷ cs) p (here, fails) =
      let (e, failed) = here p.state in
      let q = report_case (p.counter + 1) c.name (c.run p.state) p in
      let one = report_failed (p.counter + 1) c.name e (c.run p.state) p failed in
      omega (arith, one, all_fail cs q fails)

  first_passes :
      (c : Case S) (cs : List (Case S)) (p : Progress S)
      → ((c.run p.state).0 ≡ none)
      → All AlwaysFails cs
      → (run_cases (c ∷ cs) p).failures ≡ p.failures + length cs
  unfolding run_cases
  first_passes c cs p passes fails =
      let q = report_case (p.counter + 1) c.name (c.run p.state) p in
      let (same, _) = report_passed (p.counter + 1) c.name (c.run p.state) p passes in
      all_fail cs q fails ∙ ap (λ n. n + length cs) same

  -- The suites pass from one state to the next, and so does the first case of the last suite.
  pub run_tallied :
      (P : S → Type 0) (ss : List (Suite S)) (name : Text) (c : Case S) (cs : List (Case S)) (s : S)
      → All (λ x. All (IsPassing P) x.cases) ss
      → P s
      → ((t : S) → (c.run t).0 ≡ none)
      → All AlwaysFails cs
      → let all = ss ++ record { name = name; cases = c ∷ cs } ∷ [] in
        let n = case_count all in
        (ls : List Line) × ((run all s).1.lines
          ≡ ls ++ plan n ∷ totals (n - length cs) (length cs) ∷ [])
  unfolding run run_suites
  run_tallied P ss name c cs s pass holds passes fails =
      let last : Suite S = record { name = name; cases = c ∷ cs } in
      let all = ss ++ last ∷ [] in
      let (kept, _) = suites_pass P ss (first s) pass holds in
      let before = run_suites ss (first s) in
      let q : Progress S = record before { lines = before.lines ++ suite_name name ∷ [] } in
      let failed : (run_suites all (first s)).failures ≡ length cs =
        ap (λ p. p.failures) (run_suites-append ss (last ∷ []) (first s))
        ∙ first_passes c cs q (passes before.state) fails
        ∙ ap (λ n. n + length cs) kept
        ∙ (omega arith) in
      ((run_suites all (first s)).lines, rw (failed, suites_counted all s) refl)
