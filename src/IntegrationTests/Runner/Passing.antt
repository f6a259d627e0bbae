-- ===== src/IntegrationTests/Runner/Passing.antt =====
-- Cases that pass whenever a condition on the state of the server holds, and that keep the condition,
-- make a run succeed.
use solid_community_rs.Prelude.{
  ℕ, ◌+◌, ◌≡◌, refl, ap, ◌∙◌, true, List, [], ◌∷◌, ◌++◌, Option, none, some, Text, ◌==◌, All,
}
use solid_community_rs.IntegrationTests.Runner.{
  Case, Suite, suite_name, Progress, report_case, run_cases, run_suites, run,
}

pub report_passed :
    {S : Type 0} (n : ℕ) (name : Text) (o : Option Text × S) (p : Progress S)
    → o.0 ≡ none
    → ((report_case n name o p).failures ≡ p.failures) × ((report_case n name o p).state ≡ o.1)
report_passed n name (none, s) p h = (refl, refl)
report_passed n name (some e, s) p h = cc h

module _ {S : Type 0} (P : S → Type 0) where
  abbrev pub IsPassing : Case S → Type 0
  IsPassing c = (s : S) → P s → ((c.run s).0 ≡ none) × P (c.run s).1

  cases_pass :
      (cs : List (Case S)) (p : Progress S)
      → All IsPassing cs
      → P p.state
      → ((run_cases cs p).failures ≡ p.failures) × P (run_cases cs p).state
  unfolding run_cases
  cases_pass [] p all holds = (refl, holds)
  cases_pass (c ∷ cs) p (pass, all) holds =
      let (passed, holds') = pass p.state holds in
      let (same, state) = report_passed (p.counter + 1) c.name (c.run p.state) p passed in
      let q = report_case (p.counter + 1) c.name (c.run p.state) p in
      let (rest, last) = cases_pass cs q all (rw state holds') in (rest ∙ same, last)

  pub suites_pass :
      (ss : List (Suite S)) (p : Progress S)
      → All (λ x. All IsPassing x.cases) ss
      → P p.state
      → ((run_suites ss p).failures ≡ p.failures) × P (run_suites ss p).state
  unfolding run_suites
  suites_pass [] p all holds = (refl, holds)
  suites_pass (x ∷ xs) p (here, all) holds =
      let q : Progress S = record p { lines = p.lines ++ suite_name x.name ∷ [] } in
      let (one, holds') = cases_pass x.cases q here holds in
      let (rest, last) = suites_pass xs (run_cases x.cases q) all holds' in (rest ∙ one, last)

  pub run_passes :
      (ss : List (Suite S)) (s : S)
      → All (λ x. All IsPassing x.cases) ss
      → P s
      → ((run ss s).0 ≡ true) × P (run ss s).1.state
  unfolding run
  run_passes ss s all holds =
      let (none_failed, last) = suites_pass ss _ all holds in (ap (λ n. n == 0) none_failed, last)
