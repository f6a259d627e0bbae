-- ===== src/IntegrationTests/Runner/Failing.antt =====
-- A case that fails in every state of the server under test makes a run fail.
use solid_community_rs.Prelude.{
  ℕ, ◌+◌, ◌≤◌, ◌<◌, ◌≡◌, refl, false, inl, inr, List, [], ◌∷◌, ◌++◌, Option, none, some, arith,
  Text, ◌==◌, Any,
}
use solid_community_rs.IntegrationTests.Runner.{
  Case, Suite, suite_name, Progress, report_case, run_cases, run_suites, run,
}

not_zero : (n : ℕ) → 0 < n → (n == 0) ≡ false
not_zero n h = ground arith

module _ {S : Type 0} where
  abbrev pub AlwaysFails : Case S → Type 0
  AlwaysFails c = (s : S) → (e : Text) × ((c.run s).0 ≡ some e)

  -- A report never takes a failure back.
  report_grows :
      (n : ℕ) (name : Text) (o : Option Text × S) (p : Progress S)
      → p.failures ≤ (report_case n name o p).failures
  report_grows n name (none, s) p = omega arith
  report_grows n name (some e, s) p = omega arith

  pub report_failed :
      (n : ℕ) (name e : Text) (o : Option Text × S) (p : Progress S)
      → o.0 ≡ some e
      → (report_case n name o p).failures ≡ p.failures + 1
  report_failed n name e (none, s) p h = cc h
  report_failed n name e (some d, s) p h = refl

  cases_grow : (cs : List (Case S)) (p : Progress S) → p.failures ≤ (run_cases cs p).failures
  unfolding run_cases
  cases_grow [] p = omega arith
  cases_grow (c ∷ cs) p =
      let q = report_case (p.counter + 1) c.name (c.run p.state) p in
      omega (arith, report_grows (p.counter + 1) c.name (c.run p.state) p, cases_grow cs q)

  suites_grow : (ss : List (Suite S)) (p : Progress S) → p.failures ≤ (run_suites ss p).failures
  unfolding run_suites
  suites_grow [] p = omega arith
  suites_grow (s ∷ ss) p =
      let q : Progress S = record p { lines = p.lines ++ suite_name s.name ∷ [] } in
      omega (arith, cases_grow s.cases q, suites_grow ss (run_cases s.cases q))

  case_counted :
      (cs : List (Case S)) (p : Progress S)
      → Any AlwaysFails cs
      → p.failures < (run_cases cs p).failures
  unfolding run_cases
  case_counted [] p h = absurd h
  case_counted (c ∷ cs) p (inl fails) =
      let (e, failed) = fails p.state in
      let q = report_case (p.counter + 1) c.name (c.run p.state) p in
      omega
        (arith, report_failed (p.counter + 1) c.name e (c.run p.state) p failed, cases_grow cs q)
  case_counted (c ∷ cs) p (inr later) =
      let q = report_case (p.counter + 1) c.name (c.run p.state) p in
      omega (arith, report_grows (p.counter + 1) c.name (c.run p.state) p, case_counted cs q later)

  suite_counted :
      (ss : List (Suite S)) (p : Progress S)
      → Any (λ s. Any AlwaysFails s.cases) ss
      → p.failures < (run_suites ss p).failures
  unfolding run_suites
  suite_counted [] p h = absurd h
  suite_counted (s ∷ ss) p (inl here) =
      let q : Progress S = record p { lines = p.lines ++ suite_name s.name ∷ [] } in
      omega (arith, case_counted s.cases q here, suites_grow ss (run_cases s.cases q))
  suite_counted (s ∷ ss) p (inr later) =
      let q : Progress S = record p { lines = p.lines ++ suite_name s.name ∷ [] } in
      omega (arith, cases_grow s.cases q, suite_counted ss (run_cases s.cases q) later)

  pub run_fails :
      (ss : List (Suite S)) (s : S) → Any (λ x. Any AlwaysFails x.cases) ss → (run ss s).0 ≡ false
  unfolding run
  run_fails ss s h = not_zero _ (suite_counted ss _ h)
