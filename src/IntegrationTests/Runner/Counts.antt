-- ===== src/IntegrationTests/Runner/Counts.antt =====
-- What the report of the runner says of the run.
use solid_community_rs.Prelude.{
  ℕ, zero, suc, ◌+◌, ◌-◌, ◌≤◌, ◌≡◌, refl, sym, ap, ◌∙◌, List, [], ◌∷◌, ◌++◌, Option, none, some,
  arith, Text, length, ◌==◌, append-nil,
}
use solid_community_rs.IntegrationTests.Runner.{
  Case, Suite, Line, version, suite_name, ok, not_ok, plan, totals, Progress, report_case,
  run_cases, run_suites, run,
}

-- The numbers of the cases that were reported.
pub numbers : List Line → List ℕ
numbers [] = []
numbers (ok n _ ∷ ls) = n ∷ numbers ls
numbers (not_ok n _ _ ∷ ls) = n ∷ numbers ls
numbers (_ ∷ ls) = numbers ls

-- How many of them failed.
pub failed : List Line → ℕ
failed [] = 0
failed (not_ok _ _ _ ∷ ls) = suc (failed ls)
failed (_ ∷ ls) = failed ls

-- `1, …, n`
pub up_to : ℕ → List ℕ
up_to zero = []
up_to (suc n) = up_to n ++ suc n ∷ []

numbers-append : (ls ms : List Line) → numbers (ls ++ ms) ≡ numbers ls ++ numbers ms
unfolding numbers
numbers-append [] ms = refl
numbers-append (ok n _ ∷ ls) ms = ap (λ l. n ∷ l) (numbers-append ls ms)
numbers-append (not_ok n _ _ ∷ ls) ms = ap (λ l. n ∷ l) (numbers-append ls ms)
numbers-append (version ∷ ls) ms = numbers-append ls ms
numbers-append (suite_name _ ∷ ls) ms = numbers-append ls ms
numbers-append (plan _ ∷ ls) ms = numbers-append ls ms
numbers-append (totals _ _ ∷ ls) ms = numbers-append ls ms

failed-append : (ls ms : List Line) → failed (ls ++ ms) ≡ failed ls + failed ms
unfolding failed
failed-append [] ms = omega arith
failed-append (not_ok n _ _ ∷ ls) ms = omega (arith, failed-append ls ms)
failed-append (ok _ _ ∷ ls) ms = failed-append ls ms
failed-append (version ∷ ls) ms = failed-append ls ms
failed-append (suite_name _ ∷ ls) ms = failed-append ls ms
failed-append (plan _ ∷ ls) ms = failed-append ls ms
failed-append (totals _ _ ∷ ls) ms = failed-append ls ms

up_to-next : (n : ℕ) → up_to (n + 1) ≡ up_to n ++ (n + 1) ∷ []
unfolding up_to
up_to-next n =
    let next : n + 1 ≡ suc n = omega arith in ap up_to next ∙ ap (λ m. up_to n ++ m ∷ []) (sym next)

-- The line of one more case.
next_numbered :
    (ls : List Line) (l : Line) (n : ℕ)
    → numbers (l ∷ []) ≡ (n + 1) ∷ []
    → numbers ls ≡ up_to n
    → numbers (ls ++ l ∷ []) ≡ up_to (n + 1)
next_numbered ls l n one before =
    numbers-append ls (l ∷ [])
    ∙ ap (λ a. a ++ numbers (l ∷ [])) before
    ∙ ap (λ a. up_to n ++ a) one
    ∙ sym (up_to-next n)

-- A line that is not about a case.
abbrev IsRemark : Line → Type 0
IsRemark l = (numbers (l ∷ []) ≡ []) × (failed (l ∷ []) ≡ 0)

module _ {S : Type 0} where
  -- The counters are those of the lines that were printed.
  pub record IsCounted (p : Progress S) : Type 0 where
    pub numbered : numbers p.lines ≡ up_to p.counter
    pub failures_counted : p.failures ≡ failed p.lines
    pub few : p.failures ≤ p.counter

  report_case-IsCounted :
      (name : Text) (o : Option Text × S) (p : Progress S)
      → IsCounted p
      → IsCounted (report_case (p.counter + 1) name o p)
        × ((report_case (p.counter + 1) name o p).counter ≡ p.counter + 1)
  unfolding numbers failed up_to
  report_case-IsCounted name (none, s) p c = (
    record {
      numbered = next_numbered p.lines _ p.counter refl c.numbered;
      failures_counted =
          omega (arith, c.failures_counted, failed-append p.lines (ok (p.counter + 1) name ∷ []));
      few = omega (arith, c.few);
    },
    refl,
  )
  report_case-IsCounted name (some e, s) p c = (
    record {
      numbered = next_numbered p.lines _ p.counter refl c.numbered;
      failures_counted =
          omega
            (arith, c.failures_counted, failed-append p.lines (not_ok (p.counter + 1) name e ∷ []));
      few = omega (arith, c.few);
    },
    refl,
  )

  run_cases-IsCounted :
      (cs : List (Case S)) (p : Progress S)
      → IsCounted p
      → IsCounted (run_cases cs p) × ((run_cases cs p).counter ≡ p.counter + length cs)
  unfolding run_cases
  run_cases-IsCounted [] p c = (c, omega arith)
  run_cases-IsCounted (x ∷ cs) p c =
      let (counted, one) = report_case-IsCounted x.name (x.run p.state) p c in
      let (all, more) =
        run_cases-IsCounted cs (report_case (p.counter + 1) x.name (x.run p.state) p) counted in
      (all, omega (arith, one, more))

  remark-IsCounted :
      (l : Line) (p : Progress S)
      → IsRemark l
      → IsCounted p
      → IsCounted (record p { lines = p.lines ++ l ∷ [] })
  remark-IsCounted l p r c = record {
    numbered =
        numbers-append p.lines (l ∷ [])
        ∙ ap (λ a. numbers p.lines ++ a) r.0
        ∙ append-nil _
        ∙ c.numbered;
    failures_counted = omega (arith, c.failures_counted, failed-append p.lines (l ∷ []), r.1);
    few = c.few;
  }

  -- How many cases the suites have.
  unfoldable pub case_count : List (Suite S) → ℕ
  case_count [] = 0
  case_count (s ∷ ss) = length s.cases + case_count ss

  run_suites-IsCounted :
      (ss : List (Suite S)) (p : Progress S)
      → IsCounted p
      → IsCounted (run_suites ss p) × ((run_suites ss p).counter ≡ p.counter + case_count ss)
  unfolding run_suites case_count numbers failed
  run_suites-IsCounted [] p c = (c, omega arith)
  run_suites-IsCounted (s ∷ ss) p c =
      let named = remark-IsCounted (suite_name s.name) p (refl, refl) c in
      let q : Progress S = record p { lines = p.lines ++ suite_name s.name ∷ [] } in
      let (counted, here) = run_cases-IsCounted s.cases q named in
      let (all, more) = run_suites-IsCounted ss (run_cases s.cases q) counted in
      (all, omega (arith, here, more))

  abbrev pub first : S → Progress S
  first s = record { lines = version ∷ []; counter = 0; failures = 0; state = s }

  first-IsCounted :
      (ss : List (Suite S)) (s : S)
      → let p = run_suites ss (first s) in IsCounted p × (p.counter ≡ case_count ss)
  unfolding numbers failed up_to
  first-IsCounted ss s =
      let started : IsCounted (first s) = record {
        numbered = refl;
        failures_counted = refl;
        few = omega arith;
      } in
      let (c, n) = run_suites-IsCounted ss (first s) started in (c, omega (arith, n))

  -- The counter ends at the number of cases.
  pub suites_counted :
      (ss : List (Suite S)) (s : S) → (run_suites ss (first s)).counter ≡ case_count ss
  suites_counted ss s = (first-IsCounted ss s).1

  -- A run prints the cases with the numbers from 1 to the number of cases, then this number as the
  -- plan, and then how many passed and failed: the failures are those that were printed, both add up
  -- to the number of cases, and the answer is whether there was none.
  pub run_lem :
      (suites : List (Suite S)) (s : S)
      → let n = case_count suites in
        let (answer, p) = run suites s in
        (ls : List Line) × (passed : ℕ) × (failures : ℕ) × (p.lines
          ≡ ls ++ plan n ∷ totals passed failures ∷ [])
        × (numbers ls ≡ up_to n)
        × (failures ≡ failed ls)
        × (passed + failures ≡ n)
        × (answer ≡ (failures == 0))
  unfolding run numbers failed up_to
  run_lem suites s =
      let (c, all) = first-IsCounted suites s in
      let p = run_suites suites (first s) in
      (
        p.lines,
        p.counter - p.failures,
        p.failures,
        ap (λ m. p.lines ++ plan m ∷ totals (p.counter - p.failures) p.failures ∷ []) all,
        c.numbered ∙ ap up_to all,
        c.failures_counted,
        omega (arith, c.few, all),
        refl,
      )
