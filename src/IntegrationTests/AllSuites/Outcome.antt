-- ===== src/IntegrationTests/AllSuites/Outcome.antt =====
-- What a run of all suites says of the server that is modelled.
use solid_community_rs.Prelude.{
  Bool, true, refl, leb, ◌==◌, ◌&&◌, ◌||◌, [], ◌∷◌, ◌∙◌, starts_with, ℕ, ◌≡◌, ap, inl, inr, Option,
  none, some, All, Text, text, if◌then◌else◌,
}
use solid_community_rs.ServerCore.Http.{HeaderValues, Response}
use solid_community_rs.Prelude.Split.{contains}
use solid_community_rs.ServerCore.Store.{Entry, LdpStore}
use solid_community_rs.IntegrationTests.Client.{Answer, SolidClient}
use solid_community_rs.IntegrationTests.Server.{Transport, IsFaithful, client}
use solid_community_rs.IntegrationTests.Server.Asked.{place}
use solid_community_rs.IntegrationTests.ResourceCrud
use solid_community_rs.IntegrationTests.ResourceCrud.EndToEnd.{crud_paths}
use solid_community_rs.IntegrationTests.Server.Frame.{IsReady, IsApart}
use solid_community_rs.IntegrationTests.AllSuites.Parts.{crud_part}
use solid_community_rs.IntegrationTests.Runner.{select, run}
use solid_community_rs.IntegrationTests.Runner.Passing.{run_passes}
use solid_community_rs.IntegrationTests.Wac.Outcome.{wac_paths, wac_outcome}
use solid_community_rs.IntegrationTests.Runner.Failing.{run_fails}
use solid_community_rs.IntegrationTests.AllSuites.{all_suites, run_tests, exit_code}

abbrev is_lower : Text → Bool
is_lower [] = true
is_lower (c ∷ t) = ((leb 97 c && leb c 122) || c == 45) && is_lower t

-- The filter `resource-crud` selects the suite of that name and no other, if lower-case text is left
-- as it is.
select_crud :
    {S : Type 0} (c : SolidClient S) (show : ℕ → Text) (show_headers : Answer → Text)
    (to_lowercase : Text → Text) (uuid : Text → ℕ → Text)
    → ((t : Text) → is_lower t ≡ true → to_lowercase t ≡ t)
    → select to_lowercase (some (text "resource-crud")) (all_suites c show show_headers uuid)
      ≡ record {
        name = text "resource-crud";
        cases = ResourceCrud.cases c show (uuid (text "resource-crud"));
      }
        ∷ []
unfolding all_suites contains starts_with
select_crud c show show_headers to_lowercase uuid lower =
    rw
      (
        lower (text "health") refl,
        lower (text "resource-crud") refl,
        lower (text "containers") refl,
        lower (text "content-negotiation") refl,
        lower (text "error-responses") refl,
        lower (text "wac") refl,
      )
      refl

module _ (values : HeaderValues) (unrouted : Response) (slug : Text) (transport : Transport)
    (wildcard : Text → Option Text) (faithful : IsFaithful values transport wildcard) where
  -- A run of all suites against the default pipeline fails and exits with 1, whatever is in the
  -- store, if the paths of the suite on access control reach the router as they are written and its
  -- two media types are read from header values as they were written.
  pub run_tests_fails :
      (to_lowercase : Text → Text) (show : ℕ → Text) (show_headers : Answer → Text)
      (uuid : Text → ℕ → Text) (s : LdpStore)
      → values.to_str (text "text/plain") ≡ some (text "text/plain")
      → values.to_str (text "text/turtle") ≡ some (text "text/turtle")
      → All
          (λ p. place values unrouted slug transport wildcard faithful p ≡ p)
          (wac_paths (uuid (text "wac")))
      → exit_code
          (run_tests
            (client values unrouted slug transport)
            show
            show_headers
            to_lowercase
            none
            uuid
            s).0
        ≡ 1
  unfolding run_tests all_suites exit_code
  run_tests_fails to_lowercase show show_headers uuid s plain turtle arrives =
      let failed =
        run_fails (all_suites (client values unrouted slug transport) show show_headers uuid) s (
          inr (
            inr (
              inr (
                inr (
                  inr (
                    inl (
                      inr (
                        inl (λ t.
                          let (_, refused, _) =
                            wac_outcome values unrouted slug transport wildcard faithful show
                              show_headers (uuid (text "wac")) t plain turtle arrives in
                          (_, refused)))))))))) in
      ap (λ b. if b then 0 else 1) failed

  -- A run with the filter `resource-crud` against the default pipeline passes and exits with 0, and
  -- leaves the root as it was and nothing at the paths of the suite, whatever else is in the store:
  -- the root was there and nothing at the paths, which reach the router as they are written and of
  -- which none begins another, lower-case text is left as it is by `to_lowercase`, and the two
  -- content types of the suite are read from header values as they were written.
  pub crud_run_succeeds :
      (to_lowercase : Text → Text) (show : ℕ → Text) (show_headers : Answer → Text)
      (uuid : Text → ℕ → Text) (s : LdpStore) (e : Entry)
      → ((t : Text) → is_lower t ≡ true → to_lowercase t ≡ t)
      → values.to_str (text "text/plain") ≡ some (text "text/plain")
      → values.to_str (text "text/turtle") ≡ some (text "text/turtle")
      → let paths = crud_paths (uuid (text "resource-crud")) in
        All (λ p. place values unrouted slug transport wildcard faithful p ≡ p) paths
        → All (λ p. IsApart paths p p) paths
        → IsReady e paths s
        → let (passed, p) =
            run_tests
              (client values unrouted slug transport)
              show
              show_headers
              to_lowercase
              (some (text "resource-crud"))
              uuid
              s in
          (exit_code passed ≡ 0) × IsReady e paths p.state
  unfolding run_tests exit_code
  crud_run_succeeds to_lowercase show show_headers uuid s e lower plain turtle arrives apart ready =
      let c = client values unrouted slug transport in
      let paths = crud_paths (uuid (text "resource-crud")) in
      let (passed, left) =
        run_passes (IsReady e paths)
          (record {
            name = text "resource-crud";
            cases = ResourceCrud.cases c show (uuid (text "resource-crud"));
          }
            ∷ [])
          s
          (
            crud_part values unrouted slug transport wildcard faithful show e paths plain turtle
                (uuid (text "resource-crud")) arrives apart
                (λ t p. (p.1.0, (p.1.1.1.0, (p.1.1.1.1.1.1.0, tt)))),
            tt,
          )
          ready in
      let selected = select_crud c show show_headers to_lowercase uuid lower in
      (ap (λ ss. exit_code (run ss s).0) selected ∙ ap exit_code passed, rw selected left)
