-- ===== src/IntegrationTests/Tests/FullRun.antt =====
-- Runs on a store that is new.
use solid_community_rs.Prelude.{
  ◌≡◌, refl, [], none, some, inl, inr, Text, text, text_eq, starts_with,
}
use solid_community_rs.ServerCore.Http.{status_only}
use solid_community_rs.ServerCore.Store
use solid_community_rs.ServerCore.Store.{auto_container}
use solid_community_rs.ServerCore.Handlers.{resolve_path}
use solid_community_rs.IntegrationTests.ResourceCrud.{uniq}
use solid_community_rs.IntegrationTests.ResourceCrud.EndToEnd.{crud_paths}
use solid_community_rs.IntegrationTests.Server.Frame.{IsReady}
use solid_community_rs.IntegrationTests.AllSuites.{run_tests, exit_code}
use solid_community_rs.IntegrationTests.AllSuites.Outcome.{run_tests_fails, crud_run_succeeds}
use solid_community_rs.IntegrationTests.Tests.{
  ascii, direct, tail, direct-IsFaithful, digits, suite_client, drawn, nothing_at, new_root,
}

run_tests_fails_example :
    exit_code (run_tests suite_client digits (λ a. []) (λ t. t) none drawn Store.new).0 ≡ 1
unfolding text_eq resolve_path
run_tests_fails_example =
    run_tests_fails ascii (status_only 405) (text "new") direct tail direct-IsFaithful (λ t. t)
      digits (λ a. []) drawn Store.new refl refl (refl, (refl, (refl, tt)))

-- Lower-case text is what it is.
abbrev lower : Text → Text
lower t = t

crud_run_succeeds_example :
    let (passed, p) =
      run_tests suite_client digits (λ a. []) lower (some (text "resource-crud")) drawn Store.new in
    (exit_code passed ≡ 0)
    × IsReady auto_container (crud_paths (drawn (text "resource-crud"))) p.state
unfolding text_eq resolve_path Store.key starts_with
crud_run_succeeds_example =
    crud_run_succeeds ascii (status_only 405) (text "new") direct tail direct-IsFaithful lower
      digits (λ a. []) drawn Store.new auto_container (λ t h. refl) refl refl
      (refl, (refl, (refl, (refl, (refl, (refl, (refl, tt)))))))
      (
        (
          refl,
          (inl refl, (inr refl, (inr refl, (inr refl, (inr refl, (inr refl, (inr refl, tt))))))),
        ),
        (
          (
            refl,
            (inr refl, (inl refl, (inr refl, (inr refl, (inr refl, (inr refl, (inr refl, tt))))))),
          ),
          (
            (
              refl,
              (
                inr refl,
                (inr refl, (inl refl, (inr refl, (inr refl, (inr refl, (inr refl, tt)))))),
              ),
            ),
            (
              (
                refl,
                (
                  inr refl,
                  (inr refl, (inr refl, (inl refl, (inr refl, (inr refl, (inr refl, tt)))))),
                ),
              ),
              (
                (
                  refl,
                  (
                    inr refl,
                    (inr refl, (inr refl, (inr refl, (inl refl, (inr refl, (inr refl, tt)))))),
                  ),
                ),
                (
                  (
                    refl,
                    (
                      inr refl,
                      (inr refl, (inr refl, (inr refl, (inr refl, (inl refl, (inr refl, tt)))))),
                    ),
                  ),
                  (
                    (
                      refl,
                      (
                        inr refl,
                        (inr refl, (inr refl, (inr refl, (inr refl, (inr refl, (inl refl, tt)))))),
                      ),
                    ),
                    tt,
                  ),
                ),
              ),
            ),
          ),
        ),
      )
      (
        new_root,
        (
          nothing_at (uniq (drawn (text "resource-crud") 0) (text "file.txt")) refl refl,
          (
            nothing_at (uniq (drawn (text "resource-crud") 1) (text "hello.txt")) refl refl,
            (
              nothing_at (uniq (drawn (text "resource-crud") 2) (text "does-not-exist.txt")) refl
                  refl,
              (
                nothing_at (uniq (drawn (text "resource-crud") 3) (text "overwrite.txt")) refl refl,
                (
                  nothing_at (uniq (drawn (text "resource-crud") 4) (text "todelete.txt")) refl
                      refl,
                  (
                    nothing_at (uniq (drawn (text "resource-crud") 5) (text "phantom.txt")) refl
                        refl,
                    (
                      nothing_at (uniq (drawn (text "resource-crud") 6) (text "data.ttl")) refl
                          refl,
                      tt,
                    ),
                  ),
                ),
              ),
            ),
          ),
        ),
      )
