-- ===== src/IntegrationTests/AllSuites/FullRun.antt =====
-- A run of all suites on the server that is modelled, case after case on what the cases before left.
use solid_community_rs.Prelude.{ℕ, ◌≡◌, List, [], ◌∷◌, Option, Text, text}
use solid_community_rs.ServerCore.Http.{HeaderValues, Response}
use solid_community_rs.ServerCore.Store.{LdpStore}
use solid_community_rs.IntegrationTests.Client.{SolidClient}
use solid_community_rs.IntegrationTests.Server.{Transport, IsFaithful, client}
use solid_community_rs.IntegrationTests.Server.Asked.{place}
use solid_community_rs.IntegrationTests.Health
use solid_community_rs.IntegrationTests.ResourceCrud
use solid_community_rs.IntegrationTests.ResourceCrud.EndToEnd.{crud_free}
use solid_community_rs.IntegrationTests.Containers
use solid_community_rs.IntegrationTests.Containers.{container_path}
use solid_community_rs.IntegrationTests.Negotiation
use solid_community_rs.IntegrationTests.ErrorResponses
use solid_community_rs.IntegrationTests.ErrorResponses.{
  unknown_path, patch_path, nope_path, deep_path,
}
use solid_community_rs.IntegrationTests.Wac
use solid_community_rs.IntegrationTests.Wac.{acl_path}

-- The paths where the suites expect nothing before their cases, and those that the suite on errors
-- asks for.
abbrev pub free_paths : (Text → ℕ → Text) → List Text
free_paths uuid =
    let u = uuid (text "error-responses") in
    container_path (uuid (text "containers") 1)
    ∷ unknown_path (u 0)
    ∷ nope_path (u 2)
    ∷ deep_path (u 3)
    ∷ crud_free (uuid (text "resource-crud"))

abbrev pub error_paths : (ℕ → Text) → List Text
error_paths u = unknown_path (u 0) ∷ patch_path (u 1) ∷ nope_path (u 2) ∷ deep_path (u 3) ∷ []

module _ (values : HeaderValues) (unrouted : Response) (slug : Text) (transport : Transport)
    (wildcard : Text → Option Text) (faithful : IsFaithful values transport wildcard) where
  abbrev server : SolidClient LdpStore
  server = client values unrouted slug transport

  abbrev Arrives : Text → Type 0
  Arrives p = place values unrouted slug transport wildcard faithful p ≡ p
