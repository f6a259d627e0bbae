-- ===== src/IntegrationTests/AllSuites/Answers.antt =====
-- The suites on `Accept` and on errors, on what the suites before left in the server that is modelled.
use solid_community_rs.Prelude.{ℕ, ◌≡◌, true, List, [], ◌∷◌, none, some, Option, Text, text, All}
use solid_community_rs.ServerCore.Http.{HeaderValues, Response}
use solid_community_rs.ServerCore.Store
use solid_community_rs.ServerCore.Store.{Entry, LdpStore}
use solid_community_rs.IntegrationTests.Client.{SolidClient}
use solid_community_rs.IntegrationTests.Serves.{is_ascii}
use solid_community_rs.IntegrationTests.Tidy.{IsTidy, Keeps, keeping-IsPassing}
use solid_community_rs.IntegrationTests.Server.{Transport, IsFaithful, client}
use solid_community_rs.IntegrationTests.Server.Asked.{place, get_kept}
use solid_community_rs.IntegrationTests.Server.Laws.{IsReadable}
use solid_community_rs.IntegrationTests.Server.Frame.{IsReady, InUse, IsApart, server-IsTidy}
use solid_community_rs.IntegrationTests.Negotiation
use solid_community_rs.IntegrationTests.Negotiation.{path_of, json_ld, unsupported}
use solid_community_rs.IntegrationTests.Negotiation.Passing.{negotiation_passes}
use solid_community_rs.IntegrationTests.ErrorResponses
use solid_community_rs.IntegrationTests.ErrorResponses.{
  unknown_path, patch_path, nope_path, deep_path,
}
use solid_community_rs.IntegrationTests.ErrorResponses.Passing.{error_responses_pass}
use solid_community_rs.IntegrationTests.Runner.Passing.{IsPassing}
use solid_community_rs.IntegrationTests.AllSuites.Keeping.{
  negotiated-Keeps, patch-Keeps, deep-Keeps, asked-Keeps,
}

-- The paths that the cases on `Accept` write.
abbrev pub negotiated_paths : (ℕ → Text) → List Text
negotiated_paths uuid =
    path_of (uuid 0) (text "ttl")
    ∷ path_of (uuid 1) (text "ttl")
    ∷ path_of (uuid 2) (text "txt")
    ∷ path_of (uuid 3) (text "txt")
    ∷ []

module _ (values : HeaderValues) (unrouted : Response) (slug : Text) (transport : Transport)
    (wildcard : Text → Option Text) (faithful : IsFaithful values transport wildcard)
    (show : ℕ → Text) (e : Entry) (free : List Text)
    (plain : values.to_str (text "text/plain") ≡ some (text "text/plain"))
    (turtle : values.to_str (text "text/turtle") ≡ some (text "text/turtle")) where
  abbrev server : SolidClient LdpStore
  server = client values unrouted slug transport

  abbrev Ready : LdpStore → Type 0
  Ready = IsReady e free

  abbrev Arrives : Text → Type 0
  Arrives p = place values unrouted slug transport wildcard faithful p ≡ p

  tidy :
      (p : Text)
      → Arrives p
      → IsApart free p p
      → IsTidy server p (IsReadable values) Ready (InUse e free p)
  tidy p = server-IsTidy values unrouted slug transport wildcard faithful p e free

  negotiated_kept :
      (path : Text)
      → Arrives path
      → IsApart free path path
      → Keeps Ready (Negotiation.turtle_returned server show path)
        × Keeps Ready (Negotiation.json_ld_negotiated server show path)
        × Keeps Ready (Negotiation.plain_echoed server show path)
        × Keeps Ready (Negotiation.unsupported_refused server show path)
  negotiated_kept path arrives apart =
      negotiated-Keeps server show (IsReadable values) Ready plain turtle path (InUse e free path)
        (tidy path arrives apart)

  pub negotiation_part :
      (uuid : ℕ → Text)
      → values.to_str json_ld ≡ some json_ld
      → values.to_str unsupported ≡ some unsupported
      → ((i : ℕ) (ext : Text) → Arrives (path_of (uuid i) ext))
      → All (λ p. IsApart free p p) (negotiated_paths uuid)
      → All (IsPassing Ready) (Negotiation.cases server show uuid)
  negotiation_part uuid json other arrives apart =
      keeping-IsPassing Ready (Negotiation.cases server show uuid)
        (λ s p.
          negotiation_passes values unrouted slug transport wildcard faithful show uuid s turtle
            json plain other arrives)
        (
          (negotiated_kept (path_of (uuid 0) (text "ttl")) (arrives 0 (text "ttl")) apart.0).0,
          (
            (negotiated_kept (path_of (uuid 1) (text "ttl")) (arrives 1 (text "ttl")) apart.1.0).1,
            (
              (negotiated_kept (path_of (uuid 2) (text "txt")) (arrives 2 (text "txt"))
                  apart.1.1.0).2,
              (
                (negotiated_kept (path_of (uuid 3) (text "txt")) (arrives 3 (text "txt"))
                    apart.1.1.1.0).3,
                tt,
              ),
            ),
          ),
        )

  asked_part :
      (path : Text)
      → Keeps Ready (ErrorResponses.unknown_missing server show path)
        × Keeps Ready (ErrorResponses.missing_described server show path)
  asked_part path =
      asked-Keeps server show (IsReadable values) Ready plain turtle path
        (λ s p. rw (get_kept values unrouted slug transport wildcard faithful path s) p)

  pub errors_part :
      (uuid : ℕ → Text)
      → is_ascii (uuid 2) ≡ true
      → Arrives (unknown_path (uuid 0))
      → Arrives (patch_path (uuid 1))
      → Arrives (nope_path (uuid 2))
      → Arrives (deep_path (uuid 3))
      → IsApart free (patch_path (uuid 1)) (patch_path (uuid 1))
      → IsApart free (deep_path (uuid 3)) (deep_path (uuid 3))
      → ((s : LdpStore)
          → Ready s
          → All
              (λ j. Store.get j s ≡ none)
              (unknown_path (uuid 0) ∷ nope_path (uuid 2) ∷ deep_path (uuid 3) ∷ []))
      → All (IsPassing Ready) (ErrorResponses.cases server show uuid)
  errors_part uuid ascii unknown patch nope deep patch_apart deep_apart absent =
      keeping-IsPassing Ready (ErrorResponses.cases server show uuid)
        (λ s p.
          let free = absent s p in
          error_responses_pass values unrouted slug transport wildcard faithful show uuid s plain
            ascii (unknown, free.0) patch (nope, free.1.0) (deep, free.1.1.0))
        (
          (asked_part (unknown_path (uuid 0))).0,
          (
            patch-Keeps server show (IsReadable values) Ready plain turtle (patch_path (uuid 1))
                (InUse e free (patch_path (uuid 1))) (tidy (patch_path (uuid 1)) patch patch_apart),
            (
              (asked_part (nope_path (uuid 2))).1,
              (
                deep-Keeps server show (IsReadable values) Ready plain turtle (deep_path (uuid 3))
                    (InUse e free (deep_path (uuid 3))) (tidy (deep_path (uuid 3)) deep deep_apart),
                tt,
              ),
            ),
          ),
        )
