-- ===== src/IntegrationTests/AllSuites/Parts.antt =====
-- The suites on health, resources and containers, each on what the suites before left in the server that is modelled.
use solid_community_rs.Prelude.{
  ℕ, ◌≡◌, ap, sym, ◌∙◌, true, List, ◌∷◌, ◌++◌, none, some, Option, Text, text, slash,
  trim_end_matches, inl, inr, All,
}
use solid_community_rs.ServerCore.Http.{HeaderValues, Response}
use solid_community_rs.ServerCore.Store
use solid_community_rs.ServerCore.Store.{Entry, LdpStore}
use solid_community_rs.ServerCore.Store.Keys.{trim-key-cases, key-slash}
use solid_community_rs.IntegrationTests.Client.{SolidClient}
use solid_community_rs.IntegrationTests.Tidy.{IsTidy, Keeps, keeping-IsPassing}
use solid_community_rs.IntegrationTests.Server.{Transport, IsFaithful, client}
use solid_community_rs.IntegrationTests.Server.Asked.{place, get_kept}
use solid_community_rs.IntegrationTests.Server.Laws.{IsReadable}
use solid_community_rs.IntegrationTests.Server.Frame.{
  IsReady, InUse, IsApart, put-InUse, normal_key, server-IsTidy,
}
use solid_community_rs.IntegrationTests.Health
use solid_community_rs.IntegrationTests.Health.EndToEnd
use solid_community_rs.IntegrationTests.Health.EndToEnd.{health-Keeps}
use solid_community_rs.IntegrationTests.ResourceCrud
use solid_community_rs.IntegrationTests.ResourceCrud.{uniq}
use solid_community_rs.IntegrationTests.ResourceCrud.EndToEnd.{
  crud_paths, crud_free, resource_crud_passes,
}
use solid_community_rs.IntegrationTests.Containers
use solid_community_rs.IntegrationTests.Containers.{container_path}
use solid_community_rs.IntegrationTests.Containers.EndToEnd.{
  container_paths, child_of, post_stores, containers_pass,
}
use solid_community_rs.IntegrationTests.Runner.Passing.{IsPassing}
use solid_community_rs.IntegrationTests.AllSuites.Keeping.{crud-Keeps, containers_keep, post-Keeps}

module _ (values : HeaderValues) (unrouted : Response) (slug : Text) (transport : Transport)
    (wildcard : Text → Option Text) (faithful : IsFaithful values transport wildcard)
    (show : ℕ → Text) (e : Entry) (free : List Text)
    (plain : values.to_str (text "text/plain") ≡ some (text "text/plain"))
    (turtle : values.to_str (text "text/turtle") ≡ some (text "text/turtle")) where
  abbrev server : SolidClient LdpStore
  server = client values unrouted slug transport

  abbrev Ready : LdpStore → Type 0
  Ready = IsReady e free

  abbrev Arrives : Text → Type 0
  Arrives p = place values unrouted slug transport wildcard faithful p ≡ p

  tidy :
      (p : Text)
      → Arrives p
      → IsApart free p p
      → IsTidy server p (IsReadable values) Ready (InUse e free p)
  tidy p = server-IsTidy values unrouted slug transport wildcard faithful p e free

  pub health_part :
      Arrives (text "/")
      → values.is_valid e.content_type ≡ true
      → All (IsPassing Ready) (Health.cases server show)
  health_part arrives valid =
      keeping-IsPassing Ready (Health.cases server show)
        (λ s p.
          EndToEnd.passes values unrouted slug transport wildcard faithful show s e
            (ap (λ k. Store.get k s) arrives ∙ p.0) valid)
        (health-Keeps values unrouted slug transport wildcard faithful show Ready)

  crud_kept :
      (path : Text)
      → Arrives path
      → IsApart free path path
      → Keeps Ready (ResourceCrud.put_creates server show path)
        × Keeps Ready (ResourceCrud.get_returns server show path)
        × Keeps Ready (ResourceCrud.get_absent server show path)
        × Keeps Ready (ResourceCrud.put_overwrites server show path)
        × Keeps Ready (ResourceCrud.delete_removes server show path)
        × Keeps Ready (ResourceCrud.delete_absent server show path)
        × Keeps Ready (ResourceCrud.get_keeps_type server show path)
  crud_kept path arrives apart =
      crud-Keeps server show (IsReadable values) Ready plain turtle path (InUse e free path)
        (tidy path arrives apart)

  pub crud_part :
      (uuid : ℕ → Text)
      → All Arrives (crud_paths uuid)
      → All (λ p. IsApart free p p) (crud_paths uuid)
      → ((s : LdpStore) → Ready s → All (λ j. Store.get j s ≡ none) (crud_free uuid))
      → All (IsPassing Ready) (ResourceCrud.cases server show uuid)
  crud_part uuid arrives apart absent =
      keeping-IsPassing Ready (ResourceCrud.cases server show uuid)
        (λ s p.
          resource_crud_passes values unrouted slug transport wildcard faithful show uuid s plain
            turtle arrives (absent s p))
        (
          (crud_kept (uniq (uuid 0) (text "file.txt")) arrives.0 apart.0).0,
          (
            (crud_kept (uniq (uuid 1) (text "hello.txt")) arrives.1.0 apart.1.0).1,
            (
              (crud_kept (uniq (uuid 2) (text "does-not-exist.txt")) arrives.1.1.0 apart.1.1.0).2,
              (
                (crud_kept (uniq (uuid 3) (text "overwrite.txt")) arrives.1.1.1.0 apart.1.1.1.0).3,
                (
                  (crud_kept (uniq (uuid 4) (text "todelete.txt")) arrives.1.1.1.1.0
                      apart.1.1.1.1.0).4,
                  (
                    (crud_kept (uniq (uuid 5) (text "phantom.txt")) arrives.1.1.1.1.1.0
                        apart.1.1.1.1.1.0).5,
                    (
                      (crud_kept (uniq (uuid 6) (text "data.ttl")) arrives.1.1.1.1.1.1.0
                          apart.1.1.1.1.1.1.0).6,
                      tt,
                    ),
                  ),
                ),
              ),
            ),
          ),
        )

  key-child_of :
      (path : Text)
      → Store.key path ≡ path
      → let child = child_of values unrouted slug transport wildcard faithful path in
        Store.key child ≡ child
  key-child_of path normal = elim (trim-key-cases path) [
    | inl e ↦ rw (sym (ap (λ k. trim_end_matches k slash) normal) ∙ e) (key-slash slug)
    | inr (u, e) ↦
        rw (sym (ap (λ k. trim_end_matches k slash) normal) ∙ e) (key-slash (u ++ slash ∷ slug))
  ]

  child_kept :
      (path : Text)
      → Arrives path
      → IsApart free path (child_of values unrouted slug transport wildcard faithful path)
      → (b t : Text) (s : LdpStore) → IsReadable values t
      → InUse e free path s
      → InUse e free path (server.post path b t s).1
  child_kept path arrives apart b t s r q =
      let (t', stored) =
        post_stores values unrouted slug transport wildcard faithful path b t s arrives in
      rw stored (
        put-InUse e free path _ _ t' s
          (key-child_of path
            (normal_key values unrouted slug transport wildcard faithful path e free arrives))
          apart q)

  container_kept :
      (path : Text)
      → Arrives path
      → IsApart free path path
      → Keeps Ready (Containers.put_creates server show path)
        × Keeps Ready (Containers.get_links server show path)
        × Keeps Ready (Containers.delete_removes server show path)
  container_kept path arrives apart =
      containers_keep server show (IsReadable values) Ready plain turtle path (InUse e free path)
        (tidy path arrives apart)

  pub containers_part :
      (uuid : ℕ → Text)
      → Arrives (text "/")
      → All Arrives (container_paths uuid)
      → values.is_valid e.content_type ≡ true
      → (let child =
            child_of values unrouted slug transport wildcard faithful (container_path (uuid 2)) in
          (values.is_valid child ≡ true) × IsApart free (container_path (uuid 2)) child)
      → All (λ p. IsApart free p p) (container_paths uuid)
      → ((s : LdpStore) → Ready s → Store.get (container_path (uuid 1)) s ≡ none)
      → All (IsPassing Ready) (Containers.cases server show uuid)
  unfolding Containers.root_responds
  containers_part uuid root arrives valid (child_valid, child_apart) apart absent =
      let two = container_path (uuid 2) in
      keeping-IsPassing Ready (Containers.cases server show uuid)
        (λ s p.
          containers_pass values unrouted slug transport wildcard faithful show uuid s e plain
            turtle root p.0 valid arrives (absent s p) child_valid)
        (
          λ s p h. rw (get_kept values unrouted slug transport wildcard faithful (text "/") s) p,
          (
            (container_kept (container_path (uuid 1)) arrives.0 apart.0).0,
            (
              post-Keeps server show (IsReadable values) Ready plain turtle two (InUse e free two)
                  (tidy two arrives.1.0 apart.1.0) (child_kept two arrives.1.0 child_apart),
              (
                (container_kept (container_path (uuid 3)) arrives.1.1.0 apart.1.1.0).1,
                ((container_kept (container_path (uuid 4)) arrives.1.1.1.0 apart.1.1.1.0).2, tt),
              ),
            ),
          ),
        )
