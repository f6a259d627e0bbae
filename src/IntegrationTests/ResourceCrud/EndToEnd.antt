-- ===== src/IntegrationTests/ResourceCrud/EndToEnd.antt =====
-- The suite on resources passes on the server that is modelled.
use solid_community_rs.Prelude.{
  ℕ, ◌≡◌, refl, [], ◌∷◌, none, some, List, Text, text, text_eq, All, Option,
}
use solid_community_rs.ServerCore.Http.{HeaderValues, Response}
use solid_community_rs.ServerCore.Store
use solid_community_rs.ServerCore.Store.{LdpStore}
use solid_community_rs.IntegrationTests.Client.{SolidClient}
use solid_community_rs.IntegrationTests.Serves.{Serves}
use solid_community_rs.IntegrationTests.ResourceCrud.{uniq, cases}
use solid_community_rs.IntegrationTests.ResourceCrud.Passing.{
  put_creates_passes, get_returns_passes, get_absent_passes, put_overwrites_passes,
  delete_removes_passes, delete_absent_passes, get_keeps_type_passes,
}
use solid_community_rs.IntegrationTests.Server.{Transport, IsFaithful, client}
use solid_community_rs.IntegrationTests.Server.Asked.{place}
use solid_community_rs.IntegrationTests.Server.Laws.{look, IsReadable, not_there, arrived-Serves}

-- The paths of the cases, with the UUIDs that they draw, and those of them where the cases expect
-- nothing.
abbrev pub crud_paths : (ℕ → Text) → List Text
crud_paths uuid =
    uniq (uuid 0) (text "file.txt")
    ∷ uniq (uuid 1) (text "hello.txt")
    ∷ uniq (uuid 2) (text "does-not-exist.txt")
    ∷ uniq (uuid 3) (text "overwrite.txt")
    ∷ uniq (uuid 4) (text "todelete.txt")
    ∷ uniq (uuid 5) (text "phantom.txt")
    ∷ uniq (uuid 6) (text "data.ttl")
    ∷ []

abbrev pub crud_free : (ℕ → Text) → List Text
crud_free uuid =
    uniq (uuid 0) (text "file.txt")
    ∷ uniq (uuid 2) (text "does-not-exist.txt")
    ∷ uniq (uuid 5) (text "phantom.txt")
    ∷ []

module _ (values : HeaderValues) (unrouted : Response) (slug : Text) (transport : Transport)
    (wildcard : Text → Option Text) (faithful : IsFaithful values transport wildcard) where
  abbrev server : SolidClient LdpStore
  server = client values unrouted slug transport

  laws :
      (uuid suffix : Text)
      → place values unrouted slug transport wildcard faithful (uniq uuid suffix) ≡ uniq uuid suffix
      → Serves server
          (uniq uuid suffix)
          (IsReadable values)
          (look values unrouted slug transport wildcard faithful (uniq uuid suffix))
  unfolding text_eq
  laws uuid suffix arrives =
      arrived-Serves values unrouted slug transport wildcard faithful (uniq uuid suffix) arrives
        refl

  -- Every case of the suite on resources passes on the default pipeline and any store, if the paths
  -- of the cases reach the router as they are written, nothing is stored at the three where the cases
  -- expect nothing, and the two content types of the suite are read from header values as they were
  -- written.
  pub resource_crud_passes :
      (show : ℕ → Text) (uuid : ℕ → Text) (s : LdpStore)
      → values.to_str (text "text/plain") ≡ some (text "text/plain")
      → values.to_str (text "text/turtle") ≡ some (text "text/turtle")
      → All (λ p. place values unrouted slug transport wildcard faithful p ≡ p) (crud_paths uuid)
      → All (λ p. Store.get p s ≡ none) (crud_free uuid)
      → All (λ x. (x.run s).0 ≡ none) (cases server show uuid)
  resource_crud_passes show uuid s plain turtle arrives free = (
    (put_creates_passes server show (uniq (uuid 0) (text "file.txt")) _ _
        (laws (uuid 0) (text "file.txt") arrives.0) plain turtle s
        (not_there values unrouted slug transport wildcard faithful s
          (uniq (uuid 0) (text "file.txt")) (arrives.0, free.0))).0,
    (
      (get_returns_passes server show (uniq (uuid 1) (text "hello.txt")) _ _
          (laws (uuid 1) (text "hello.txt") arrives.1.0) plain turtle s).0,
      (
        (get_absent_passes server show (uniq (uuid 2) (text "does-not-exist.txt")) _ _
            (laws (uuid 2) (text "does-not-exist.txt") arrives.1.1.0) plain turtle s
            (not_there values unrouted slug transport wildcard faithful s
              (uniq (uuid 2) (text "does-not-exist.txt")) (arrives.1.1.0, free.1.0))).0,
        (
          (put_overwrites_passes server show (uniq (uuid 3) (text "overwrite.txt")) _ _
              (laws (uuid 3) (text "overwrite.txt") arrives.1.1.1.0) plain turtle s).0,
          (
            (delete_removes_passes server show (uniq (uuid 4) (text "todelete.txt")) _ _
                (laws (uuid 4) (text "todelete.txt") arrives.1.1.1.1.0) plain turtle s).0,
            (
              (delete_absent_passes server show (uniq (uuid 5) (text "phantom.txt")) _ _
                  (laws (uuid 5) (text "phantom.txt") arrives.1.1.1.1.1.0) plain turtle s
                  (not_there values unrouted slug transport wildcard faithful s
                    (uniq (uuid 5) (text "phantom.txt")) (arrives.1.1.1.1.1.0, free.1.1.0))).0,
              (
                (get_keeps_type_passes server show (uniq (uuid 6) (text "data.ttl")) _ _
                    (laws (uuid 6) (text "data.ttl") arrives.1.1.1.1.1.1.0) plain turtle s).0,
                tt,
              ),
            ),
          ),
        ),
      ),
    ),
  )
