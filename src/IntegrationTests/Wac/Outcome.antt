-- ===== src/IntegrationTests/Wac/Outcome.antt =====
-- What the suite on access control finds on the server that is modelled.
use solid_community_rs.Prelude.{
  ℕ, ◌≡◌, refl, ap, not, ◌==◌, ◌++◌, Option, none, some, Text, text, text_eq, is_some, List, [],
  ◌∷◌, All, slash, false,
}
use solid_community_rs.ServerCore.Http.{HeaderValues, Response}
use solid_community_rs.ServerCore.Store.{LdpStore}
use solid_community_rs.IntegrationTests.Client.{Answer, SolidClient, and_then, bail_if, clean_up}
use solid_community_rs.IntegrationTests.Serves.{passed, status_holds}
use solid_community_rs.IntegrationTests.Server.{Transport, IsFaithful, client}
use solid_community_rs.IntegrationTests.Server.Asked.{place}
use solid_community_rs.IntegrationTests.Server.Laws.{found_there, arrived-Serves}
use solid_community_rs.IntegrationTests.Wac.{
  public_path, acl_path, acl_prefix, public_readable, acl_protected, modes_advertised,
}

-- The paths of the cases, with the UUIDs that they draw.
abbrev pub wac_paths : (ℕ → Text) → List Text
wac_paths uuid = public_path (uuid 0) ∷ acl_path (uuid 1) ∷ acl_path (uuid 2) ∷ []

stopped :
    {S : Type 0} (o : Option Text) (e : Text) (next : S → Option Text × S) (s : S)
    → o ≡ some e
    → (and_then o next s).0 ≡ some e
stopped none e next s h = cc h
stopped (some d) e next s h = h

module _ (values : HeaderValues) (unrouted : Response) (slug : Text) (transport : Transport)
    (wildcard : Text → Option Text) (faithful : IsFaithful values transport wildcard) where
  abbrev server : SolidClient LdpStore
  server = client values unrouted slug transport

  -- An answer to a GET of the `.acl` document that was put.
  acl_shown :
      (path : Text) (s : LdpStore)
      → values.to_str (text "text/turtle") ≡ some (text "text/turtle")
      → place values unrouted slug transport wildcard faithful path ≡ path
      → text_eq (slash ∷ []) path ≡ false
      → let resp = (server.get path (server.put path acl_prefix (text "text/turtle") s).1).0 in
        (resp.status ≡ 200) × (resp.header (text "wac-allow") ≡ none)
  acl_shown path s turtle arrives not_root =
      let closed =
        arrived-Serves values unrouted slug transport wildcard faithful path arrives not_root in
      let u = (server.put path acl_prefix (text "text/turtle") s).1 in
      let (e, type, body, found) =
        found_there values unrouted slug transport wildcard faithful path u acl_prefix
          (text "text/turtle") (closed.stored acl_prefix (text "text/turtle") s refl turtle)
          turtle in
      (found.0, found.4)

  -- On the default pipeline and any store, the case on an unprotected resource passes, and the two
  -- cases on `.acl` documents fail: an anonymous GET of the document is answered by a 200, and the
  -- answer has no `WAC-Allow` header. The paths reach the router as they are written, and the two
  -- media types are read from header values as they were written.
  pub wac_outcome :
      (show : ℕ → Text) (show_headers : Answer → Text) (uuid : ℕ → Text) (s : LdpStore)
      → values.to_str (text "text/plain") ≡ some (text "text/plain")
      → values.to_str (text "text/turtle") ≡ some (text "text/turtle")
      → All (λ p. place values unrouted slug transport wildcard faithful p ≡ p) (wac_paths uuid)
      → ((public_readable server show show_headers (public_path (uuid 0)) s).0 ≡ none)
        × ((acl_protected server show show_headers (acl_path (uuid 1)) s).0
            ≡ some (text "expected 401 Unauthorized on .acl path, got " ++ show 200))
        × ((message : Text) × ((modes_advertised server show show_headers (acl_path (uuid 2)) s).0
              ≡ some message))
  unfolding text_eq public_readable acl_protected modes_advertised
  wac_outcome show show_headers uuid s plain turtle arrives =
      let open_path = public_path (uuid 0) in
      let one = acl_path (uuid 1) in
      let two = acl_path (uuid 2) in
      let open_to =
        arrived-Serves values unrouted slug transport wildcard faithful open_path arrives.0 refl in
      let t = (server.put open_path (text "public content") (text "text/plain") s).1 in
      let u = (server.put two acl_prefix (text "text/turtle") s).1 in
      (
        passed _ (clean_up server open_path) _
            (status_holds show (server.get open_path t).0 200 (
              open_to.got_status t _ (text "text/plain")
                (open_to.stored (text "public content") (text "text/plain") s refl plain) plain))
            refl,
        stopped _ _ (clean_up server one) _ (
            ap
              (λ n.
                bail_if (not (n == 401))
                  (text "expected 401 Unauthorized on .acl path, got " ++ show n))
              (acl_shown one s turtle arrives.1.0 refl).0),
        (
          _,
          stopped _ _ (clean_up server two) _ (
              ap
                (λ o. bail_if (not (is_some o)) (
                  text "expected WAC-Allow header on response to .acl path, got headers: "
                  ++ show_headers (server.get two u).0))
                (acl_shown two s turtle arrives.1.1.0 refl).1),
        ),
      )
