-- ===== src/IntegrationTests/Containers/EndToEnd.antt =====
-- The suite on containers passes on the server that is modelled.
use solid_community_rs.Prelude.{
  ℕ, List, ◌≡◌, refl, ap, ◌∙◌, true, [], ◌∷◌, ◌++◌, Option, none, some, Text, text, text_eq, slash,
  trim_end_matches, ends_with, if◌then◌else◌, All,
}
use solid_community_rs.Prelude.Split.{utf8, contains}
use solid_community_rs.ServerCore.Http.{
  HeaderValues, Response, header, content_type, location, header-insert_header,
}
use solid_community_rs.ServerCore.Middleware.{with_cors}
use solid_community_rs.ServerCore.Store
use solid_community_rs.ServerCore.Store.{Entry, LdpStore}
use solid_community_rs.ServerCore.Store.Access.{written, get-put_self}
use solid_community_rs.ServerCore.Handlers.{
  resolve_path, request_type, handle_post, post_body, child_key, container_link, resource_link,
}
use solid_community_rs.ServerCore.Handlers.Writes.{post_answer}
use solid_community_rs.IntegrationTests.Client.{SolidClient}
use solid_community_rs.IntegrationTests.Server.{Transport, IsFaithful, client, answered, post_at}
use solid_community_rs.IntegrationTests.Server.Asked.{place, put_asked, get_found}
use solid_community_rs.IntegrationTests.Server.Laws.{not_there, arrived-Serves}
use solid_community_rs.IntegrationTests.Containers.{container_path, cases}
use solid_community_rs.IntegrationTests.Containers.Passing.{
  root_passes, put_passes, post_passes, links_passes, delete_passes,
}

ends_with-slash : (t : Text) → ends_with (t ++ slash ∷ []) slash ≡ true
unfolding ends_with
ends_with-slash [] = refl
ends_with-slash (x ∷ []) = refl
ends_with-slash (x ∷ y ∷ t) = ends_with-slash (y ∷ t)

container_path-Container : (uuid : Text) → Store.is_container (container_path uuid) ≡ true
unfolding container_path Store.is_container Store.key
container_path-Container uuid = ends_with-slash (text "/test-" ++ uuid)

-- The paths of the cases, with the UUIDs that they draw.
abbrev pub container_paths : (ℕ → Text) → List Text
container_paths uuid =
    container_path (uuid 1)
    ∷ container_path (uuid 2)
    ∷ container_path (uuid 3)
    ∷ container_path (uuid 4)
    ∷ []

module _ (values : HeaderValues) (unrouted : Response) (slug : Text) (transport : Transport)
    (wildcard : Text → Option Text) (faithful : IsFaithful values transport wildcard) where
  abbrev server : SolidClient LdpStore
  server = client values unrouted slug transport

  -- The key of the child that a POST to the path creates.
  abbrev pub child_of : Text → Text
  child_of path = trim_end_matches path slash ++ slash ∷ slug

  post_asked :
      (path body type : Text) (s : LdpStore)
      → place values unrouted slug transport wildcard faithful path ≡ path
      → values.is_valid (child_of path) ≡ true
      → let resp = (server.post path body type s).0 in
        (resp.status ≡ 201) × (resp.header location ≡ some (child_of path))
  unfolding handle_post with_cors header text_eq child_key
  post_asked path body type s arrives valid =
      let req =
        transport.arrive (text "POST") path (some (utf8 body)) ((content_type, type) ∷ []) in
      let same =
        post_at values unrouted slug transport req s (faithful.method_sent _ path _ _)
        ∙ ap (λ b. answered values unrouted slug transport req (post_body values slug req b s))
            (faithful.body_sent _ path (utf8 body) _) in
      let (status, located) = post_answer values slug req (utf8 body) s in
      let child : child_key slug req ≡ child_of path =
        ap (λ k. trim_end_matches k slash ++ slash ∷ slug)
          (ap resolve_path (faithful.path_sent _ path _ _) ∙ arrives) in
      let fits : values.is_valid (child_key slug req) ≡ true = ap values.is_valid child ∙ valid in
      (
        ap (λ a. a.0.status) same ∙ status ∙ ap (λ b. if b then 201 else 500) fits,
        ap (λ a. a.0.header location) same
            ∙ (simp header-insert_header refl)
            ∙ located
            ∙ ap (λ b. if b then some (child_key slug req) else none) fits
            ∙ ap (λ k. some k) child,
      )

  -- A POST puts the child and nothing else.
  pub post_stores :
      (path body type : Text) (s : LdpStore)
      → place values unrouted slug transport wildcard faithful path ≡ path
      → (t : Text) × ((server.post path body type s).1
          ≡ (Store.put (child_of path) (utf8 body) t s).1)
  unfolding handle_post post_body child_key
  post_stores path body type s arrives =
      let req =
        transport.arrive (text "POST") path (some (utf8 body)) ((content_type, type) ∷ []) in
      (
        request_type values req,
        ap (λ a. a.1)
              (post_at values unrouted slug transport req s (faithful.method_sent _ path _ _)
                ∙ ap
                    (λ b.
                      answered values unrouted slug transport req (post_body values slug req b s))
                    (faithful.body_sent _ path (utf8 body) _))
            ∙ ap
                (λ k.
                  (Store.put (trim_end_matches k slash ++ slash ∷ slug) (utf8 body)
                    (request_type values req) s).1)
                (ap resolve_path (faithful.path_sent _ path _ _) ∙ arrives),
      )

  container_links :
      (path type : Text) (s : LdpStore)
      → values.to_str type ≡ some type
      → place values unrouted slug transport wildcard faithful path ≡ path
      → Store.is_container path ≡ true
      → (server.get path (server.put path [] type s).1).0.header (text "link") ≡ some container_link
  container_links path type s readable arrives slashed =
      let at = place values unrouted slug transport wildcard faithful path in
      let t = (server.put path [] type s).1 in
      let there : Store.get at t ≡ some (written at (utf8 []) type) =
        ap (Store.get at)
          (put_asked values unrouted slug transport wildcard faithful path [] type s readable).0
        ∙ get-put_self at (utf8 []) type s in
      let found =
        get_found values unrouted slug transport wildcard faithful path t
          (written at (utf8 []) type) there (values.to_str_valid type type readable) in
      found.3
      ∙ ap (λ b. some (if b then container_link else resource_link))
          (ap Store.is_container arrives ∙ slashed)

  -- Every case of the suite on containers passes on the default pipeline and any store that has its
  -- root with a content type that can be written in a header, if the paths reach the router as they
  -- are written, nothing is stored where a container is to be created, the key of the child that is
  -- posted can be written in a header, and the two media types are read from header values as they
  -- were written.
  pub containers_pass :
      (show : ℕ → Text) (uuid : ℕ → Text) (s : LdpStore) (e : Entry)
      → values.to_str (text "text/plain") ≡ some (text "text/plain")
      → values.to_str (text "text/turtle") ≡ some (text "text/turtle")
      → place values unrouted slug transport wildcard faithful (text "/") ≡ text "/"
      → Store.get (text "/") s ≡ some e
      → values.is_valid e.content_type ≡ true
      → All
          (λ p. place values unrouted slug transport wildcard faithful p ≡ p)
          (container_paths uuid)
      → Store.get (container_path (uuid 1)) s ≡ none
      → values.is_valid (child_of (container_path (uuid 2))) ≡ true
      → All (λ x. (x.run s).0 ≡ none) (cases server show uuid)
  unfolding text_eq container_path contains
  containers_pass show uuid s e plain turtle root there valid arrives free child =
      let two = container_path (uuid 2) in
      let stored = (server.put two [] (text "text/turtle") s).1 in
      let (posted, located) =
        post_asked two (text "child content") (text "text/plain") stored arrives.1.0 child in
      let root_found =
        get_found values unrouted slug transport wildcard faithful (text "/") s e
          (ap (λ k. Store.get k s) root ∙ there) valid in
      (
        root_passes server show s root_found.0,
        (
          put_passes server show (container_path (uuid 1)) _ _
              (arrived-Serves values unrouted slug transport wildcard faithful
                (container_path (uuid 1)) arrives.0 refl)
              turtle s
              (not_there values unrouted slug transport wildcard faithful s
                (container_path (uuid 1)) (arrives.0, free)),
          (
            post_passes server show two _ s posted located,
            (
              links_passes server show (container_path (uuid 3)) _ _
                  (arrived-Serves values unrouted slug transport wildcard faithful
                    (container_path (uuid 3)) arrives.1.1.0 refl)
                  turtle s container_link
                  (container_links (container_path (uuid 3)) (text "text/turtle") s turtle
                    arrives.1.1.0 (container_path-Container (uuid 3)))
                  refl,
              (
                delete_passes server show (container_path (uuid 4)) _ _
                    (arrived-Serves values unrouted slug transport wildcard faithful
                      (container_path (uuid 4)) arrives.1.1.1.0 refl)
                    turtle s,
                tt,
              ),
            ),
          ),
        ),
      )
