-- ===== src/IntegrationTests/Health/EndToEnd.antt =====
-- The suite on the health of a server passes on the server that is modelled, while it has its root.
use solid_community_rs.Prelude.{
  ℕ, ◌≡◌, ◌↔◌, refl, sym, ap, ◌∙◌, true, false, not, ◌&&◌, ◌==◌, [], ◌++◌, Option, none, some, inl,
  inr, Text, text, is_some, is_empty, Option-cases, All,
}
use solid_community_rs.ServerCore.Http.{HeaderValues, Response, header}
use solid_community_rs.ServerCore.Middleware.{with_cors}
use solid_community_rs.ServerCore.Store
use solid_community_rs.ServerCore.Store.{Entry, LdpStore}
use solid_community_rs.ServerCore.Handlers.{
  resolve_path, header_text, refuses, checked, head_entry, handle_head, handle_options,
}
use solid_community_rs.ServerCore.Handlers.Safety.{IsSound}
use solid_community_rs.IntegrationTests.Client.{SolidClient, accept, bail_if, is_success}
use solid_community_rs.IntegrationTests.Serves.{passed}
use solid_community_rs.IntegrationTests.Tidy.{Keeps, passed_on}
use solid_community_rs.IntegrationTests.Server.{
  Transport, IsFaithful, open_accept, client, answered, head_at, options_at,
}
use solid_community_rs.IntegrationTests.Server.Asked.{place, get_found, get_kept, get_missing}
use solid_community_rs.IntegrationTests.Server.Laws.{exists_get}
use solid_community_rs.IntegrationTests.Health.{root, get_root, options_root, head_root, cases}

module _ (values : HeaderValues) (unrouted : Response) (slug : Text) (transport : Transport)
    (wildcard : Text → Option Text) (faithful : IsFaithful values transport wildcard) where
  abbrev server : SolidClient LdpStore
  server = client values unrouted slug transport

  options_asked : (path : Text) (s : LdpStore) → (server.options path s).0.status ≡ 204
  unfolding handle_options with_cors
  options_asked path s =
      ap (λ a. a.0.status)
        (options_at values unrouted slug transport _ s (faithful.method_sent _ path _ _))

  head_served :
      (accept : Option Text) (k : Text) (e : Entry)
      → refuses accept e.content_type ≡ false
      → values.is_valid e.content_type ≡ true
      → let r = head_entry values k accept (some e) in (r.status ≡ 200) × (r.body ≡ [])
  unfolding head_entry checked
  head_served accept k e wanted valid = rw (wanted, valid) (refl, refl)

  -- A HEAD of what is there has a 200 and no body.
  head_found :
      (path : Text) (s : LdpStore) (e : Entry)
      → Store.get (place values unrouted slug transport wildcard faithful path) s ≡ some e
      → values.is_valid e.content_type ≡ true
      → let resp = (server.head path s).0 in (resp.status ≡ 200) × (resp.bytes ≡ [])
  unfolding handle_head with_cors header
  head_found path s e there valid =
      let req = transport.arrive (text "HEAD") path none [] in
      let k = place values unrouted slug transport wildcard faithful path in
      let wish = header_text values req accept in
      let same =
        head_at values unrouted slug transport req s (faithful.method_sent _ path _ _)
        ∙ ap (λ x. answered values unrouted slug transport req (x, s))
            (ap (λ w. head_entry values (resolve_path w) wish (Store.get (resolve_path w) s))
                (faithful.path_sent _ path _ _)
              ∙ ap (head_entry values k wish) there) in
      let (status, body) =
        head_served wish k e
          (open_accept wish e.content_type (faithful.accept_unsent _ path _ [] refl)) valid in
      (ap (λ a. a.0.status) same ∙ status, ap (λ a. a.0.bytes) same ∙ body)

  pub passes :
      (show : ℕ → Text) (s : LdpStore) (e : Entry)
      → Store.get (place values unrouted slug transport wildcard faithful root) s ≡ some e
      → values.is_valid e.content_type ≡ true
      → All (λ x. (x.run s).0 ≡ none) (cases server show)
  unfolding get_root options_root head_root
  passes show s e there valid =
      let found = get_found values unrouted slug transport wildcard faithful root s e there valid in
      let (status, bytes) = head_found root s e there valid in
      (
        ap
            (λ n.
              bail_if (not (n == 200) && not (n == 401))
                (text "expected 200 or 401 from GET /, got " ++ show n))
            found.0,
        (
          ap
              (λ n.
                bail_if (not (n == 204) && not (n == 200))
                  (text "expected 200 or 204 from OPTIONS /, got " ++ show n))
              (options_asked root s),
          (
            passed _ _ _
                (ap
                  (λ n.
                    bail_if (not (is_success n) && not (n == 401))
                      (text "HEAD / returned unexpected " ++ show n))
                  status)
                (ap (λ b. bail_if (not (is_empty b)) (text "HEAD / returned a non-empty body"))
                  bytes),
            tt,
          ),
        ),
      )

  options_kept : (path : Text) (s : LdpStore) → (server.options path s).1 ≡ s
  unfolding handle_options
  options_kept path s =
      ap (λ a. a.1)
        (options_at values unrouted slug transport _ s (faithful.method_sent _ path _ _))

  head_kept : (path : Text) (s : LdpStore) → (server.head path s).1 ≡ s
  unfolding handle_head
  head_kept path s =
      ap (λ a. a.1) (head_at values unrouted slug transport _ s (faithful.method_sent _ path _ _))

  -- The cases change nothing.
  pub health-Keeps :
      (show : ℕ → Text) (P : LdpStore → Type 0) → All (λ x. Keeps P x.run) (cases server show)
  unfolding get_root options_root head_root
  health-Keeps show P = (
    λ s p h. rw (get_kept values unrouted slug transport wildcard faithful root s) p,
    (
      λ s p h. rw (options_kept root s) p,
      (
        λ s p h.
            let resp = (server.head root s).0 in
            passed_on P
              (bail_if (not (is_success resp.status) && not (resp.status == 401))
                (text "HEAD / returned unexpected " ++ show resp.status))
              (λ u.
                (bail_if (not (is_empty resp.bytes)) (text "HEAD / returned a non-empty body"), u))
              (server.head root s).1 (λ x. rw (head_kept root s) p) h,
        tt,
      ),
    ),
  )

  fails :
      (show : ℕ → Text) (s : LdpStore)
      → Store.get (place values unrouted slug transport wildcard faithful root) s ≡ none
      → ¬ ((get_root server show s).0 ≡ none)
  unfolding get_root
  fails show s absent h =
      let failed =
        ap
          (λ n.
            bail_if (not (n == 200) && not (n == 401))
              (text "expected 200 or 401 from GET /, got " ++ show n))
          (get_missing values unrouted slug transport wildcard faithful root s absent).0 in
      cc (h, failed)

  -- On the default pipeline and any store that requests can leave, the cases of the suite on health
  -- pass if the store has its root, and only then; the path of the root reaches the router as it is
  -- written.
  pub health_passes_iff :
      (show : ℕ → Text) (s : LdpStore)
      → IsSound values s
      → place values unrouted slug transport wildcard faithful root ≡ root
      → All (λ x. (x.run s).0 ≡ none) (cases server show) ↔ (Store.exists root s ≡ true)
  unfolding Store.get
  health_passes_iff show s sound arrives = elim (Option-cases (Store.get root s)) [
    | inl absent ↦ (
      λ h. absurd (fails show s (ap (λ k. Store.get k s) arrives ∙ absent) h.0),
      λ h. let gone : true ≡ false = sym h ∙ exists_get root s ∙ ap is_some absent in cc gone,
    )
    | inr (e, there) ↦ (
      λ h. exists_get root s ∙ ap is_some there,
      λ h.
          passes show s e (ap (λ k. Store.get k s) arrives ∙ there)
            (sound.types_valid.at_key (Store.key root) e there),
    )
  ]
