-- ===== src/ServerCore/Pipeline/Serving.antt =====
-- A server that starts with the new store and serves any requests.
use solid_community_rs.Prelude.{
  ◌≡◌, ◌≢◌, ◌⊎◌, arith, refl, List, [], ◌∷◌, Option, some, Option-cases, inl, inr, Text,
}
use solid_community_rs.ServerCore.Http.{HeaderValues, Request, Response}
use solid_community_rs.ServerCore.Store.{LdpStore, new}
use solid_community_rs.ServerCore.Handlers.{
  handle_get, handle_head, handle_options, handle_patch, handle_put, handle_post, handle_delete,
}
use solid_community_rs.ServerCore.Handlers.Reads.{head_agrees_with_get}
use solid_community_rs.ServerCore.Handlers.Safety.{
  Effect, kept, handle_put-Effect, handle_post-Effect, handle_delete-Effect, IsSound, new-IsSound,
  Effect-IsSound, get_no_error,
}
use solid_community_rs.ServerCore.Middleware.{Credentials, extract_credentials}
use solid_community_rs.ServerCore.Pipeline.{ldp_router, AuthzState, access_map, pipeline, serve}

module _ (values : HeaderValues) (unrouted : Response) where
  -- A request runs a handler that writes, or leaves the store alone.
  ldp_router-cases :
      (slug : Text) (req : Request) (c : Option Credentials) (s : LdpStore)
      → let s' = (ldp_router values unrouted slug req c s).1 in
        (s' ≡ s)
        ⊎ (s' ≡ (handle_put values req s).1)
        ⊎ (s' ≡ (handle_post values slug req s).1)
        ⊎ (s' ≡ (handle_delete req s).1)
  unfolding ldp_router handle_get handle_head handle_options handle_patch
  ldp_router-cases slug req c s = ground arith

  ldp_router-Effect :
      (slug : Text) (req : Request) (c : Option Credentials) (s : LdpStore)
      → Effect values s (ldp_router values unrouted slug req c s).1
  ldp_router-Effect slug req c s = elim (ldp_router-cases slug req c s) [
    | inl e ↦ kept e
    | inr (inl e) ↦ rw e (handle_put-Effect values req s)
    | inr (inr (inl e)) ↦ rw e (handle_post-Effect values slug req s)
    | inr (inr (inr e)) ↦ rw e (handle_delete-Effect values req s)
  ]

  pipeline-Effect :
      (authz : AuthzState) (slug : Text) (req : Request) (s : LdpStore)
      → Effect values s (pipeline values authz unrouted slug req s).1
  unfolding pipeline
  pipeline-Effect authz slug req s =
      elim (Option-cases (authz.permission_reader credentials (access_map req))) [
        | inl r ↦ rw r (kept refl)
        | inr (m, r) ↦ elim (Option-cases (authz.authorizer credentials (access_map req) m)) [
          | inl p ↦ rw r (rw p (ldp_router-Effect slug req (some credentials) s))
          | inr (e, d) ↦ rw r (rw d (kept refl))
        ]
      ]
    where
      credentials : Credentials
      credentials = extract_credentials values req

  serve-IsSound_from :
      (authz : AuthzState) (requests : List (Text × Request)) (s : LdpStore)
      → IsSound values s
      → IsSound values (serve values authz unrouted requests s)
  unfolding serve
  serve-IsSound_from authz [] s h = h
  serve-IsSound_from authz ((slug, req) ∷ rest) s h =
      serve-IsSound_from authz rest (pipeline values authz unrouted slug req s).1
        (Effect-IsSound values (pipeline-Effect authz slug req s) h)

  -- After any requests, permitted or not, the keys of the store are normalised, the container
  -- flags are those of the keys, and every content type can be written in a header.
  pub serve-IsSound :
      (authz : AuthzState) (requests : List (Text × Request))
      → IsSound values (serve values authz unrouted requests new)
  serve-IsSound authz requests = serve-IsSound_from authz requests new (new-IsSound values)

  -- After any requests a GET or a HEAD is never answered by a 500 of its handler.
  pub reads_never_fail :
      (authz : AuthzState) (requests : List (Text × Request)) (req : Request)
      → let s = serve values authz unrouted requests new in
        ((handle_get values req s).0.status ≢ 500) × ((handle_head values req s).0.status ≢ 500)
  reads_never_fail authz requests req =
      let s = serve values authz unrouted requests new in
      let fine = get_no_error values req s (serve-IsSound authz requests) in
      let ((same, _, _), _, _) = head_agrees_with_get values req s in (fine, rw same fine)
