-- ===== src/ServerCore/Pipeline/Access.antt =====
-- What the authorisation layer lets through.
use solid_community_rs.Prelude.{
  ◌≡◌, ◌≢◌, ◌↔◌, refl, Option, none, some, arith, Text, text, text_eq, text_eq_iff, [], ◌∷◌, ◌⊎◌,
  inl, inr, Option-cases,
}
use solid_community_rs.HttpTypes.Operation.{
  HttpMethod, read, write, get, head, put, patch, delete, post, options, to_string,
  required_access_modes,
}
use solid_community_rs.HttpTypes.Error.{SolidError}
use solid_community_rs.ServerCore.Http.{HeaderValues, Request, Response, status_only}
use solid_community_rs.ServerCore.Handlers.{handle_get, handle_head, handle_options, handle_patch}
use solid_community_rs.ServerCore.Middleware.{Credentials, extract_credentials, with_cors}
use solid_community_rs.ServerCore.Store.{LdpStore}
use solid_community_rs.ServerCore.Pipeline.{
  ldp_router, requested_mode, PermissionMap, AuthzState, AccessMap, access_map, unauthorized,
  pipeline, pass_through, pass_through_reader, pass_through_authorizer,
}

-- A method that asks for the mode Read does not write the store.
read_keeps_store :
    (values : HeaderValues) (unrouted : Response) (slug : Text) (req : Request)
    (c : Option Credentials) (s : LdpStore)
    → requested_mode req.method ≡ read
    → (ldp_router values unrouted slug req c s).1 ≡ s
unfolding ldp_router requested_mode handle_get handle_head handle_options handle_patch
read_keeps_store values unrouted slug req c s h = ground (
  arith,
  text_eq_iff req.method (text "GET"),
  text_eq_iff req.method (text "HEAD"),
  text_eq_iff req.method (text "PUT"),
  text_eq_iff req.method (text "POST"),
  text_eq_iff req.method (text "DELETE"),
  text_eq_iff req.method (text "OPTIONS"),
)

-- A request whose permissions cannot be read leaves the store as it was, and is answered by a 500
-- with the CORS headers.
unread_keeps_store :
    (values : HeaderValues) (authz : AuthzState) (unrouted : Response) (slug : Text) (req : Request)
    (s : LdpStore)
    → authz.permission_reader (extract_credentials values req) (access_map req) ≡ none
    → pipeline values authz unrouted slug req s
      ≡ (with_cors (req.headers (text "origin")) (status_only 500), s)
unfolding pipeline
unread_keeps_store values authz unrouted slug req s r = rw r refl

-- A request that the authorizer denies leaves the store as it was, and is answered by a 401 with
-- the message of the error and the CORS headers, whatever the error.
denied_keeps_store :
    (values : HeaderValues) (authz : AuthzState) (unrouted : Response) (slug : Text) (req : Request)
    (s : LdpStore) (m : PermissionMap) (e : SolidError)
    → authz.permission_reader (extract_credentials values req) (access_map req) ≡ some m
    → authz.authorizer (extract_credentials values req) (access_map req) m ≡ some e
    → pipeline values authz unrouted slug req s
      ≡ (with_cors (req.headers (text "origin")) (unauthorized e), s)
unfolding pipeline
denied_keeps_store values authz unrouted slug req s m e r d = rw r (rw d refl)

requested_mode-cases : (t : Text) → (requested_mode t ≡ read) ⊎ (requested_mode t ≡ write)
unfolding requested_mode
requested_mode-cases t = ground arith

-- A request changes the store only if its permissions were read, the authorizer permitted it, and
-- the mode that was asked for is Write.
pub writes_are_authorized :
    (values : HeaderValues) (authz : AuthzState) (unrouted : Response) (slug : Text) (req : Request)
    (s : LdpStore)
    → (pipeline values authz unrouted slug req s).1 ≢ s
    → let credentials = extract_credentials values req in
      (m : PermissionMap) × (authz.permission_reader credentials (access_map req) ≡ some m)
      × (authz.authorizer credentials (access_map req) m ≡ none)
      × (requested_mode req.method ≡ write)
unfolding pipeline
writes_are_authorized values authz unrouted slug req s changed =
    elim (Option-cases (authz.permission_reader credentials modes)) [
      | inl r ↦ absurd (changed (rw r refl))
      | inr (m, r) ↦ elim (Option-cases (authz.authorizer credentials modes m)) [
        | inr (e, d) ↦ absurd (changed (rw r (rw d refl)))
        | inl p ↦ elim (requested_mode-cases req.method) [
          | inr w ↦ (m, r, p, w)
          | inl q ↦ absurd (
              changed
                (rw r (rw p (read_keeps_store values unrouted slug req (some credentials) s q))))
        ]
      ]
    ]
  where
    credentials : Credentials
    credentials = extract_credentials values req

    modes : AccessMap
    modes = access_map req

-- The default pipeline permits every request: its response is that of the routes with the CORS
-- headers, and so is the store.
default_permits :
    (values : HeaderValues) (unrouted : Response) (slug : Text) (req : Request) (s : LdpStore)
    → let (res, s') =
        ldp_router values unrouted slug req (some (extract_credentials values req)) s in
      pipeline values pass_through unrouted slug req s
      ≡ (with_cors (req.headers (text "origin")) res, s')
unfolding pipeline pass_through_reader pass_through_authorizer
default_permits values unrouted slug req s = refl

-- The middleware asks for just the one mode that the operation requires exactly if the method is
-- neither POST nor OPTIONS.
requested_mode_iff :
    (m : HttpMethod)
    → (required_access_modes m ≡ requested_mode (to_string m) ∷ []) ↔ (m ≢ post) × (m ≢ options)
unfolding required_access_modes requested_mode to_string text_eq
requested_mode_iff get = (λ _. (λ h. cc h, λ h. cc h), λ _. refl)
requested_mode_iff head = (λ _. (λ h. cc h, λ h. cc h), λ _. refl)
requested_mode_iff put = (λ _. (λ h. cc h, λ h. cc h), λ _. refl)
requested_mode_iff patch = (λ _. (λ h. cc h, λ h. cc h), λ _. refl)
requested_mode_iff delete = (λ _. (λ h. cc h, λ h. cc h), λ _. refl)
requested_mode_iff post = (λ h. cc h, λ n. absurd (n.0 refl))
requested_mode_iff options = (λ h. cc h, λ n. absurd (n.1 refl))
