-- ===== src/ServerCore/Pipeline.antt =====
-- server-core/src/routing.rs and server-core/src/pipeline.rs: the route table, the authorisation
-- layer and the whole request pipeline.
pub mod Access
pub mod Serving
use solid_community_rs.Prelude.{
  ℕ, Bool, true, false, List, [], ◌∷◌, ◌++◌, Option, none, some, Text, text, text_eq, unwrap_or,
  map, if◌then◌else◌,
}
use solid_community_rs.Prelude.HashMap
use solid_community_rs.Prelude.HashMap.{HashMap}
use solid_community_rs.Prelude.Split.{utf8}
use solid_community_rs.HttpTypes.Error
use solid_community_rs.HttpTypes.Error.{SolidError}
use solid_community_rs.HttpTypes.Operation.{AccessMode, read, write}
use solid_community_rs.ServerCore.Http.{HeaderValues, Request, Response, status_only, content_type}
use solid_community_rs.ServerCore.Handlers.{
  handle_get, handle_head, handle_put, handle_post, handle_delete, handle_options, handle_patch,
  plain,
}
use solid_community_rs.ServerCore.Middleware.{
  Credentials, anonymous, Service, cors_middleware, extract_credentials,
}
use solid_community_rs.ServerCore.Store.{LdpStore}

-- Both routes have the same table of methods. `unrouted` is axum's answer to any other method, and
-- `slug` the UUID that a POST would draw.
unfoldable pub ldp_router : HeaderValues → Response → Text → Service LdpStore
ldp_router values unrouted slug req _ s =
    if text_eq req.method (text "GET")
    then handle_get values req s
    else if text_eq req.method (text "HEAD")
    then handle_head values req s
    else if text_eq req.method (text "PUT")
    then handle_put values req s
    else if text_eq req.method (text "POST")
    then handle_post values slug req s
    else if text_eq req.method (text "DELETE")
    then handle_delete req s
    else if text_eq req.method (text "OPTIONS")
    then handle_options req s
    else if text_eq req.method (text "PATCH")
    then handle_patch req s
    else (unrouted, s)

abbrev pub AccessMap : Type 0
AccessMap = HashMap (List AccessMode)

abbrev pub PermissionMap : Type 0
PermissionMap = HashMap (List (AccessMode × Bool))

-- The interfaces of the crate authz: a reader gives nothing if it fails, and an authorizer nothing if
-- it permits.
abbrev pub PermissionReader : Type 0
PermissionReader = Credentials → AccessMap → Option PermissionMap

abbrev pub Authorizer : Type 0
Authorizer = Credentials → AccessMap → PermissionMap → Option SolidError

pub record AuthzState : Type 0 where
  pub permission_reader : PermissionReader
  pub authorizer : Authorizer

-- HTTP method → access mode
unfoldable pub requested_mode : Text → AccessMode
requested_mode method =
    if text_eq method (text "GET")
    then read
    else if text_eq method (text "HEAD")
    then read
    else if text_eq method (text "OPTIONS")
    then read
    else if text_eq method (text "PUT")
    then write
    else if text_eq method (text "POST")
    then write
    else if text_eq method (text "PATCH")
    then write
    else if text_eq method (text "DELETE")
    then write
    else read

unfoldable pub access_map : Request → AccessMap
access_map req = HashMap.insert req.path (requested_mode req.method ∷ []) HashMap.empty

abbrev pub www_authenticate : Text
www_authenticate = text "www-authenticate"

-- `into_response` of the triple: a text body sets the content type, the given headers follow.
unfoldable pub unauthorized : SolidError → Response
unauthorized e = record {
  status = 401;
  headers = (content_type, plain) ∷ (www_authenticate, text "Bearer") ∷ [];
  body = utf8 (text "401 Unauthorized: " ++ Error.to_string e);
}

abbrev pub after_authorize :
    {S : Type 0} → Option SolidError → (S → Response × S) → S → Response × S
after_authorize (some e) run s = (unauthorized e, s)
after_authorize none run s = run s

abbrev pub after_read :
    {S : Type 0}
    → (PermissionMap → Option SolidError)
    → Option PermissionMap
    → (S → Response × S)
    → S
    → Response × S
after_read authorize none run s = (status_only 500, s)
after_read authorize (some m) run s = after_authorize (authorize m) run s

unfoldable pub authz_middleware : {S : Type 0} → AuthzState → Service S → Service S
authz_middleware authz next req extension s =
    let credentials = unwrap_or extension anonymous in
    let modes = access_map req in
    after_read (authz.authorizer credentials modes) (authz.permission_reader credentials modes)
      (next req extension) s

-- `PassThroughPermissionReader::read`: every requested mode is permitted.
abbrev pub permit_all : List AccessMode → List (AccessMode × Bool)
permit_all modes = map (λ m. (m, true)) modes

abbrev pub permit_each : List (Text × List AccessMode) → PermissionMap → PermissionMap
permit_each [] m = m
permit_each ((resource, modes) ∷ rest) m =
    permit_each rest (HashMap.insert resource (permit_all modes) m)

unfoldable pub pass_through_reader : PermissionReader
pass_through_reader _ requested = some (permit_each (HashMap.entries requested) HashMap.empty)

unfoldable pub pass_through_authorizer : Authorizer
pass_through_authorizer _ _ _ = none

-- `RequestPipeline::default`
abbrev pub pass_through : AuthzState
pass_through = record {
  permission_reader = pass_through_reader;
  authorizer = pass_through_authorizer;
}

-- `RequestPipeline::build_router`: CORS outside, then authorisation, then the routes.
unfoldable pub pipeline :
    HeaderValues → AuthzState → Response → Text → Request → LdpStore → Response × LdpStore
unfolding cors_middleware authz_middleware
pipeline values authz unrouted slug req s =
    cors_middleware values (authz_middleware authz (ldp_router values unrouted slug)) req none s

-- Requests one after another, each with the UUID that it would draw; the responses are dropped.
pub serve : HeaderValues → AuthzState → Response → List (Text × Request) → LdpStore → LdpStore
serve values authz unrouted [] s = s
serve values authz unrouted ((slug, req) ∷ rest) s =
    serve values authz unrouted rest (pipeline values authz unrouted slug req s).1
