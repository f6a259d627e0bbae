-- ===== src/ServerCore/Middleware.antt =====
-- server-core/src/middleware.rs: credential extraction and the CORS layer.
use solid_community_rs.Prelude.{◌≡◌, refl, Option, none, some, Text, text, text_eq, unwrap_or}
use mathlib.Core.Option
use solid_community_rs.Prelude.Split.{strip_prefix}
use solid_community_rs.ServerCore.Http.{
  HeaderValues, Request, Response, header, insert_header, header-insert_header,
}

-- The credentials that the middleware builds.
pub record Credentials : Type 0 where
  pub agent : Option Text
  pub issuer : Option Text

abbrev pub anonymous : Credentials
anonymous = record { agent = none; issuer = none }

unfoldable pub extract_credentials : HeaderValues → Request → Credentials
unfolding strip_prefix Option.bind
extract_credentials values req =
    let value = Option.bind (req.headers (text "authorization")) values.to_str in
    record { agent = Option.bind value (λ s. strip_prefix s (text "Bearer ")); issuer = none }

abbrev pub allow_origin : Text
allow_origin = text "access-control-allow-origin"

abbrev pub allow_headers : Text
allow_headers = text "access-control-allow-headers"

abbrev pub expose_headers : Text
expose_headers = text "access-control-expose-headers"

abbrev pub allowed : Text
allowed =
    text
      "Authorization, Content-Type, If-Match, If-None-Match, If-Modified-Since, If-Unmodified-Since"

abbrev pub exposed : Text
exposed = text "ETag, Last-Modified, Location, Link, WAC-Allow"

-- The headers that are set on a response, in their order.
unfoldable pub with_cors : Option Text → Response → Response
with_cors origin res = record res {
  headers = insert_header expose_headers exposed (
      insert_header allow_headers allowed
        (insert_header allow_origin (unwrap_or origin (text "*")) res.headers));
}

-- What runs below a layer: it gets the request and the credentials of its extensions.
abbrev pub Service : Type 0 → Type 0
Service S = Request → Option Credentials → S → Response × S

unfoldable pub cors_middleware : {S : Type 0} → HeaderValues → Service S → Service S
cors_middleware values next req _ s =
    let (res, s') = next req (some (extract_credentials values req)) s in
    (with_cors (req.headers (text "origin")) res, s')

-- Whatever the layers below answer, their status and body are kept, the origin of the request, or
-- `*` if it has none, is allowed, and the other CORS headers are set.
pub cors_middleware_lem :
    {S : Type 0} (values : HeaderValues) (next : Service S) (req : Request) (c : Option Credentials)
    (s : S)
    → let (inner, s') = next req (some (extract_credentials values req)) s in
      let (res, s'') = cors_middleware values next req c s in
      (s'' ≡ s')
      × (res.status ≡ inner.status)
      × (res.body ≡ inner.body)
      × (header allow_origin res.headers
          ≡ some (unwrap_or (req.headers (text "origin")) (text "*")))
      × (header allow_headers res.headers ≡ some allowed)
      × (header expose_headers res.headers ≡ some exposed)
unfolding cors_middleware with_cors text_eq
cors_middleware_lem values next req c s = (
  refl,
  refl,
  refl,
  simp header-insert_header refl,
  simp header-insert_header refl,
  simp header-insert_header refl,
)
