-- ===== src/ServerCore/Handlers.antt =====
-- server-core/src/ldp_handlers.rs: the handlers of the LDP methods, as functions from the store to
-- the response and the store. Logging is left out.
pub mod Reads
pub mod Writes
pub mod Safety
use solid_community_rs.Prelude.{
  ℕ, Bool, true, false, List, [], ◌∷◌, ◌++◌, Option, none, some, Text, text, slash, starts_with,
  trim_end_matches, not, ◌&&◌, unwrap_or, if◌then◌else◌,
}
use mathlib.Core.Option
use solid_community_rs.Prelude.Split.{utf8}
use solid_community_rs.ServerCore.Http.{
  HeaderValues, Request, Headers, Response, status_only, content_type, link, location,
}
use solid_community_rs.ServerCore.Accept.{accept_satisfied}
use solid_community_rs.ServerCore.Store
use solid_community_rs.ServerCore.Store.{Entry, LdpStore}

-- Resolve the request path to a store key.
unfoldable pub resolve_path : Option Text → Text
unfolding starts_with
resolve_path none = slash ∷ []
resolve_path (some []) = slash ∷ []
resolve_path (some (c ∷ p)) = if starts_with (c ∷ p) (slash ∷ []) then c ∷ p else slash ∷ c ∷ p

abbrev pub plain : Text
plain = text "text/plain; charset=utf-8"

unfoldable pub not_found : Text → Response
not_found path = record {
  status = 404;
  headers = (content_type, plain) ∷ [];
  body = utf8 (text "404 Not Found: " ++ path);
}

unfoldable pub not_acceptable : Text → Text → Response
not_acceptable accept stored_ct = record {
  status = 406;
  headers = (content_type, plain) ∷ [];
  body = utf8 (
      text "406 Not Acceptable: cannot serve '"
      ++ stored_ct
      ++ text "' as '"
      ++ accept
      ++ text "'");
}

abbrev pub container_link : Text
container_link =
    text
      "<http://www.w3.org/ns/ldp#Container>; rel=\"type\", <http://www.w3.org/ns/ldp#Resource>; rel=\"type\""

abbrev pub resource_link : Text
resource_link = text "<http://www.w3.org/ns/ldp#Resource>; rel=\"type\""

abbrev pub default_type : Text
default_type = text "application/octet-stream"

-- The `Link` header that a container's response has.
abbrev pub container_headers : Bool → Headers
container_headers container = if container then (link, container_link) ∷ [] else []

-- An `Accept` header that the stored type does not satisfy.
unfoldable pub refuses : Option Text → Text → Bool
refuses none stored_ct = false
refuses (some accept) stored_ct = not (accept_satisfied accept stored_ct)

-- The key of the child that a POST creates; `slug` is the fresh UUID.
unfoldable pub child_key : Text → Request → Text
child_key slug req = trim_end_matches (resolve_path req.wildcard) slash ++ slash ∷ slug

module _ (values : HeaderValues) where
  -- `req.headers().get(name).and_then(|v| v.to_str().ok())`
  unfoldable pub header_text : Request → Text → Option Text
  unfolding Option.bind
  header_text req name = Option.bind (req.headers name) values.to_str

  -- A response whose builder was given `value`: an invalid value makes it a bare 500.
  unfoldable pub checked : Text → Response → Response
  checked value res = if values.is_valid value then res else status_only 500

  -- The `Some(entry)` branch of GET, after the negotiation.
  abbrev pub found : Entry → Response
  found entry = checked entry.content_type (record {
    status = 200;
    headers =
        (content_type, entry.content_type)
        ∷ (link, if entry.is_container then container_link else resource_link)
        ∷ [];
    body = entry.body;
  })

  -- HEAD names the type of a container only.
  abbrev pub found_head : Entry → Response
  found_head entry = checked entry.content_type (record {
    status = 200;
    headers = (content_type, entry.content_type) ∷ container_headers entry.is_container;
    body = [];
  })

  -- The `match` of GET on the entry.
  unfoldable pub get_entry : Text → Option Text → Option Entry → Response
  get_entry k accept none = not_found k
  get_entry k accept (some entry) =
      if refuses accept entry.content_type
      then not_acceptable (unwrap_or accept []) entry.content_type
      else found entry

  unfoldable pub handle_get : Request → LdpStore → Response × LdpStore
  unfolding get_entry
  handle_get req s =
      let k = resolve_path req.wildcard in
      (get_entry k (header_text req (text "accept")) (Store.get k s), s)

  -- The `match` of HEAD on the entry.
  unfoldable pub head_entry : Text → Option Text → Option Entry → Response
  head_entry k accept none = not_found k
  head_entry k accept (some entry) =
      if refuses accept entry.content_type
      then not_acceptable (unwrap_or accept []) entry.content_type
      else found_head entry

  unfoldable pub handle_head : Request → LdpStore → Response × LdpStore
  unfolding head_entry
  handle_head req s =
      let k = resolve_path req.wildcard in
      (head_entry k (header_text req (text "accept")) (Store.get k s), s)

  abbrev pub request_type : Request → Text
  request_type req = unwrap_or (header_text req content_type) default_type

  unfoldable pub put_body : Request → Option (List ℕ) → LdpStore → Response × LdpStore
  put_body req none s = (status_only 400, s)
  put_body req (some body) s =
      let k = resolve_path req.wildcard in
      let (created, s') = Store.put k body (request_type req) s in
      (
        record {
          status = if created then 201 else 204;
          headers = container_headers (Store.is_container k);
          body = [];
        },
        s',
      )

  unfoldable pub handle_put : Request → LdpStore → Response × LdpStore
  unfolding put_body
  handle_put req s = put_body req req.body s

  unfoldable pub post_body : Text → Request → Option (List ℕ) → LdpStore → Response × LdpStore
  post_body slug req none s = (status_only 400, s)
  post_body slug req (some body) s =
      let child = child_key slug req in
      (
        checked child (record { status = 201; headers = (location, child) ∷ []; body = [] }),
        (Store.put child body (request_type req) s).1,
      )

  unfoldable pub handle_post : Text → Request → LdpStore → Response × LdpStore
  unfolding post_body
  handle_post slug req s = post_body slug req req.body s

unfoldable pub handle_delete : Request → LdpStore → Response × LdpStore
handle_delete req s =
    let k = resolve_path req.wildcard in
    let (removed, s') = Store.delete k s in (if removed then status_only 204 else not_found k, s')

unfoldable pub handle_options : Request → LdpStore → Response × LdpStore
handle_options req s = (
  record {
    status = 204;
    headers = (text "allow", text "GET, HEAD, PUT, POST, DELETE, OPTIONS, PATCH") ∷ [];
    body = [];
  },
  s,
)

unfoldable pub handle_patch : Request → LdpStore → Response × LdpStore
handle_patch req s = (
  record {
    status = 415;
    headers = (content_type, plain) ∷ [];
    body = utf8 (text "415 Unsupported patch Content-Type");
  },
  s,
)
