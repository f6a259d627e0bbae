-- ===== src/IntegrationTests/Server/Asked.antt =====
-- What the requests of the client for a path get from the store.
use solid_community_rs.Prelude.{
  ℕ, ◌≡◌, refl, ap, ◌∙◌, Bool, true, false, not, List, [], ◌∷◌, ◌++◌, Option, none, some, Text,
  text, text_eq, unwrap_or, if◌then◌else◌,
}
use solid_community_rs.Prelude.Split.{utf8}
use solid_community_rs.ServerCore.Http.{
  HeaderValues, Headers, Request, Response, header, status_only, content_type, link,
  header-insert_header,
}
use solid_community_rs.ServerCore.Accept.{accept_satisfied}
use solid_community_rs.ServerCore.Middleware.{with_cors}
use solid_community_rs.ServerCore.Store
use solid_community_rs.ServerCore.Store.{Entry, LdpStore}
use solid_community_rs.ServerCore.Handlers.{
  resolve_path, header_text, request_type, default_type, put_body, handle_put, handle_get,
  handle_delete, handle_patch, get_entry, not_found, not_acceptable, refuses, container_link,
  resource_link,
}
use solid_community_rs.ServerCore.Handlers.Reads.{served, get_entry-served}
use solid_community_rs.IntegrationTests.Client.{Answer, SolidClient, accept}
use solid_community_rs.IntegrationTests.Server.{
  Transport, IsFaithful, open_accept, client, answer_of, answered, ask, put_at, get_at, delete_at,
  patch_at,
}

removed_status :
    (k : Text) (b : Bool)
    → (if b then status_only 204 else not_found k).status ≡ (if b then 204 else 404)
unfolding not_found
removed_status k true = refl
removed_status k false = refl

module _ (values : HeaderValues) (unrouted : Response) (slug : Text) (transport : Transport)
    (wildcard : Text → Option Text) (faithful : IsFaithful values transport wildcard)
    (path : Text) where
  -- The key of the path in the store.
  abbrev pub place : Text
  place = resolve_path (wildcard path)

  place_sent :
      (m : Text) (b : Option (List ℕ)) (hs : Headers)
      → resolve_path (transport.arrive m path b hs).wildcard ≡ place
  place_sent m b hs = ap resolve_path (faithful.path_sent m path b hs)

  abbrev pub typed : Text → Headers
  typed type = (content_type, type) ∷ []

  pub type_sent :
      (m type : Text) (b : Option (List ℕ))
      → values.to_str type ≡ some type
      → request_type values (transport.arrive m path b (typed type)) ≡ type
  unfolding header text_eq
  type_sent m type b readable =
      ap (λ o. unwrap_or o default_type)
        (faithful.header_sent m path content_type type b (typed type) refl readable)

  abbrev pub server : SolidClient LdpStore
  server = client values unrouted slug transport

  -- A PUT is answered by 201 or 204 and stores the body with its content type.
  pub put_asked :
      (body type : Text) (s : LdpStore)
      → values.to_str type ≡ some type
      → ((server.put path body type s).1 ≡ (Store.put place (utf8 body) type s).1)
        × ((server.put path body type s).0.status
            ≡ (if (Store.put place (utf8 body) type s).0 then 201 else 204))
  unfolding handle_put put_body with_cors
  put_asked body type s readable =
      let req = transport.arrive (text "PUT") path (some (utf8 body)) (typed type) in
      let same =
        put_at values unrouted slug transport req s (faithful.method_sent _ path _ _)
        ∙ ap (λ b. answered values unrouted slug transport req (put_body values req b s))
            (faithful.body_sent _ path (utf8 body) _) in
      let stored =
        ap (λ x. Store.put x (utf8 body) (request_type values req) s) (place_sent _ _ _)
        ∙ ap (λ x. Store.put place (utf8 body) x s) (type_sent _ type _ readable) in
      (
        ap (λ a. a.1) same ∙ ap (λ o. o.1) stored,
        ap (λ a. a.0.status) same ∙ ap (λ o. if o.0 then 201 else 204) stored,
      )

  abbrev get_request : Headers → Request
  get_request hs = transport.arrive (text "GET") path none hs

  -- The `Accept` header that a GET arrives with.
  abbrev pub wish : Headers → Option Text
  wish hs = header_text values (get_request hs) accept

  -- A GET is answered by the resource at the place.
  get_answer :
      (hs : Headers) (s : LdpStore) (r : Response)
      → get_entry values place (wish hs) (Store.get place s) ≡ r
      → ask values unrouted slug transport (get_request hs) s
        ≡ answer_of values unrouted slug transport
            (with_cors ((get_request hs).headers (text "origin")) r, s)
  unfolding handle_get
  get_answer hs s r e =
      get_at values unrouted slug transport (get_request hs) s (faithful.method_sent _ path _ _)
      ∙ ap (λ x. answered values unrouted slug transport (get_request hs) (x, s))
          (ap (λ k. get_entry values k (wish hs) (Store.get k s)) (place_sent _ _ _) ∙ e)

  -- A GET changes nothing.
  pub get_kept : (s : LdpStore) → (server.get path s).1 ≡ s
  get_kept s = ap (λ a. a.1) (get_answer [] s _ refl)

  abbrev pub link_of : Entry → Text
  link_of e = if e.is_container then container_link else resource_link

  -- The answer to a GET of an entry.
  abbrev pub Shows : Answer → Entry → Type 0
  Shows resp e =
      (resp.status ≡ 200)
      × (resp.body ≡ transport.decode e.body)
      × (resp.header content_type ≡ some e.content_type)
      × (resp.header link ≡ some (link_of e))
      × (resp.header (text "wac-allow") ≡ none)

  get-Shows :
      (hs : Headers) (s : LdpStore) (e : Entry)
      → Store.get place s ≡ some e
      → refuses (wish hs) e.content_type ≡ false
      → values.is_valid e.content_type ≡ true
      → Shows (ask values unrouted slug transport (get_request hs) s).0 e
  unfolding with_cors header text_eq
  get-Shows hs s e there wanted valid =
      let same = get_answer hs s (served values e.body e.content_type e.is_container) (
        ap (get_entry values place (wish hs)) there
        ∙ get_entry-served values place (wish hs) e wanted valid) in
      (
        ap (λ a. a.0.status) same,
        ap (λ a. a.0.body) same,
        ap (λ a. a.0.header content_type) same ∙ (simp header-insert_header refl),
        ap (λ a. a.0.header link) same ∙ (simp header-insert_header refl),
        ap (λ a. a.0.header (text "wac-allow")) same ∙ (simp header-insert_header refl),
      )

  pub get_found :
      (s : LdpStore) (e : Entry)
      → Store.get place s ≡ some e
      → values.is_valid e.content_type ≡ true
      → Shows (server.get path s).0 e
  unfolding header
  get_found s e there valid =
      get-Shows [] s e there
        (open_accept _ e.content_type (faithful.accept_unsent _ path _ [] refl)) valid

  abbrev wants : Text → Headers
  wants a = (accept, a) ∷ []

  pub get_accept_kept : (a : Text) (s : LdpStore) → (server.get_accept path a s).1 ≡ s
  get_accept_kept a s = ap (λ r. r.1) (get_answer (wants a) s _ refl)

  wished : (a : Text) → values.to_str a ≡ some a → wish (wants a) ≡ some a
  unfolding header text_eq
  wished a readable = faithful.header_sent _ path accept a _ (wants a) refl readable

  pub get_accepted :
      (s : LdpStore) (e : Entry) (a : Text)
      → Store.get place s ≡ some e
      → values.is_valid e.content_type ≡ true
      → values.to_str a ≡ some a
      → accept_satisfied a e.content_type ≡ true
      → Shows (server.get_accept path a s).0 e
  unfolding refuses
  get_accepted s e a there valid readable satisfied =
      get-Shows (wants a) s e there
        (ap (λ w. refuses w e.content_type) (wished a readable) ∙ ap not satisfied) valid

  pub get_refused :
      (s : LdpStore) (e : Entry) (a : Text)
      → Store.get place s ≡ some e
      → values.to_str a ≡ some a
      → accept_satisfied a e.content_type ≡ false
      → (server.get_accept path a s).0.status ≡ 406
  unfolding refuses get_entry with_cors not_acceptable
  get_refused s e a there readable satisfied =
      let same = get_answer (wants a) s (not_acceptable a e.content_type) (
        ap (λ w. get_entry values place w (Store.get place s)) (wished a readable)
        ∙ ap (get_entry values place (some a)) there
        ∙ (rw satisfied refl)) in
      ap (λ r. r.0.status) same

  pub get_missing :
      (s : LdpStore)
      → Store.get place s ≡ none
      → ((server.get path s).0.status ≡ 404)
        × ((server.get path s).0.body ≡ transport.decode (utf8 (text "404 Not Found: " ++ place)))
  unfolding with_cors get_entry not_found
  get_missing s absent =
      let same = get_answer [] s (not_found place) (ap (get_entry values place (wish [])) absent) in
      (ap (λ r. r.0.status) same, ap (λ r. r.0.body) same)

  pub delete_asked :
      (s : LdpStore)
      → ((server.delete path s).1 ≡ (Store.delete place s).1)
        × ((server.delete path s).0.status ≡ (if (Store.delete place s).0 then 204 else 404))
  unfolding handle_delete with_cors not_found
  delete_asked s =
      let req = transport.arrive (text "DELETE") path none [] in
      let same = delete_at values unrouted slug transport req s (faithful.method_sent _ path _ _) in
      (
        ap (λ a. a.1) same ∙ ap (λ k. (Store.delete k s).1) (place_sent _ _ _),
        ap (λ a. a.0.status) same
            ∙ ap (λ k. (if (Store.delete k s).0 then status_only 204 else not_found k).status)
                (place_sent _ _ _)
            ∙ removed_status place (Store.delete place s).0,
      )

  pub patch_asked :
      (body type : Text) (s : LdpStore) → (server.patch path body type s).0.status ≡ 415
  unfolding handle_patch with_cors
  patch_asked body type s =
      ap (λ a. a.0.status)
        (patch_at values unrouted slug transport _ s (faithful.method_sent _ path _ _))
