-- ===== src/IntegrationTests/Server.antt =====
-- The client over the model of the server: its requests go through the default pipeline to the
-- handlers of their methods.
pub mod Asked
pub mod Laws
pub mod Frame
use solid_community_rs.Prelude.{
  ℕ, ◌≡◌, refl, ap, ◌⊎◌, inl, inr, true, false, List, Option, none, some, Text, text, text_eq,
}
use solid_community_rs.Prelude.Split.{utf8}
use solid_community_rs.ServerCore.Http.{HeaderValues, Headers, Request, Response, header}
use solid_community_rs.ServerCore.Accept.{accept_satisfied, any_type}
use solid_community_rs.ServerCore.Middleware.{with_cors}
use solid_community_rs.ServerCore.Store.{LdpStore}
use solid_community_rs.ServerCore.Handlers.{
  header_text, refuses, handle_get, handle_head, handle_put, handle_post, handle_delete,
  handle_options, handle_patch,
}
use solid_community_rs.ServerCore.Pipeline.{
  ldp_router, pipeline, pass_through, pass_through_reader, pass_through_authorizer,
}
use solid_community_rs.IntegrationTests.Client.{Answer, SolidClient, accept, client_of}
use solid_community_rs.IntegrationTests.Serves.{is_ascii}

-- What reqwest, url and axum make of a request of the client on its way to the pipeline, and how a
-- body is read as text.
pub record Transport : Type 0 where
  pub arrive : Text → Text → Option (List ℕ) → Headers → Request
  pub decode : List ℕ → Text

-- The method, the body and headers that are readable text arrive, ASCII text is read as it was, a
-- client that sends no `Accept` has none or that of reqwest, which accepts everything, and the
-- router extracts the same from each request for a path.
pub record IsFaithful (values : HeaderValues) (transport : Transport)
    (wildcard : Text → Option Text) : Type 0 where
  pub method_sent :
      (m p : Text) (b : Option (List ℕ)) (hs : Headers) → (transport.arrive m p b hs).method ≡ m
  pub path_sent :
      (m p : Text) (b : Option (List ℕ)) (hs : Headers)
      → (transport.arrive m p b hs).wildcard ≡ wildcard p
  pub body_sent :
      (m p : Text) (b : List ℕ) (hs : Headers) → (transport.arrive m p (some b) hs).body ≡ some b
  pub header_sent :
      (m p n v : Text) (b : Option (List ℕ)) (hs : Headers)
      → header n hs ≡ some v
      → values.to_str v ≡ some v
      → header_text values (transport.arrive m p b hs) n ≡ some v
  pub accept_unsent :
      (m p : Text) (b : Option (List ℕ)) (hs : Headers)
      → header accept hs ≡ none
      → let a = header_text values (transport.arrive m p b hs) accept in
        (a ≡ none) ⊎ (a ≡ some any_type)
  pub decoded : (t : Text) → is_ascii t ≡ true → transport.decode (utf8 t) ≡ t

-- Without an `Accept`, and with that of reqwest, every type is accepted.
pub open_accept :
    (a : Option Text) (t : Text) → (a ≡ none) ⊎ (a ≡ some any_type) → refuses a t ≡ false
unfolding refuses accept_satisfied
open_accept a t (inl e) = rw e refl
open_accept a t (inr e) = rw e refl

module _ (values : HeaderValues) (unrouted : Response) (slug : Text) (transport : Transport) where
  abbrev pub answer_of : Response × LdpStore → Answer × LdpStore
  answer_of (r, s) = (
    record {
      status = r.status;
      header = λ n. header n r.headers;
      bytes = r.body;
      body = transport.decode r.body;
    },
    s,
  )

  abbrev pub ask : Request → LdpStore → Answer × LdpStore
  ask req s = answer_of (pipeline values pass_through unrouted slug req s)

  abbrev pub client : SolidClient LdpStore
  client = client_of (λ m p b hs s. ask (transport.arrive m p b hs) s)

  -- The default pipeline is the routes with the CORS headers.
  ask_routed :
      (req : Request) (s : LdpStore) (o : Response × LdpStore)
      → ((c : _) → ldp_router values unrouted slug req c s ≡ o)
      → ask req s ≡ answer_of (with_cors (req.headers (text "origin")) o.0, o.1)
  unfolding pipeline pass_through_reader pass_through_authorizer
  ask_routed req s o routed =
      ap (λ p. answer_of (with_cors (req.headers (text "origin")) p.0, p.1)) (routed _)

  -- The handler that a method is routed to answers, and the CORS headers are set.
  abbrev pub answered : Request → Response × LdpStore → Answer × LdpStore
  answered req o = answer_of (with_cors (req.headers (text "origin")) o.0, o.1)

  pub get_at :
      (req : Request) (s : LdpStore)
      → req.method ≡ text "GET"
      → ask req s ≡ answered req (handle_get values req s)
  unfolding ldp_router text_eq
  get_at req s method = ask_routed req s (handle_get values req s) (λ c. rw method refl)

  pub head_at :
      (req : Request) (s : LdpStore)
      → req.method ≡ text "HEAD"
      → ask req s ≡ answered req (handle_head values req s)
  unfolding ldp_router text_eq
  head_at req s method = ask_routed req s (handle_head values req s) (λ c. rw method refl)

  pub put_at :
      (req : Request) (s : LdpStore)
      → req.method ≡ text "PUT"
      → ask req s ≡ answered req (handle_put values req s)
  unfolding ldp_router text_eq
  put_at req s method = ask_routed req s (handle_put values req s) (λ c. rw method refl)

  pub post_at :
      (req : Request) (s : LdpStore)
      → req.method ≡ text "POST"
      → ask req s ≡ answered req (handle_post values slug req s)
  unfolding ldp_router text_eq
  post_at req s method = ask_routed req s (handle_post values slug req s) (λ c. rw method refl)

  pub delete_at :
      (req : Request) (s : LdpStore)
      → req.method ≡ text "DELETE"
      → ask req s ≡ answered req (handle_delete req s)
  unfolding ldp_router text_eq
  delete_at req s method = ask_routed req s (handle_delete req s) (λ c. rw method refl)

  pub options_at :
      (req : Request) (s : LdpStore)
      → req.method ≡ text "OPTIONS"
      → ask req s ≡ answered req (handle_options req s)
  unfolding ldp_router text_eq
  options_at req s method = ask_routed req s (handle_options req s) (λ c. rw method refl)

  pub patch_at :
      (req : Request) (s : LdpStore)
      → req.method ≡ text "PATCH"
      → ask req s ≡ answered req (handle_patch req s)
  unfolding ldp_router text_eq
  patch_at req s method = ask_routed req s (handle_patch req s) (λ c. rw method refl)
