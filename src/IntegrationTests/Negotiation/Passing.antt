-- ===== src/IntegrationTests/Negotiation/Passing.antt =====
-- The suite on `Accept` passes on any server that keeps the laws, and so on the one that is modelled.
use solid_community_rs.Prelude.{
  ℕ, ◌≡◌, refl, ap, not, ◌&&◌, ◌==◌, ◌++◌, Option, none, some, Text, text, text_eq, starts_with,
  All, if◌then◌else◌,
}
use solid_community_rs.ServerCore.Http.{HeaderValues, Response}
use solid_community_rs.ServerCore.Accept.{accept_satisfied}
use solid_community_rs.ServerCore.Store.{LdpStore}
use solid_community_rs.IntegrationTests.Client.{
  SolidClient, and_then, bail_if, is_success, clean_up, assert_status, assert_content_type,
}
use solid_community_rs.IntegrationTests.Serves.{Serves, passed, status_holds, type_holds}
use solid_community_rs.IntegrationTests.Server.{Transport, IsFaithful, client}
use solid_community_rs.IntegrationTests.Server.Asked.{place}
use solid_community_rs.IntegrationTests.Server.Laws.{look, IsReadable, arrived-Serves}
use solid_community_rs.IntegrationTests.Negotiation.{
  path_of, triples, turtle, json_ld, plain, unsupported, turtle_returned, json_ld_negotiated,
  plain_echoed, unsupported_refused, cases,
}

module _ {S : Type 0} (c : SolidClient S) (show : ℕ → Text) (p : Text) (IsType : Text → Type 0)
    (look : S → Option (Text × Text)) (serves : Serves c p IsType look) where
  turtle_passes : IsType turtle → (s : S) → (turtle_returned c show p s).0 ≡ none
  unfolding turtle_returned starts_with accept_satisfied
  turtle_passes typed s =
      let t = (c.put p triples turtle s).1 in
      let there = serves.stored triples turtle s refl typed in
      let (ok, type) = serves.accepted t triples turtle turtle there typed typed refl in
      let (resp, s') = c.get_accept p turtle t in
      passed (assert_status show resp 200)
        (and_then (assert_content_type resp turtle) (clean_up c p)) s'
        (status_holds show resp 200 ok)
        (passed (assert_content_type resp turtle) (clean_up c p) s'
          (type_holds resp turtle type refl) refl)

  json_ld_passes :
      IsType turtle → IsType json_ld → (s : S) → (json_ld_negotiated c show p s).0 ≡ none
  unfolding json_ld_negotiated accept_satisfied
  json_ld_passes typed wanted s =
      let t = (c.put p triples turtle s).1 in
      let there = serves.stored triples turtle s refl typed in
      let status = serves.refused t triples turtle json_ld there typed wanted refl in
      let (resp, s') = c.get_accept p json_ld t in
      passed _ _ s'
        (ap
          (λ n.
            bail_if (not (n == 200) && not (n == 406))
              (text "expected 200 or 406 for JSON-LD negotiation, got " ++ show n))
          status)
        (passed _ (clean_up c p) s'
          (ap (λ n. if n == 200 then assert_content_type resp json_ld else none) status) refl)

  plain_passes : IsType plain → (s : S) → (plain_echoed c show p s).0 ≡ none
  unfolding plain_echoed starts_with
  plain_passes typed s =
      let t = (c.put p (text "plain text body") plain s).1 in
      let there = serves.stored (text "plain text body") plain s refl typed in
      let (resp, s') = c.get p t in
      passed (assert_status show resp 200)
        (and_then (assert_content_type resp plain) (clean_up c p)) s'
        (status_holds show resp 200 (serves.got_status t _ _ there typed))
        (passed (assert_content_type resp plain) (clean_up c p) s'
          (type_holds resp plain (serves.got_type t _ _ there typed) refl) refl)

  unsupported_passes :
      IsType plain → IsType unsupported → (s : S) → (unsupported_refused c show p s).0 ≡ none
  unfolding unsupported_refused accept_satisfied
  unsupported_passes typed wanted s =
      let t = (c.put p (text "body") plain s).1 in
      let there = serves.stored (text "body") plain s refl typed in
      let status = serves.refused t _ plain unsupported there typed wanted refl in
      let (resp, s') = c.get_accept p unsupported t in
      passed _ (clean_up c p) s'
        (ap
          (λ n.
            bail_if (not (n == 406) && not (is_success n))
              (text "expected 406 or 200 for unsupported Accept, got " ++ show n))
          status)
        refl

module _ (values : HeaderValues) (unrouted : Response) (slug : Text) (transport : Transport)
    (wildcard : Text → Option Text) (faithful : IsFaithful values transport wildcard) where
  pub negotiation_passes :
      (show : ℕ → Text) (uuid : ℕ → Text) (s : LdpStore)
      → values.to_str turtle ≡ some turtle
      → values.to_str json_ld ≡ some json_ld
      → values.to_str plain ≡ some plain
      → values.to_str unsupported ≡ some unsupported
      → ((i : ℕ) (ext : Text)
          → place values unrouted slug transport wildcard faithful (path_of (uuid i) ext)
            ≡ path_of (uuid i) ext)
      → All (λ x. (x.run s).0 ≡ none) (cases (client values unrouted slug transport) show uuid)
  unfolding path_of text_eq
  negotiation_passes show uuid s turtle_read json_read plain_read other_read arrives = (
    turtle_passes c show (ttl 0) (IsReadable values) _ (laws 0 (text "ttl")) turtle_read s,
    (
      json_ld_passes c show (ttl 1) (IsReadable values) _ (laws 1 (text "ttl")) turtle_read
          json_read s,
      (
        plain_passes c show (txt 2) (IsReadable values) _ (laws 2 (text "txt")) plain_read s,
        (
          unsupported_passes c show (txt 3) (IsReadable values) _ (laws 3 (text "txt")) plain_read
              other_read s,
          tt,
        ),
      ),
    ),
  )
    where
      c : SolidClient LdpStore
      c = client values unrouted slug transport

      ttl : ℕ → Text
      ttl i = path_of (uuid i) (text "ttl")

      txt : ℕ → Text
      txt i = path_of (uuid i) (text "txt")

      laws :
          (i : ℕ) (ext : Text)
          → Serves c
              (path_of (uuid i) ext)
              (IsReadable values)
              (look values unrouted slug transport wildcard faithful (path_of (uuid i) ext))
      laws i ext =
          arrived-Serves values unrouted slug transport wildcard faithful (path_of (uuid i) ext)
            (arrives i ext) refl
