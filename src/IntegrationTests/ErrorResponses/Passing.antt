-- ===== src/IntegrationTests/ErrorResponses/Passing.antt =====
-- The suite on errors passes on any server that keeps the laws, and so on the one that is modelled.
use solid_community_rs.Prelude.{
  ℕ, ◌≡◌, refl, ap, ◌∙◌, true, false, not, ◌&&◌, ◌||◌, ◌==◌, [], ◌∷◌, ◌++◌, Option, none, some,
  Text, text, text_eq, is_empty, All,
}
use solid_community_rs.Prelude.Split.{utf8, trim, trim_start, trim_end, keep_before, is_whitespace}
use solid_community_rs.ServerCore.Http.{HeaderValues, Response}
use solid_community_rs.ServerCore.Store.{LdpStore}
use solid_community_rs.IntegrationTests.Client.{SolidClient, bail_if, clean_up, assert_status}
use solid_community_rs.IntegrationTests.Serves.{is_ascii, Serves, passed, status_holds}
use solid_community_rs.IntegrationTests.Server.{Transport, IsFaithful, client}
use solid_community_rs.IntegrationTests.Server.Asked.{place, get_missing}
use solid_community_rs.IntegrationTests.Server.Laws.{IsFree, get_free, not_there, arrived-Serves}
use solid_community_rs.IntegrationTests.ErrorResponses.{
  unknown_path, patch_path, nope_path, deep_path, unknown_missing, patch_refused, missing_described,
  deep_put, cases,
}

keep_before_cons : (x : ℕ) (l : Text) → is_empty (keep_before false x l) ≡ false
keep_before_cons x [] = refl
keep_before_cons x (y ∷ l) = refl

-- What starts with a digit is not blank.
digit_not_blank : (t : Text) → is_empty (trim (b'4' ∷ t)) ≡ false
unfolding trim trim_start trim_end is_whitespace
digit_not_blank t = keep_before_cons b'4' (trim_end t)

module _ {S : Type 0} (c : SolidClient S) (show : ℕ → Text) (path : Text) where
  described_passes :
      (s : S) (t : Text)
      → (c.get path s).0.status ≡ 404
      → (c.get path s).0.body ≡ b'4' ∷ t
      → (missing_described c show path s).0 ≡ none
  unfolding missing_described
  described_passes s t status body =
      let (resp, s') = c.get path s in
      passed (assert_status show resp 404) _ s' (status_holds show resp 404 status) (
        ap (λ b. bail_if (is_empty (trim b)) (text "expected non-empty error body for 404")) body
        ∙ ap (λ b. bail_if b (text "expected non-empty error body for 404")) (digit_not_blank t))

  module _ (IsType : Text → Type 0) (look : S → Option (Text × Text))
      (serves : Serves c path IsType look) where
    unknown_passes : (s : S) → look s ≡ none → (unknown_missing c show path s).0 ≡ none
    unfolding unknown_missing
    unknown_passes s absent = status_holds show (c.get path s).0 404 (serves.missing s absent)

    patch_passes : (s : S) → (patch_refused c show path s).0 ≡ none
    unfolding patch_refused
    patch_passes s =
        passed _ (clean_up c path) _
          (ap
            (λ n.
              bail_if (not (n == 415) && not (n == 405) && not (n == 400))
                (text "expected 415|405|400 for bad PATCH, got " ++ show n))
            (serves.patched _ _ (c.put path (text "original") (text "text/plain") s).1))
          refl

    deep_passes :
        (s : S) → IsType (text "text/plain") → look s ≡ none → (deep_put c show path s).0 ≡ none
    unfolding deep_put
    deep_passes s plain absent =
        passed _ (clean_up c path) _
          (ap
            (λ n.
              bail_if (not (n == 201 || n == 404 || n == 409))
                (text "expected 201|404|409 for PUT to deep path, got " ++ show n))
            (serves.created (text "body") (text "text/plain") s plain absent))
          refl

module _ (values : HeaderValues) (unrouted : Response) (slug : Text) (transport : Transport)
    (wildcard : Text → Option Text) (faithful : IsFaithful values transport wildcard) where
  -- Every case of the suite on errors passes on the default pipeline and any store, if the four
  -- paths reach the router as they are written, nothing is stored at the three where nothing is
  -- expected, the UUID of the case on the error body is ASCII, and `text/plain` is read from a header
  -- value as it was written.
  pub error_responses_pass :
      (show : ℕ → Text) (uuid : ℕ → Text) (s : LdpStore)
      → values.to_str (text "text/plain") ≡ some (text "text/plain")
      → is_ascii (uuid 2) ≡ true
      → IsFree values unrouted slug transport wildcard faithful s (unknown_path (uuid 0))
      → place values unrouted slug transport wildcard faithful (patch_path (uuid 1))
        ≡ patch_path (uuid 1)
      → IsFree values unrouted slug transport wildcard faithful s (nope_path (uuid 2))
      → IsFree values unrouted slug transport wildcard faithful s (deep_path (uuid 3))
      → All (λ x. (x.run s).0 ≡ none) (cases (client values unrouted slug transport) show uuid)
  unfolding text_eq
  error_responses_pass show uuid s plain ascii unknown patch nope deep =
      let c = client values unrouted slug transport in
      let (status, body) =
        get_missing values unrouted slug transport wildcard faithful (nope_path (uuid 2)) s
          (get_free values unrouted slug transport wildcard faithful s (nope_path (uuid 2)) nope) in
      (
        unknown_passes c show (unknown_path (uuid 0)) _ _
            (arrived-Serves values unrouted slug transport wildcard faithful (unknown_path (uuid 0))
              unknown.0 refl)
            s
            (not_there values unrouted slug transport wildcard faithful s (unknown_path (uuid 0))
              unknown),
        (
          patch_passes c show (patch_path (uuid 1)) _ _
              (arrived-Serves values unrouted slug transport wildcard faithful (patch_path (uuid 1))
                patch refl)
              s,
          (
            described_passes c show (nope_path (uuid 2)) s _ status (
                body
                ∙ ap (λ k. transport.decode (utf8 (text "404 Not Found: " ++ k))) nope.0
                ∙ faithful.decoded (text "404 Not Found: " ++ nope_path (uuid 2)) ascii),
            (
              deep_passes c show (deep_path (uuid 3)) _ _
                  (arrived-Serves values unrouted slug transport wildcard faithful
                    (deep_path (uuid 3)) deep.0 refl)
                  s plain
                  (not_there values unrouted slug transport wildcard faithful s (deep_path (uuid 3))
                    deep),
              tt,
            ),
          ),
        ),
      )
