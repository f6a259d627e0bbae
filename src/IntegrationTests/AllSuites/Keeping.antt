-- ===== src/IntegrationTests/AllSuites/Keeping.antt =====
-- The cases of the suites that clean up after themselves.
use solid_community_rs.Prelude.{ℕ, ◌≡◌, Option, none, Text, text, is_empty}
use solid_community_rs.Prelude.Split.{trim}
use solid_community_rs.IntegrationTests.Client.{
  Answer, SolidClient, and_then, bail_if, clean_up, assert_status, assert_body_contains,
}
use solid_community_rs.IntegrationTests.Tidy.{IsTidy, Keeps, passed_on}
use solid_community_rs.IntegrationTests.ResourceCrud
use solid_community_rs.IntegrationTests.Containers
use solid_community_rs.IntegrationTests.Containers.{ldp_container}
use solid_community_rs.IntegrationTests.Negotiation
use solid_community_rs.IntegrationTests.Negotiation.{turtle, json_ld, plain, path_of}
use solid_community_rs.IntegrationTests.ErrorResponses
use solid_community_rs.IntegrationTests.ErrorResponses.{
  unknown_path, patch_path, nope_path, deep_path,
}

module _ {S : Type 0} (c : SolidClient S) (show : ℕ → Text) (IsType : Text → Type 0)
    (P : S → Type 0) (plain_type : IsType (text "text/plain"))
    (turtle_type : IsType (text "text/turtle")) where
  module _ (path : Text) (Q : S → Type 0) (tidy : IsTidy c path IsType P Q) where
    -- The path is cleared once an assertion, or two, held.
    cleared :
        (o : Option Text) (s : S)
        → Q s
        → (and_then o (clean_up c path) s).0 ≡ none
        → P (and_then o (clean_up c path) s).1
    cleared o s q h = passed_on P o (clean_up c path) s (λ x. tidy.delete_clears s q) h

    cleared_after_two :
        (o o' : Option Text) (s : S)
        → Q s
        → (and_then o (and_then o' (clean_up c path)) s).0 ≡ none
        → P (and_then o (and_then o' (clean_up c path)) s).1
    cleared_after_two o o' s q h =
        passed_on P o (and_then o' (clean_up c path)) s (cleared o' s q) h

    -- A PUT to the path, before anything is there.
    put_first : (b t : Text) (s : S) → IsType t → P s → Q (c.put path b t s).1
    put_first b t s type p = tidy.put_keeps b t s type (tidy.began s p)

    overwriting : Keeps P (ResourceCrud.put_overwrites c show path)
    unfolding ResourceCrud.put_overwrites
    overwriting s p h =
        let t = (c.put path (text "original") (text "text/plain") s).1 in
        let (resp, u) = c.put path (text "updated") (text "text/plain") t in
        passed_on P (ResourceCrud.overwritten c show resp.status)
          (λ v.
            let (found, s') = c.get path v in
            and_then (assert_body_contains found.body (text "updated")) (clean_up c path) s')
          u
          (cleared (assert_body_contains (c.get path u).0.body (text "updated")) (c.get path u).1
            (tidy.get_keeps u (tidy.put_keeps _ _ t plain_type (put_first _ _ s plain_type p))))
          h

    removing : Keeps P (ResourceCrud.delete_removes c show path)
    unfolding ResourceCrud.delete_removes
    removing s p h =
        let t = (c.put path (text "bye") (text "text/plain") s).1 in
        let (del, u) = c.delete path t in
        passed_on P (assert_status show del 204)
          (λ v. let (resp, s') = c.get path v in (assert_status show resp 404, s')) u
          (λ x. tidy.got_keeps u (tidy.delete_clears t (put_first _ _ s plain_type p))) h

    pub crud-Keeps :
        Keeps P (ResourceCrud.put_creates c show path)
        × Keeps P (ResourceCrud.get_returns c show path)
        × Keeps P (ResourceCrud.get_absent c show path)
        × Keeps P (ResourceCrud.put_overwrites c show path)
        × Keeps P (ResourceCrud.delete_removes c show path)
        × Keeps P (ResourceCrud.delete_absent c show path)
        × Keeps P (ResourceCrud.get_keeps_type c show path)
    unfolding ResourceCrud.put_creates ResourceCrud.get_returns ResourceCrud.get_absent
        ResourceCrud.delete_absent ResourceCrud.get_keeps_type
    crud-Keeps = (
      λ s p. cleared _ _ (put_first _ _ s plain_type p),
      λ s p. cleared_after_two _ _ _ (tidy.get_keeps _ (put_first _ _ s plain_type p)),
      λ s p h. tidy.got_keeps s p,
      overwriting,
      removing,
      λ s p h. tidy.delete_clears s (tidy.began s p),
      λ s p. cleared_after_two _ _ _ (tidy.get_keeps _ (put_first _ _ s turtle_type p)),
    )

    pub negotiated-Keeps :
        Keeps P (Negotiation.turtle_returned c show path)
        × Keeps P (Negotiation.json_ld_negotiated c show path)
        × Keeps P (Negotiation.plain_echoed c show path)
        × Keeps P (Negotiation.unsupported_refused c show path)
    unfolding Negotiation.turtle_returned Negotiation.json_ld_negotiated Negotiation.plain_echoed
        Negotiation.unsupported_refused
    negotiated-Keeps = (
      λ s p. cleared_after_two _ _ _ (tidy.accept_keeps _ _ (put_first _ _ s turtle_type p)),
      λ s p. cleared_after_two _ _ _ (tidy.accept_keeps _ _ (put_first _ _ s turtle_type p)),
      λ s p. cleared_after_two _ _ _ (tidy.get_keeps _ (put_first _ _ s plain_type p)),
      λ s p. cleared _ _ (tidy.accept_keeps _ _ (put_first _ _ s plain_type p)),
    )

    pub patch-Keeps : Keeps P (ErrorResponses.patch_refused c show path)
    unfolding ErrorResponses.patch_refused
    patch-Keeps s p = cleared _ _ (tidy.patch_keeps _ _ _ (put_first _ _ s plain_type p))

    pub deep-Keeps : Keeps P (ErrorResponses.deep_put c show path)
    unfolding ErrorResponses.deep_put
    deep-Keeps s p = cleared _ _ (put_first _ _ s plain_type p)

    pub containers_keep :
        Keeps P (Containers.put_creates c show path)
        × Keeps P (Containers.get_links c show path)
        × Keeps P (Containers.delete_removes c show path)
    unfolding Containers.put_creates Containers.get_links Containers.delete_removes
    containers_keep = (
      λ s p. cleared _ _ (put_first _ _ s turtle_type p),
      λ s p. cleared_after_two _ _ _ (tidy.get_keeps _ (put_first _ _ s turtle_type p)),
      λ s p h. tidy.delete_clears _ (put_first _ _ s turtle_type p),
    )

    pub post-Keeps :
        ((b t : Text) (s : S) → IsType t → Q s → Q (c.post path b t s).1)
        → Keeps P (Containers.post_creates c show path)
    unfolding Containers.post_creates
    post-Keeps post s p =
        cleared_after_two _ _ _ (post _ _ _ plain_type (put_first _ _ s turtle_type p))

  abbrev described : Answer → Option Text
  described resp =
      bail_if (is_empty (trim resp.body)) (text "expected non-empty error body for 404")

  -- A case that asks for a path where nothing is.
  pub asked-Keeps :
      (path : Text)
      → ((s : S) → P s → P (c.get path s).1)
      → Keeps P (ErrorResponses.unknown_missing c show path)
        × Keeps P (ErrorResponses.missing_described c show path)
  unfolding ErrorResponses.unknown_missing ErrorResponses.missing_described
  asked-Keeps path got = (
    λ s p h. got s p,
    λ s p h.
        passed_on P (assert_status show (c.get path s).0 404) (λ u. (described (c.get path s).0, u))
          (c.get path s).1 (λ x. got s p) h,
  )
