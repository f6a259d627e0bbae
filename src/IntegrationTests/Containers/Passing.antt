-- ===== src/IntegrationTests/Containers/Passing.antt =====
-- The suite on containers passes on any server that keeps the laws and treats containers as it should.
use solid_community_rs.Prelude.{
  ℕ, ◌≡◌, refl, ap, true, not, ◌&&◌, ◌==◌, [], ◌++◌, Option, none, some, Text, text, is_some,
}
use solid_community_rs.Prelude.Split.{contains}
use solid_community_rs.IntegrationTests.Client.{
  Answer, SolidClient, and_then, bail_if, clean_up, assert_status, assert_link_rel,
}
use solid_community_rs.IntegrationTests.Serves.{Serves, passed, status_holds}
use solid_community_rs.IntegrationTests.Containers.{
  ldp_container, root_responds, put_creates, post_creates, get_links, delete_removes,
}

link_holds :
    (resp : Answer) (l r : Text)
    → resp.header (text "link") ≡ some l
    → contains l r ≡ true
    → assert_link_rel resp r ≡ none
unfolding assert_link_rel
link_holds resp l r h c = rw (h, c) refl

module _ {S : Type 0} (c : SolidClient S) (show : ℕ → Text) where
  pub root_passes :
      (s : S) → (c.get (text "/") s).0.status ≡ 200 → (root_responds c show s).0 ≡ none
  unfolding root_responds
  root_passes s ok =
      ap
        (λ n.
          bail_if (not (n == 200) && not (n == 401))
            (text "expected 200|401 from GET /, got " ++ show n))
        ok

  pub post_passes :
      (path child : Text) (s : S)
      → let there = (c.put path [] (text "text/turtle") s).1 in
        let resp = (c.post path (text "child content") (text "text/plain") there).0 in
        resp.status ≡ 201
        → resp.header (text "location") ≡ some child
        → (post_creates c show path s).0 ≡ none
  unfolding post_creates
  post_passes path child s created located =
      let there = (c.put path [] (text "text/turtle") s).1 in
      let (resp, s') = c.post path (text "child content") (text "text/plain") there in
      passed (assert_status show resp 201) _ s' (status_holds show resp 201 created) (
        passed _ (clean_up c path) s'
          (ap (λ o. bail_if (not (is_some o)) (text "POST response missing Location header"))
            located)
          refl)

  module _ (path : Text) (IsType : Text → Type 0) (look : S → Option (Text × Text))
      (serves : Serves c path IsType look) (turtle : IsType (text "text/turtle")) where
    pub put_passes : (s : S) → look s ≡ none → (put_creates c show path s).0 ≡ none
    unfolding put_creates
    put_passes s absent =
        let (resp, s') = c.put path [] (text "text/turtle") s in
        passed (assert_status show resp 201) (clean_up c path) s'
          (status_holds show resp 201 (serves.created _ _ s turtle absent)) refl

    -- `l` is the `Link` header of the container.
    pub links_passes :
        (s : S) (l : Text)
        → (c.get path (c.put path [] (text "text/turtle") s).1).0.header (text "link") ≡ some l
        → contains l ldp_container ≡ true
        → (get_links c show path s).0 ≡ none
    unfolding get_links
    links_passes s l linked named =
        let t = (c.put path [] (text "text/turtle") s).1 in
        let (resp, s') = c.get path t in
        passed (assert_status show resp 200)
          (and_then (assert_link_rel resp ldp_container) (clean_up c path)) s'
          (status_holds show resp 200
            (serves.got_status t [] _ (serves.stored [] (text "text/turtle") s refl turtle) turtle))
          (passed (assert_link_rel resp ldp_container) (clean_up c path) s'
            (link_holds resp l ldp_container linked named) refl)

    pub delete_passes : (s : S) → (delete_removes c show path s).0 ≡ none
    unfolding delete_removes
    delete_passes s =
        let t = (c.put path [] (text "text/turtle") s).1 in
        status_holds show (c.delete path t).0 204
          (serves.deleted t _ (serves.stored [] (text "text/turtle") s refl turtle))
