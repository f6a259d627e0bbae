-- ===== src/IntegrationTests/ResourceCrud/Passing.antt =====
-- The cases of the suite on resources pass on any server that keeps the laws.
use solid_community_rs.Prelude.{ℕ, ◌≡◌, refl, ap, ◌∙◌, Option, none, Text, text, starts_with}
use solid_community_rs.Prelude.Split.{contains}
use solid_community_rs.IntegrationTests.Client.{
  SolidClient, and_then, clean_up, assert_status, assert_content_type, assert_body_contains,
}
use solid_community_rs.IntegrationTests.Serves.{
  Serves, passed_by, status_holds, body_holds, type_holds,
}
use solid_community_rs.IntegrationTests.ResourceCrud.{
  put_creates, get_returns, get_absent, overwritten, put_overwrites, delete_removes, delete_absent,
  get_keeps_type,
}

module _ {S : Type 0} (c : SolidClient S) (show : ℕ → Text) (path : Text) (IsType : Text → Type 0)
    (look : S → Option (Text × Text)) (serves : Serves c path IsType look)
    (plain : IsType (text "text/plain")) (turtle : IsType (text "text/turtle")) where
  -- The case passed, and nothing is left at the path.
  abbrev pub Done : Option Text × S → Type 0
  Done r = (r.0 ≡ none) × (look r.1 ≡ none)

  pub put_creates_passes : (s : S) → look s ≡ none → Done (put_creates c show path s)
  unfolding put_creates
  put_creates_passes s absent =
      let (answer, s') = c.put path (text "hello world") (text "text/plain") s in
      passed_by Done (assert_status show answer 201) (clean_up c path) s'
        (status_holds show answer 201 (serves.created _ _ s plain absent)) (refl, serves.gone s')

  pub get_returns_passes : (s : S) → Done (get_returns c show path s)
  unfolding get_returns contains starts_with
  get_returns_passes s =
      let t = (c.put path (text "stored body") (text "text/plain") s).1 in
      let there = serves.stored (text "stored body") (text "text/plain") s refl plain in
      let (answer, s') = c.get path t in
      passed_by Done (assert_status show answer 200)
        (and_then (assert_body_contains answer.body (text "stored body")) (clean_up c path)) s'
        (status_holds show answer 200 (serves.got_status t _ _ there plain))
        (passed_by Done (assert_body_contains answer.body (text "stored body")) (clean_up c path) s'
          (body_holds answer.body (text "stored body") (serves.got_body t _ _ there plain) refl)
          (refl, serves.gone s'))

  pub get_absent_passes : (s : S) → look s ≡ none → Done (get_absent c show path s)
  unfolding get_absent
  get_absent_passes s absent =
      (status_holds show (c.get path s).0 404 (serves.missing s absent), serves.kept s ∙ absent)

  pub delete_absent_passes : (s : S) → look s ≡ none → Done (delete_absent c show path s)
  unfolding delete_absent
  delete_absent_passes s absent =
      (status_holds show (c.delete path s).0 404 (serves.not_deleted s absent), serves.gone s)

  pub put_overwrites_passes : (s : S) → Done (put_overwrites c show path s)
  unfolding put_overwrites contains starts_with
  put_overwrites_passes s =
      let original = (c.put path (text "original") (text "text/plain") s).1 in
      let first = serves.stored (text "original") (text "text/plain") s refl plain in
      let (answer, u) = c.put path (text "updated") (text "text/plain") original in
      let second = serves.stored (text "updated") (text "text/plain") original refl plain in
      let (found, s') = c.get path u in
      passed_by Done (overwritten c show answer.status) _ u
        (ap (overwritten c show) (serves.updated _ _ original _ plain first))
        (passed_by Done (assert_body_contains found.body (text "updated")) (clean_up c path) s'
          (body_holds found.body (text "updated") (serves.got_body u _ _ second plain) refl)
          (refl, serves.gone s'))

  pub delete_removes_passes : (s : S) → Done (delete_removes c show path s)
  unfolding delete_removes
  delete_removes_passes s =
      let t = (c.put path (text "bye") (text "text/plain") s).1 in
      let there = serves.stored (text "bye") (text "text/plain") s refl plain in
      let (answer, u) = c.delete path t in
      passed_by Done (assert_status show answer 204) _ u
        (status_holds show answer 204 (serves.deleted t _ there))
        (
          status_holds show (c.get path u).0 404 (serves.missing u (serves.gone t)),
          serves.kept u ∙ serves.gone t,
        )

  abbrev ttl : Text
  ttl = text "@prefix : <http://example.org/> .\n:me a :Person ."

  pub get_keeps_type_passes : (s : S) → Done (get_keeps_type c show path s)
  unfolding get_keeps_type starts_with
  get_keeps_type_passes s =
      let t = (c.put path ttl (text "text/turtle") s).1 in
      let there = serves.stored ttl (text "text/turtle") s refl turtle in
      let (answer, s') = c.get path t in
      passed_by Done (assert_status show answer 200)
        (and_then (assert_content_type answer (text "text/turtle")) (clean_up c path)) s'
        (status_holds show answer 200 (serves.got_status t _ _ there turtle))
        (passed_by Done (assert_content_type answer (text "text/turtle")) (clean_up c path) s'
          (type_holds answer (text "text/turtle") (serves.got_type t _ _ there turtle) refl)
          (refl, serves.gone s'))
