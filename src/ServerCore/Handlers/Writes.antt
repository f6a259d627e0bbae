-- ===== src/ServerCore/Handlers/Writes.antt =====
-- PUT, POST and DELETE, and what a later GET answers.
use solid_community_rs.Prelude.{
  ℕ, ◌≡◌, refl, sym, ◌∙◌, ap, starts_with, Bool-cases, true, false, inl, inr, List, [], ◌∷◌, ◌++◌,
  Option, none, some, arith, Text, text, text_eq, slash, trim_end_matches, if◌then◌else◌, ◌||◌,
}
use solid_community_rs.ServerCore.Http.{HeaderValues, Request, header, location}
use solid_community_rs.ServerCore.Store
use solid_community_rs.ServerCore.Store.{Entry, LdpStore}
use solid_community_rs.ServerCore.Store.Access.{written, get-put_self, put_created, delete_lem}
use solid_community_rs.ServerCore.Handlers.{
  resolve_path, put_body, post_body, header_text, checked, refuses, get_entry, handle_get,
  handle_put, handle_post, handle_delete, request_type, child_key, not_found,
}
use solid_community_rs.ServerCore.Handlers.Reads.{
  key-resolve_path, request_type_valid, served, get_entry-served,
}

module _ (values : HeaderValues) where
  handle_put-some :
      (put : Request) (body : List ℕ) (s : LdpStore)
      → put.body ≡ some body
      → handle_put values put s ≡ put_body values put (some body) s
  unfolding handle_put
  handle_put-some put body s has = ap (λ b. put_body values put b s) has

  -- GET by the path that the router extracted.
  get_at :
      (get : Request) (s : LdpStore) (w : Option Text)
      → get.wildcard ≡ w
      → (handle_get values get s).0
        ≡ get_entry values
            (resolve_path w)
            (header_text values get (text "accept"))
            (Store.get (resolve_path w) s)
  unfolding handle_get
  get_at get s w e =
      ap
        (λ v.
          get_entry values (resolve_path v) (header_text values get (text "accept"))
            (Store.get (resolve_path v) s))
        e

  put_status :
      (put : Request) (body : List ℕ) (s : LdpStore)
      → (put_body values put (some body) s).0.status ≡ (
          if Store.exists (resolve_path put.wildcard) s
            || text_eq (slash ∷ []) (resolve_path put.wildcard)
          then 204
          else 201)
  unfolding put_body
  put_status put body s =
      rw (put_created (resolve_path put.wildcard) body (request_type values put) s)
        (rw (key-resolve_path put.wildcard) (ground arith))

  -- A GET of an entry that was just put.
  get_written :
      (get : Request) (w path type : Text) (body : List ℕ) (s : LdpStore)
      → get.wildcard ≡ some w
      → resolve_path (some w) ≡ path
      → refuses (header_text values get (text "accept")) type ≡ false
      → values.is_valid type ≡ true
      → (handle_get values get (Store.put path body type s).1).0
        ≡ served values body type (Store.is_container path)
  get_written get w path type body s at resolved ok valid =
      get_at get _ (some w) at
      ∙ rw resolved (
          rw (get-put_self path body type s)
            (get_entry-served values path _ (written path body type) ok valid))

  put_served :
      (put get : Request) (body : List ℕ) (s : LdpStore)
      → refuses (header_text values get (text "accept")) (request_type values put) ≡ false
      → get_entry values
          (resolve_path put.wildcard)
          (header_text values get (text "accept"))
          (Store.get (resolve_path put.wildcard) (put_body values put (some body) s).1)
        ≡ served values body
            (request_type values put)
            (Store.is_container (resolve_path put.wildcard))
  unfolding put_body
  put_served put get body s ok =
      rw (get-put_self (resolve_path put.wildcard) body (request_type values put) s) (
        get_entry-served values (resolve_path put.wildcard) _
          (written (resolve_path put.wildcard) body (request_type values put)) ok
          (request_type_valid values put))

  -- A PUT whose body can be read answers 204 if the resource was there or is the root, and 201 if
  -- not; a GET of the same path by a client that accepts the type then has a 200 with the body and
  -- the type that were put.
  pub get_after_put :
      (put get : Request) (body : List ℕ) (s : LdpStore)
      → put.body ≡ some body
      → get.wildcard ≡ put.wildcard
      → refuses (header_text values get (text "accept")) (request_type values put) ≡ false
      → let (r, s') = handle_put values put s in
        (r.status ≡ (
          if Store.exists (resolve_path put.wildcard) s
            || text_eq (slash ∷ []) (resolve_path put.wildcard)
          then 204
          else 201))
        × ((handle_get values get s').0
            ≡ served values body
                (request_type values put)
                (Store.is_container (resolve_path put.wildcard)))
  unfolding handle_get
  get_after_put put get body s has same ok = (
    ap (λ r. r.0.status) (handle_put-some put body s has) ∙ put_status put body s,
    ap (λ r. (handle_get values get r.1).0) (handle_put-some put body s has)
        ∙ get_at get _ put.wildcard same
        ∙ put_served put get body s ok,
  )

  -- A GET of a path that was deleted, with no write between, is a 404; the DELETE answers 204 if
  -- the resource was there and 404 if not.
  get_after_delete :
      (del get : Request) (s : LdpStore)
      → get.wildcard ≡ del.wildcard
      → let (r, s') = handle_delete del s in
        (r.status ≡ (if Store.exists (resolve_path del.wildcard) s then 204 else 404))
        × ((handle_get values get s').0 ≡ not_found (resolve_path del.wildcard))
  unfolding handle_get handle_delete get_entry not_found
  get_after_delete del get s same =
      let (reported, gone) = delete_lem (resolve_path del.wildcard) s in
      (rw reported (ground arith), get_at get _ del.wildcard same ∙ rw gone refl)

  -- A path without its first slash resolves to the path, unless another slash follows.
  resolve_tail :
      (tail : Text)
      → starts_with tail (slash ∷ []) ≡ false
      → resolve_path (some tail) ≡ slash ∷ tail
  unfolding resolve_path
  resolve_tail [] single = refl
  resolve_tail (c ∷ t) single = rw single refl

  handle_post-some :
      (slug : Text) (post : Request) (body : List ℕ) (s : LdpStore)
      → post.body ≡ some body
      → handle_post values slug post s ≡ post_body values slug post (some body) s
  unfolding handle_post
  handle_post-some slug post body s has = ap (λ b. post_body values slug post b s) has

  pub post_answer :
      (slug : Text) (post : Request) (body : List ℕ) (s : LdpStore)
      → let r = (post_body values slug post (some body) s).0 in
        let valid = values.is_valid (child_key slug post) in
        (r.status ≡ (if valid then 201 else 500))
        × (header location r.headers ≡ (if valid then some (child_key slug post) else none))
  unfolding post_body checked header text_eq
  post_answer slug post body s = elim (Bool-cases (values.is_valid (child_key slug post))) [
    | inl valid ↦ rw valid (refl, refl)
    | inr valid ↦ rw valid (refl, refl)
  ]

  posted_served :
      (slug : Text) (post get : Request) (body : List ℕ) (s : LdpStore) (w : Text)
      → get.wildcard ≡ some w
      → resolve_path (some w) ≡ child_key slug post
      → refuses (header_text values get (text "accept")) (request_type values post) ≡ false
      → (handle_get values get (post_body values slug post (some body) s).1).0
        ≡ served values body (request_type values post) (Store.is_container (child_key slug post))
  unfolding post_body
  posted_served slug post get body s w target resolved ok =
      get_written get w (child_key slug post) (request_type values post) body s target resolved ok
        (request_type_valid values post)

  -- A POST whose body can be read stores the body under a child of its target: the child's key is
  -- the target without its slashes at the end, a slash and the slug. If the key can stand in a header
  -- the answer is 201 with the key as its `Location`, and else a 500. A GET of that key, for which
  -- the router extracts the key without its first slash, by a client that accepts the type has the
  -- body and the type that were posted, if the key does not begin with two slashes.
  pub get_after_post :
      (slug : Text) (post get : Request) (body : List ℕ) (s : LdpStore) (tail : Text)
      → post.body ≡ some body
      → child_key slug post ≡ slash ∷ tail
      → starts_with tail (slash ∷ []) ≡ false
      → get.wildcard ≡ some tail
      → refuses (header_text values get (text "accept")) (request_type values post) ≡ false
      → let (r, s') = handle_post values slug post s in
        (r.status ≡ (if values.is_valid (slash ∷ tail) then 201 else 500))
        × (header location r.headers
            ≡ (if values.is_valid (slash ∷ tail) then some (slash ∷ tail) else none))
        × (slash ∷ tail ≡ trim_end_matches (resolve_path post.wildcard) slash ++ slash ∷ slug)
        × ((handle_get values get s').0
            ≡ served values body (request_type values post) (Store.is_container (slash ∷ tail)))
  unfolding child_key
  get_after_post slug post get body s tail has key single target ok =
      let stored = handle_post-some slug post body s has in
      let answer = post_answer slug post body s in
      let resolved : resolve_path (some tail) ≡ child_key slug post =
        resolve_tail tail single ∙ sym key in
      (
        ap (λ r. r.0.status) stored
            ∙ answer.0
            ∙ ap (λ k. if values.is_valid k then 201 else 500) key,
        ap (λ r. header location r.0.headers) stored
            ∙ answer.1
            ∙ ap (λ k. if values.is_valid k then some k else none) key,
        sym key,
        ap (λ r. (handle_get values get r.1).0) stored
            ∙ posted_served slug post get body s tail target resolved ok
            ∙ ap (λ k. served values body (request_type values post) (Store.is_container k)) key,
      )
