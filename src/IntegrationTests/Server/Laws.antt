-- ===== src/IntegrationTests/Server/Laws.antt =====
-- The server that is modelled keeps the laws that the suites ask for.
use solid_community_rs.Prelude.{
  ◌≡◌, refl, ap, ◌∙◌, false, not, ◌||◌, [], ◌∷◌, Option, none, some, arith, Text, text_eq, slash,
  is_some, if◌then◌else◌,
}
use mathlib.Core.Option
use solid_community_rs.Prelude.Split.{utf8}
use solid_community_rs.ServerCore.Http.{HeaderValues, Response}
use solid_community_rs.ServerCore.Accept.{accept_satisfied}
use solid_community_rs.ServerCore.Store
use solid_community_rs.ServerCore.Store.{Entry, LdpStore}
use solid_community_rs.ServerCore.Store.Access.{get-put_self, put_created, delete_lem}
use solid_community_rs.ServerCore.Handlers.Reads.{key-resolve_path}
use solid_community_rs.IntegrationTests.Serves.{Serves}
use solid_community_rs.IntegrationTests.Server.{Transport, IsFaithful, client}
use solid_community_rs.IntegrationTests.Server.Asked.{
  place, Shows, put_asked, delete_asked, patch_asked, get_kept, get_found, get_accepted,
  get_refused, get_missing,
}

-- A header value that is read as it was written.
abbrev pub IsReadable : HeaderValues → Text → Type 0
IsReadable values t = values.to_str t ≡ some t

pub exists_get : (k : Text) (s : LdpStore) → Store.exists k s ≡ is_some (Store.get k s)
unfolding Store.exists Store.get
exists_get k s = refl

module _ (values : HeaderValues) (unrouted : Response) (slug : Text) (transport : Transport)
    (wildcard : Text → Option Text) (faithful : IsFaithful values transport wildcard)
    (path : Text) where
  abbrev pub at : Text
  at = place values unrouted slug transport wildcard faithful path

  abbrev pub shown : Entry → Text × Text
  shown e = (transport.decode e.body, e.content_type)

  -- The text and the content type of the resource at the path.
  abbrev pub look : LdpStore → Option (Text × Text)
  look s = Option.map shown (Store.get at s)

  nothing_there : (o : Option Entry) → Option.map shown o ≡ none → o ≡ none
  nothing_there none h = refl
  nothing_there (some e) h = cc h

  entry_there :
      (o : Option Entry) (p : Text × Text)
      → Option.map shown o ≡ some p
      → (e : Entry) × (o ≡ some e) × (shown e ≡ p)
  entry_there none p h = cc h
  entry_there (some e) p h = (e, refl, cc h)

  looked_up :
      (s : LdpStore) (b t : Text)
      → look s ≡ some (b, t)
      → (e : Entry) × (Store.get at s ≡ some e)
        × (transport.decode e.body ≡ b)
        × (e.content_type ≡ t)
  looked_up s b t h =
      let (e, there, same) = entry_there (Store.get at s) (b, t) h in
      (e, there, ap (λ p. p.0) same, ap (λ p. p.1) same)

  -- The answer to a GET of what is there.
  pub found_there :
      (s : LdpStore) (b t : Text)
      → look s ≡ some (b, t)
      → IsReadable values t
      → (e : Entry) × (e.content_type ≡ t)
        × (transport.decode e.body ≡ b)
        × Shows values unrouted slug transport wildcard faithful path
            ((client values unrouted slug transport).get path s).0
            e
  found_there s b t h r =
      let (e, there, body, type) = looked_up s b t h in
      (
        e,
        type,
        body,
        get_found values unrouted slug transport wildcard faithful path s e there
            (ap values.is_valid type ∙ values.to_str_valid t t r),
      )

  put_reports :
      (b t : Text) (s : LdpStore)
      → text_eq (slash ∷ []) at ≡ false
      → (Store.put at (utf8 b) t s).0 ≡ not (is_some (Store.get at s))
  put_reports b t s not_root =
      put_created at (utf8 b) t s
      ∙ ap (λ k. not (Store.exists at s || text_eq (slash ∷ []) k))
          (key-resolve_path (wildcard path))
      ∙ ap (λ x. not (x || text_eq (slash ∷ []) at)) (exists_get at s)
      ∙ ap (λ x. not (is_some (Store.get at s) || x)) not_root
      ∙ (ground arith)

  delete_reports :
      (s : LdpStore)
      → ((Store.delete at s).0 ≡ is_some (Store.get at s))
        × (Store.get at (Store.delete at s).1 ≡ none)
  delete_reports s = let (reported, gone) = delete_lem at s in (reported ∙ exists_get at s, gone)

  pub server-Serves :
      text_eq (slash ∷ []) at ≡ false
      → Serves (client values unrouted slug transport) path (IsReadable values) look
  server-Serves not_root = record {
    created = λ b t s r h.
        (put_asked values unrouted slug transport wildcard faithful path b t s r).1
        ∙ ap (λ x. if x then 201 else 204)
            (put_reports b t s not_root ∙ ap (λ o. not (is_some o)) (nothing_there _ h));
    updated = λ b t s p r h.
        let (e, there, same) = entry_there (Store.get at s) p h in
        (put_asked values unrouted slug transport wildcard faithful path b t s r).1
        ∙ ap (λ x. if x then 201 else 204)
            (put_reports b t s not_root ∙ ap (λ o. not (is_some o)) there);
    stored = λ b t s a r.
        ap look (put_asked values unrouted slug transport wildcard faithful path b t s r).0
        ∙ ap (Option.map shown) (get-put_self at (utf8 b) t s)
        ∙ ap (λ x. some (x, t)) (faithful.decoded b a);
    got_status = λ s b t h r. let (e, type, body, found) = found_there s b t h r in found.0;
    got_body = λ s b t h r. let (e, type, body, found) = found_there s b t h r in found.1 ∙ body;
    got_type = λ s b t h r.
        let (e, type, body, found) = found_there s b t h r in found.2 ∙ ap (λ x. some x) type;
    accepted = λ s b t a h r ra ok.
        let (e, there, body, type) = looked_up s b t h in
        let found =
          get_accepted values unrouted slug transport wildcard faithful path s e a there
            (ap values.is_valid type ∙ values.to_str_valid t t r) ra
            (ap (accept_satisfied a) type ∙ ok) in
        (found.0, found.2 ∙ ap (λ x. some x) type);
    refused = λ s b t a h r ra bad.
        let (e, there, body, type) = looked_up s b t h in
        get_refused values unrouted slug transport wildcard faithful path s e a there ra
          (ap (accept_satisfied a) type ∙ bad);
    patched = patch_asked values unrouted slug transport wildcard faithful path;
    kept = λ s. ap look (get_kept values unrouted slug transport wildcard faithful path s);
    missing = λ s h.
        (get_missing values unrouted slug transport wildcard faithful path s (nothing_there _ h)).0;
    deleted = λ s p h.
        let (e, there, same) = entry_there (Store.get at s) p h in
        (delete_asked values unrouted slug transport wildcard faithful path s).1
        ∙ ap (λ x. if x then 204 else 404) ((delete_reports s).0 ∙ ap is_some there);
    not_deleted = λ s h.
        (delete_asked values unrouted slug transport wildcard faithful path s).1
        ∙ ap (λ x. if x then 204 else 404) ((delete_reports s).0 ∙ ap is_some (nothing_there _ h));
    gone = λ s.
        ap look (delete_asked values unrouted slug transport wildcard faithful path s).0
        ∙ ap (Option.map shown) (delete_reports s).1;
  }

module _ (values : HeaderValues) (unrouted : Response) (slug : Text) (transport : Transport)
    (wildcard : Text → Option Text) (faithful : IsFaithful values transport wildcard) where
  -- A path that reaches the router as it is written, and where nothing is stored.
  abbrev pub IsFree : LdpStore → Text → Type 0
  IsFree s path =
      (place values unrouted slug transport wildcard faithful path ≡ path)
      × (Store.get path s ≡ none)

  pub get_free :
      (s : LdpStore) (path : Text)
      → IsFree s path
      → Store.get (place values unrouted slug transport wildcard faithful path) s ≡ none
  get_free s path (arrives, absent) = ap (λ k. Store.get k s) arrives ∙ absent

  pub arrived-Serves :
      (path : Text)
      → place values unrouted slug transport wildcard faithful path ≡ path
      → text_eq (slash ∷ []) path ≡ false
      → Serves
          (client values unrouted slug transport)
          path
          (IsReadable values)
          (look values unrouted slug transport wildcard faithful path)
  arrived-Serves path arrives not_root =
      server-Serves values unrouted slug transport wildcard faithful path
        (ap (text_eq (slash ∷ [])) arrives ∙ not_root)

  pub not_there :
      (s : LdpStore) (path : Text)
      → IsFree s path
      → look values unrouted slug transport wildcard faithful path s ≡ none
  not_there s path free =
      ap (Option.map (shown values unrouted slug transport wildcard faithful path))
        (get_free s path free)
