-- ===== src/ServerCore/Handlers/Reads.antt =====
-- GET, HEAD, and what they answer after a write.
use solid_community_rs.Prelude.{
  ℕ, ◌≡◌, refl, ◌⊎◌, Bool, true, false, inl, inr, List, [], ◌∷◌, Option, none, some, arith, Text,
  Bool-cases, Option-cases, if◌then◌else◌, text_eq,
}
use solid_community_rs.ServerCore.Http.{HeaderValues, Request, Response, header, content_type, link}
use solid_community_rs.ServerCore.Store
use solid_community_rs.ServerCore.Store.{Entry, LdpStore}
use solid_community_rs.ServerCore.Handlers.{
  resolve_path, header_text, checked, refuses, found, found_head, get_entry, head_entry, handle_get,
  handle_head, request_type, not_found, not_acceptable, container_link, resource_link,
}

-- A resolved path is a key already.
pub key-resolve_path : (w : Option Text) → Store.key (resolve_path w) ≡ resolve_path w
unfolding resolve_path Store.key
key-resolve_path none = refl
key-resolve_path (some []) = refl
key-resolve_path (some (c ∷ p)) = ground arith

module _ (values : HeaderValues) where
  pub request_type_valid : (req : Request) → values.is_valid (request_type values req) ≡ true
  unfolding header_text
  request_type_valid req = elim (Option-cases (req.headers content_type)) [
    | inl e ↦ rw e values.octets_valid
    | inr (v, e) ↦ elim (Option-cases (values.to_str v)) [
      | inl e' ↦ rw e (rw e' values.octets_valid)
      | inr (t, e') ↦ rw e (rw e' (values.to_str_valid v t e'))
    ]
  ]

  -- What a HEAD response and a GET response have in common.
  abbrev pub Agree : Response → Response → Type 0
  Agree h g =
      (h.status ≡ g.status)
      × (header content_type h.headers ≡ header content_type g.headers)
      × ((h ≡ g) ⊎ ((h.status ≡ 200) × (h.body ≡ [])))

  found_agrees : (entry : Entry) → Agree (found_head values entry) (found values entry)
  unfolding checked header text_eq
  found_agrees entry = elim (Bool-cases (values.is_valid entry.content_type)) [
    | inl v ↦ rw v (refl, refl, inr (refl, refl))
    | inr v ↦ rw v (refl, refl, inl refl)
  ]

  entry_agrees :
      (k : Text) (accept : Option Text) (o : Option Entry)
      → Agree (head_entry values k accept o) (get_entry values k accept o)
  unfolding get_entry head_entry not_found not_acceptable
  entry_agrees k accept none = (refl, refl, inl refl)
  entry_agrees k accept (some entry) = elim (Bool-cases (refuses accept entry.content_type)) [
    | inl r ↦ rw r (refl, refl, inl refl)
    | inr r ↦ rw r (found_agrees entry)
  ]

  -- HEAD has the status and the content type of GET, whatever the store and the request; it is the
  -- very response of GET, or a 200 without a body, and neither writes the store.
  pub head_agrees_with_get :
      (req : Request) (s : LdpStore)
      → let (g, s') = handle_get values req s in
        let (h, s'') = handle_head values req s in Agree h g × (s' ≡ s) × (s'' ≡ s)
  unfolding handle_get handle_head
  head_agrees_with_get req s = (entry_agrees _ _ _, refl, refl)

  -- The response to a GET of an entry that the client accepts.
  abbrev pub served : List ℕ → Text → Bool → Response
  served body type container = record {
    status = 200;
    headers =
        (content_type, type) ∷ (link, if container then container_link else resource_link) ∷ [];
    body = body;
  }

  pub get_entry-served :
      (k : Text) (accept : Option Text) (entry : Entry)
      → refuses accept entry.content_type ≡ false
      → values.is_valid entry.content_type ≡ true
      → get_entry values k accept (some entry)
        ≡ served entry.body entry.content_type entry.is_container
  unfolding get_entry checked
  get_entry-served k accept entry r v = rw (r, v) refl
