-- ===== src/ServerCore/Handlers/Safety.antt =====
-- What a handler does to the store, and the invariants that it keeps.
use solid_community_rs.Prelude.{
  ℕ, ◌≡◌, ◌≢◌, refl, Bool, true, false, List, Option, none, some, arith, Text, text_eq, Bool-cases,
  inl, inr, if◌then◌else◌,
}
use solid_community_rs.Prelude.HashMap
use solid_community_rs.Prelude.HashMap.{get-empty, get-insert, get-remove}
use solid_community_rs.ServerCore.Http.{HeaderValues, Request}
use solid_community_rs.ServerCore.Store
use solid_community_rs.ServerCore.Store.{Entry, LdpStore, new}
use solid_community_rs.ServerCore.Store.Ancestors.{or_auto}
use solid_community_rs.ServerCore.Store.Access.{written, get-put}
use solid_community_rs.ServerCore.Store.Invariant.{
  IsWellFormed, new-IsWellFormed, put-IsWellFormed, delete-IsWellFormed,
}
use solid_community_rs.ServerCore.Handlers.{
  handle_get, handle_put, put_body, handle_post, post_body, handle_delete, request_type, checked,
  get_entry, refuses, not_found, not_acceptable,
}
use solid_community_rs.ServerCore.Handlers.Reads.{request_type_valid}

-- The three things that can happen to the store.
pub data Effect (values : HeaderValues) (s s' : LdpStore) : Type 0 where
  kept : s' ≡ s → Effect values s s'
  stored :
      (k : Text) (body : List ℕ) (req : Request)
      → s' ≡ (Store.put k body (request_type values req) s).1
      → Effect values s s'
  removed : (k : Text) → s' ≡ (Store.delete k s).1 → Effect values s s'

module _ (values : HeaderValues) where
  pub handle_put-Effect :
      (req : Request) (s : LdpStore) → Effect values s (handle_put values req s).1
  unfolding handle_put
  handle_put-Effect req s = at_body req.body
    where
      at_body : (b : Option (List ℕ)) → Effect values s (put_body values req b s).1
      at_body none = unfold put_body in kept refl
      at_body (some body) = unfold put_body in stored _ body req refl

  pub handle_post-Effect :
      (slug : Text) (req : Request) (s : LdpStore)
      → Effect values s (handle_post values slug req s).1
  unfolding handle_post
  handle_post-Effect slug req s = at_body req.body
    where
      at_body : (b : Option (List ℕ)) → Effect values s (post_body values slug req b s).1
      at_body none = unfold post_body in kept refl
      at_body (some body) = unfold post_body in stored _ body req refl

  pub handle_delete-Effect :
      (req : Request) (s : LdpStore) → Effect values s (handle_delete req s).1
  unfolding handle_delete
  handle_delete-Effect req s = removed _ refl

  -- Every stored content type can be written in a header.
  pub record TypesAreValid (s : LdpStore) : Type 0 where
    pub at_key :
        (k : Text) (e : Entry)
        → HashMap.get s.inner k ≡ some e
        → values.is_valid e.content_type ≡ true

  insert_valid :
      (k j : Text) (v e : Entry) (o : Option Entry)
      → values.is_valid v.content_type ≡ true
      → (o ≡ some e → values.is_valid e.content_type ≡ true)
      → (if text_eq k j then some v else o) ≡ some e
      → values.is_valid e.content_type ≡ true
  insert_valid k j v e o new old h = elim (Bool-cases (text_eq k j)) [
    | inl same ↦ let found : v ≡ e = ground (arith, rw same at h) in rw (← found) new
    | inr other ↦ old (rw other at h)
  ]

  or_auto_valid :
      (e : Entry) (m : Bool) (o : Option Entry)
      → (o ≡ some e → values.is_valid e.content_type ≡ true)
      → or_auto m o ≡ some e
      → values.is_valid e.content_type ≡ true
  or_auto_valid e m (some e') old h = old h
  or_auto_valid e true none old h =
      let found : Store.auto_container ≡ e = ground arith in rw (← found) values.turtle_valid
  or_auto_valid e false none old h = old h

  pub new-TypesAreValid : TypesAreValid new
  unfolding new
  new-TypesAreValid = record {
    at_key = λ k e h.
        insert_valid _ k Store.auto_container e none values.turtle_valid (λ p. cc p)
          (rw (get-insert, get-empty) at h);
  }

  Effect-TypesAreValid : {s s' : LdpStore} → Effect values s s' → TypesAreValid s → TypesAreValid s'
  unfolding Store.delete
  Effect-TypesAreValid (kept e) h = rw e h
  Effect-TypesAreValid {s} (stored k body req e) h = rw e (record {
    at_key = λ j v found.
        insert_valid _ j (written k body (request_type values req)) v _
          (request_type_valid values req) (or_auto_valid v _ _ (h.at_key j v))
          (rw (get-put k body (request_type values req) s j) at found);
  })
  Effect-TypesAreValid {s} (removed k e) h = rw e (record {
    at_key = λ j v found. h.at_key j v (ground (arith, get-remove s.inner (Store.key k) j));
  })

  Effect-IsWellFormed : {s s' : LdpStore} → Effect values s s' → IsWellFormed s → IsWellFormed s'
  Effect-IsWellFormed (kept e) h = rw e h
  Effect-IsWellFormed {s} (stored k body req e) h =
      rw e (put-IsWellFormed k body (request_type values req) s h)
  Effect-IsWellFormed {s} (removed k e) h = rw e (delete-IsWellFormed k s h)

  -- The keys are normalised, the container flags are those of the keys, and the types are valid.
  pub record IsSound (s : LdpStore) : Type 0 where
    pub well_formed : IsWellFormed s
    pub types_valid : TypesAreValid s

  pub new-IsSound : IsSound new
  new-IsSound = record { well_formed = new-IsWellFormed; types_valid = new-TypesAreValid }

  pub Effect-IsSound : {s s' : LdpStore} → Effect values s s' → IsSound s → IsSound s'
  Effect-IsSound e h = record {
    well_formed = Effect-IsWellFormed e h.well_formed;
    types_valid = Effect-TypesAreValid e h.types_valid;
  }

  get_entry_no_error :
      (k : Text) (accept : Option Text) (o : Option Entry)
      → ((e : Entry) → o ≡ some e → values.is_valid e.content_type ≡ true)
      → (get_entry values k accept o).status ≢ 500
  unfolding get_entry checked not_found not_acceptable
  get_entry_no_error k accept none h = omega arith
  get_entry_no_error k accept (some e) h = elim (Bool-cases (refuses accept e.content_type)) [
    | inl r ↦ rw r (omega arith)
    | inr r ↦ rw r (rw (h e refl) (omega arith))
  ]

  -- From a sound store GET never fails with a 500.
  pub get_no_error :
      (req : Request) (s : LdpStore) → IsSound s → (handle_get values req s).0.status ≢ 500
  unfolding handle_get Store.get
  get_no_error req s h = get_entry_no_error _ _ _ (λ e found. h.types_valid.at_key _ e found)
