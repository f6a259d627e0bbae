-- ===== src/ServerCore/Store/Concurrent.antt =====
-- The store with several requests at work: server-core/src/store.rs, `put`, takes the lock for the
-- ancestors, lets it go and takes it again for the resource, and other calls may come between.
pub mod Closure
use solid_community_rs.Prelude.{
  ◌≡◌, refl, sym, ap, ◌∙◌, Bool, true, false, not, ℕ, List, [], ◌∷◌, ◌++◌, Option, none, some,
  arith, Text, text_eq, slash, ends_with, member, if◌then◌else◌,
}
use solid_community_rs.Prelude.HashMap
use solid_community_rs.Prelude.HashMap.{get-insert}
use solid_community_rs.ServerCore.Store.{Entry, LdpStore, new, key, put, delete, ensure_ancestors}
use solid_community_rs.ServerCore.Store.Keys.{key_idem, written_keys, get-ensure_ancestors}
use solid_community_rs.ServerCore.Store.Invariant.{
  IsWellFormed, FitsKey, insert_fits, or_auto_fits, written_fits, new-IsWellFormed,
  delete-IsWellFormed,
}

-- A `put` that has created the ancestors and waits for the lock again.
pub record Pending : Type 0 where
  pub path : Text
  pub body : List ℕ
  pub content_type : Text

abbrev pub pending_entry : Pending → Entry
pending_entry p = record {
  body = p.body;
  content_type = p.content_type;
  is_container = ends_with (key p.path) slash;
}

-- The second section of `put` under the lock.
unfoldable pub store_entry : Pending → LdpStore → Bool × LdpStore
store_entry p s = (
  not (HashMap.contains_key s.inner (key p.path)),
  record { inner = HashMap.insert (key p.path) (pending_entry p) s.inner },
)

pub record System : Type 0 where
  pub store : LdpStore
  pub waiting : List Pending

abbrev pub start : System
start = record { store = new; waiting = [] }

-- One section under the lock. The reads change nothing and are left out.
pub data Step : System → System → Type 0 where
  begin :
      (p : Pending) (s : LdpStore) (ps : List Pending)
      → Step
          (record { store = s; waiting = ps })
          (record { store = ensure_ancestors (key p.path) s; waiting = p ∷ ps })
  finish :
      (p : Pending) (s : LdpStore) (ps qs : List Pending)
      → Step
          (record { store = s; waiting = ps ++ p ∷ qs })
          (record { store = (store_entry p s).1; waiting = ps ++ qs })
  remove :
      (path : Text) (s : LdpStore) (ps : List Pending)
      → Step
          (record { store = s; waiting = ps })
          (record { store = (delete path s).1; waiting = ps })

pub data Reach : System → Type 0 where
  initial : Reach start
  later : (s t : System) → Reach s → Step s t → Reach t

-- The steps of `put`.
abbrev pub IsPut : {s t : System} → Step s t → Type 0
IsPut (begin _ _ _) = Unit
IsPut (finish _ _ _ _) = Unit
IsPut (remove _ _ _) = ⊥

-- What is reached by steps of `put` alone.
pub data ReachByPuts : System → Type 0 where
  untouched : ReachByPuts start
  further : (s t : System) → ReachByPuts s → (st : Step s t) → IsPut st → ReachByPuts t

-- With nothing between, the two sections are `put`.
put_sections :
    (p : Pending) (s : LdpStore)
    → put p.path p.body p.content_type s ≡ store_entry p (ensure_ancestors (key p.path) s)
unfolding put store_entry
put_sections p s = refl

ensure_ancestors-IsWellFormed :
    (path : Text) (s : LdpStore) → IsWellFormed s → IsWellFormed (ensure_ancestors (key path) s)
ensure_ancestors-IsWellFormed path s wf = record {
  at_key = λ k e h.
      or_auto_fits k e _ _ (written_fits path k) (wf.at_key k e)
        (sym (get-ensure_ancestors (key path) s k) ∙ h);
}

store_entry-IsWellFormed :
    (p : Pending) (s : LdpStore) → IsWellFormed s → IsWellFormed (store_entry p s).1
unfolding store_entry
store_entry-IsWellFormed p s wf = record {
  at_key = λ k e h.
      insert_fits (key p.path) k (pending_entry p) e _ (key_idem p.path, refl) (wf.at_key k e)
        (sym (get-insert s.inner (key p.path) k (pending_entry p)) ∙ h);
}

Step-IsWellFormed : (s t : System) → Step s t → IsWellFormed s.store → IsWellFormed t.store
Step-IsWellFormed _ _ (begin p s ps) wf = ensure_ancestors-IsWellFormed p.path s wf
Step-IsWellFormed _ _ (finish p s ps qs) wf = store_entry-IsWellFormed p s wf
Step-IsWellFormed _ _ (remove path s ps) wf = delete-IsWellFormed path s wf

-- However the sections of the calls interleave, the store stays well-formed: its keys are
-- normalised, and the container flag of each entry is that of its key.
pub Reach-IsWellFormed : (s : System) → Reach s → IsWellFormed s.store
Reach-IsWellFormed _ initial = new-IsWellFormed
Reach-IsWellFormed _ (later s t r st) = Step-IsWellFormed s t st (Reach-IsWellFormed s r)
