-- ===== src/ServerCore/Store.antt =====
-- server-core/src/store.rs: the in-memory store of resources. A method that writes returns the
-- new store. `put` takes the lock twice: here nothing comes between, and Concurrent lets other calls do so.
pub mod Ancestors
pub mod Keys
pub mod Invariant
pub mod Access
pub mod Untouched
pub mod Containers
pub mod Refinement
pub mod Concurrent
use solid_community_rs.Prelude.{
  ℕ, Bool, true, false, List, [], ◌∷◌, ◌++◌, Option, some, Text, text, text_eq, slash, starts_with,
  ends_with, is_empty, trim_end_matches, length, ltb, not, is_some, if◌then◌else◌,
}
use solid_community_rs.Prelude.HashMap
use solid_community_rs.Prelude.HashMap.{HashMap}
use solid_community_rs.Prelude.Split.{splitn}

pub record Entry : Type 0 where
  pub body : List ℕ
  pub content_type : Text
  pub is_container : Bool

pub record LdpStore : Type 0 where
  pub inner : HashMap Entry

abbrev pub turtle : Text
turtle = text "text/turtle"

-- The entry of the root and of every container that is created on the way.
abbrev pub auto_container : Entry
auto_container = record { body = []; content_type = turtle; is_container = true }

unfoldable pub new : LdpStore
new = record { inner = HashMap.insert (slash ∷ []) auto_container HashMap.empty }

-- Normalise a URL path: a key starts with a slash.
unfoldable pub key : Text → Text
unfolding starts_with
key path = if starts_with path (slash ∷ []) then path else slash ∷ path

unfoldable pub get : Text → LdpStore → Option Entry
get path s = HashMap.get s.inner (key path)

unfoldable pub exists : Text → LdpStore → Bool
exists path s = HashMap.contains_key s.inner (key path)

-- `map.entry(k).or_insert_with(…)`
unfoldable pub or_insert : Text → Entry → HashMap Entry → HashMap Entry
or_insert k e m = if HashMap.contains_key m k then m else HashMap.insert k e m

-- One round of the loop on `current`.
unfoldable pub extend : Text → Text → Text
unfolding ends_with
extend current part =
    if is_empty part
    then current ++ slash ∷ []
    else ((if ends_with current slash then current else current ++ slash ∷ []) ++ part)
      ++ slash ∷ []

-- The key that a round writes: a doubled slash stands for the root.
unfoldable pub store_key : Text → Text
unfolding text_eq
store_key current = if text_eq current (slash ∷ slash ∷ []) then slash ∷ [] else current

pub ensure_each : HashMap Entry → Text → List Text → HashMap Entry
ensure_each m current [] = m
ensure_each m current (part ∷ parts) =
    let next = extend current part in
    ensure_each (or_insert (store_key next) auto_container m) next parts

-- `parts.pop()`
abbrev pub without_last : List Text → List Text
without_last [] = []
without_last (x ∷ []) = []
without_last (x ∷ y ∷ l) = x ∷ without_last (y ∷ l)

pub ancestor_parts : Text → List Text
ancestor_parts k =
    let parts = splitn 100 (trim_end_matches k slash) slash in
    if ltb 1 (length parts) then without_last parts else parts

unfoldable pub ensure_ancestors : Text → LdpStore → LdpStore
unfolding ensure_each or_insert extend store_key ancestor_parts splitn trim_end_matches
ensure_ancestors k s = record { inner = ensure_each s.inner [] (ancestor_parts k) }

-- `true` if the resource was not there before.
unfoldable pub put : Text → List ℕ → Text → LdpStore → Bool × LdpStore
put path body content_type s =
    let k = key path in
    let s' = ensure_ancestors k s in
    (
      not (HashMap.contains_key s'.inner k),
      record {
        inner =
            HashMap.insert k
              (record {
                body = body;
                content_type = content_type;
                is_container = ends_with k slash;
              })
              s'.inner;
      },
    )

unfoldable pub delete : Text → LdpStore → Bool × LdpStore
delete path s =
    let k = key path in
    (is_some (HashMap.get s.inner k), record { inner = HashMap.remove k s.inner })

unfoldable pub is_container : Text → Bool
is_container path = ends_with (key path) slash
