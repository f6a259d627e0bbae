-- ===== src/SolidStorage/KeyValue.antt =====
-- solid-storage/src/key_value.rs: the interface of a key-value storage, what a storage promises by
-- it, and the storage that rewrites keys. An operation takes the state and returns the next.
pub mod Backends
use solid_community_rs.Prelude.{
  ◌≡◌, refl, Bool, true, false, List, [], ◌∷◌, Option, none, some, map, arith, Text, member,
  text_eq, is_some, if◌then◌else◌,
}
use solid_community_rs.Prelude.HashMap.Listing.{keys_where, holds}
use solid_community_rs.SolidStorage.ResourceStore.{Result, ok, err}

-- The trait `KeyValueStorage`, with texts for keys.
pub record KeyValueStorage (V S : Type 0) : Type 0 where
  pub get : Text → S → Result (Option V) × S
  pub has : Text → S → Result Bool × S
  pub set : Text → V → S → Result (Unit {0}) × S
  pub delete : Text → S → Result Bool × S
  pub entries : S → Result (List (Text × V)) × S

abbrev pub map_ok : {A B : Type 0} → (A → B) → Result A → Result B
map_ok f (ok a) = ok (f a)
map_ok f (err e) = err e

-- The provided methods of the trait `PassthroughKeyValueStorage`.
unfoldable pub passthrough :
    {V S : Type 0} → (Text → Text) → (Text → Text) → KeyValueStorage V S → KeyValueStorage V S
passthrough to_new_key to_original_key source = record {
  get = λ key s. source.get (to_new_key key) s;
  has = λ key s. source.has (to_new_key key) s;
  set = λ key value s. source.set (to_new_key key) value s;
  delete = λ key s. source.delete (to_new_key key) s;
  entries = λ s.
      let (raw, s') = source.entries s in (map_ok (map (λ e. (to_original_key e.0, e.1))) raw, s');
}

-- A storage is a map: `view` tells what a state holds, the reads are answered from it and keep it,
-- and the writes succeed and do to it what they say. What `delete` answers is left open.
pub record IsMap {V S : Type 0} (storage : KeyValueStorage V S) (view : S → Text → Option V)
    : Type 0 where
  pub got : (k : Text) (s : S) → (storage.get k s).0 ≡ ok (view s k)
  pub kept : (k j : Text) (s : S) → view (storage.get k s).1 j ≡ view s j
  pub there : (k : Text) (s : S) → (storage.has k s).0 ≡ ok (is_some (view s k))
  pub seen : (k j : Text) (s : S) → view (storage.has k s).1 j ≡ view s j
  pub stored : (k : Text) (v : V) (s : S) → (storage.set k v s).0 ≡ ok tt
  pub put :
      (k : Text) (v : V) (s : S) (j : Text)
      → view (storage.set k v s).1 j ≡ (if text_eq k j then some v else view s j)
  pub deleted : (k : Text) (s : S) → (b : Bool) × ((storage.delete k s).0 ≡ ok b)
  pub dropped :
      (k : Text) (s : S) (j : Text)
      → view (storage.delete k s).1 j ≡ (if text_eq k j then none else view s j)

-- Listing succeeds and changes nothing, and for every test of values it lists a key with a value that
-- passes exactly if the map has such a value at the key.
pub record ListsAll {V S : Type 0} (storage : KeyValueStorage V S) (view : S → Text → Option V)
    : Type 0 where
  pub listed :
      (s : S)
      → (l : List (Text × V)) × ((storage.entries s).0 ≡ ok l)
        × ((p : V → Bool) (k : Text) → member k (keys_where p l) ≡ holds p (view s k))
  pub unlisted : (s : S) (k : Text) → view (storage.entries s).1 k ≡ view s k
