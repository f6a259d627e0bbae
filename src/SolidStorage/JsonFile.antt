-- ===== src/SolidStorage/JsonFile.antt =====
-- solid-storage/src/backends/file.rs: storage in one JSON file, which is read whole for each
-- operation and written whole for each change. `Disk` is the state of the file system and the
-- record `Files` what tokio and serde_json do; the lock makes each operation one step.
pub mod Laws
mod Tests
use solid_community_rs.Prelude.{
  ◌≡◌, Bool, true, false, List, [], ◌∷◌, Option, none, some, Text, is_some,
}
use solid_community_rs.Prelude.HashMap
use solid_community_rs.Prelude.HashMap.{HashMap}
use solid_community_rs.SolidStorage.ResourceStore.{StorageError, Result, ok, err, io, json}

-- What reading a file to a string gives.
pub data Reading : Type 0 where
  contents : Text → Reading
  not_there : Reading
  failed : Text → Reading

pub record Files (Disk Value V : Type 0) : Type 0 where
  pub read_to_string : Disk → Reading
  pub create_parent : Disk → Option Text × Disk
  pub write : Text → Disk → Option Text × Disk
  pub from_str : Text → Option (HashMap Value)
  pub to_string_pretty : HashMap Value → Option Text
  pub to_value : V → Option Value
  pub from_value : Value → Option V

module _ {Disk Value V : Type 0} (files : Files Disk Value V) where
  abbrev pub parsed : Option (HashMap Value) → Result (HashMap Value)
  parsed none = err (json [])
  parsed (some map) = ok map

  -- A file that is not there is an empty map.
  abbrev pub map_of : Reading → Result (HashMap Value)
  map_of (contents text) = parsed (files.from_str text)
  map_of not_there = ok HashMap.empty
  map_of (failed e) = err (io e)

  unfoldable pub read_map : Disk → Result (HashMap Value)
  read_map d = map_of (files.read_to_string d)

  abbrev pub after_write : Option Text × Disk → Result (Unit {0}) × Disk
  after_write (none, d) = (ok tt, d)
  after_write (some e, d) = (err (io e), d)

  abbrev pub write_text : Option Text → Disk → Result (Unit {0}) × Disk
  write_text none d = (err (json []), d)
  write_text (some text) d = after_write (files.write text d)

  abbrev pub after_create : HashMap Value → Option Text × Disk → Result (Unit {0}) × Disk
  after_create map (some e, d) = (err (io e), d)
  after_create map (none, d) = write_text (files.to_string_pretty map) d

  -- The text is made after the folder.
  unfoldable pub write_map : HashMap Value → Disk → Result (Unit {0}) × Disk
  write_map map d = after_create map (files.create_parent d)

  abbrev pub decoded : Option V → Result (Option V)
  decoded none = err (json [])
  decoded (some v) = ok (some v)

  abbrev pub decode_entry : Option Value → Result (Option V)
  decode_entry none = ok none
  decode_entry (some raw) = decoded (files.from_value raw)

  abbrev pub get_in : Text → Result (HashMap Value) → Result (Option V)
  get_in key (err e) = err e
  get_in key (ok map) = decode_entry (HashMap.get map key)

  unfoldable pub get : Text → Disk → Result (Option V)
  unfolding read_map
  get key d = get_in key (read_map d)

  abbrev pub has_in : Text → Result (HashMap Value) → Result Bool
  has_in key (err e) = err e
  has_in key (ok map) = ok (HashMap.contains_key map key)

  unfoldable pub has : Text → Disk → Result Bool
  unfolding read_map
  has key d = has_in key (read_map d)

  abbrev pub set_value : Text → Option Value → HashMap Value → Disk → Result (Unit {0}) × Disk
  set_value key none map d = (err (json []), d)
  set_value key (some raw) map d = write_map (HashMap.insert key raw map) d

  abbrev pub set_in : Text → V → Result (HashMap Value) → Disk → Result (Unit {0}) × Disk
  set_in key value (err e) d = (err e, d)
  set_in key value (ok map) d = set_value key (files.to_value value) map d

  unfoldable pub set : Text → V → Disk → Result (Unit {0}) × Disk
  unfolding read_map write_map
  set key value d = set_in key value (read_map d) d

  abbrev pub existed_after : Result (Unit {0}) × Disk → Result Bool × Disk
  existed_after (ok u, d) = (ok true, d)
  existed_after (err e, d) = (err e, d)

  abbrev pub delete_in : Text → Result (HashMap Value) → Disk → Result Bool × Disk
  delete_in key (err e) d = (err e, d)
  delete_in key (ok map) d = elim (HashMap.contains_key map key) [
    | true ↦ existed_after (write_map (HashMap.remove key map) d)
    | false ↦ (ok false, d)
  ]

  -- The file is written only if the key was there.
  unfoldable pub delete : Text → Disk → Result Bool × Disk
  unfolding read_map write_map
  delete key d = delete_in key (read_map d) d

  abbrev pub push_entry : Text → Option V → Result (List (Text × V)) → Result (List (Text × V))
  push_entry k none rest = err (json [])
  push_entry k (some v) (ok rest) = ok ((k, v) ∷ rest)
  push_entry k (some v) (err e) = err e

  -- The loop stops at the first value that cannot be read.
  unfoldable pub decode_all : List (Text × Value) → Result (List (Text × V))
  decode_all [] = ok []
  decode_all ((k, raw) ∷ rest) = push_entry k (files.from_value raw) (decode_all rest)

  abbrev pub entries_in : Result (HashMap Value) → Result (List (Text × V))
  entries_in (err e) = err e
  entries_in (ok map) = decode_all (HashMap.entries map)

  unfoldable pub entries : Disk → Result (List (Text × V))
  unfolding read_map decode_all
  entries d = entries_in (read_map d)
