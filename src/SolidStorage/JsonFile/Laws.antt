-- ===== src/SolidStorage/JsonFile/Laws.antt =====
-- What is read after a write to the JSON file, and what an error leaves behind.
use solid_community_rs.Prelude.{◌≡◌, refl, Option, none, some, Text}
use solid_community_rs.Prelude.HashMap
use solid_community_rs.Prelude.HashMap.{HashMap}
use solid_community_rs.SolidStorage.ResourceStore.{Result, ok}
use solid_community_rs.SolidStorage.JsonFile.{
  Files, contents, read_map, after_write, after_create, write_map, get, set,
}

-- What the storage relies on: a write that succeeds is read back, creating folders is not seen in
-- the file, and JSON text and JSON values are read back as what was written.
pub record AreFaithful {Disk Value V : Type 0} (files : Files Disk Value V) : Type 0 where
  pub written :
      (t : Text) (d d' : Disk)
      → ◌≡◌ {A = Option Text × Disk} (files.write t d) (none, d')
      → files.read_to_string d' ≡ contents t
  pub created : (d : Disk) → files.read_to_string (files.create_parent d).1 ≡ files.read_to_string d
  pub parsed_back :
      (m : HashMap Value) (t : Text)
      → files.to_string_pretty m ≡ some t
      → (m' : HashMap Value) × (files.from_str t ≡ some m')
        × ((k : Text) → HashMap.get m' k ≡ HashMap.get m k)
  pub decoded_back :
      (v : V) (raw : Value) → files.to_value v ≡ some raw → files.from_value raw ≡ some v

module _ {Disk Value V : Type 0} (files : Files Disk Value V) (faithful : AreFaithful files) where
  abbrev pub Outcome : Type 0
  Outcome = Result (Unit {0}) × Disk

  -- Writes that do not fail.
  abbrev pub CanWrite : Type 0
  CanWrite = (t : Text) (d : Disk) → (files.write t d).0 ≡ none

  after_write_done : (p : Option Text × Disk) → p.0 ≡ none → (after_write files p).0 ≡ ok tt
  after_write_done (none, d) c = refl
  after_write_done (some e, d) c = cc c

  after_create_done :
      (m : HashMap Value) (t : Text) (p : Option Text × Disk)
      → p.0 ≡ none
      → files.to_string_pretty m ≡ some t
      → CanWrite
      → (after_create files m p).0 ≡ ok tt
  after_create_done m t (some e, d) c text w = cc c
  after_create_done m t (none, d) c text w = rw text (after_write_done (files.write t d) (w t d))

  -- A `set` succeeds if the file is read as a map, the value and then the map can be encoded, the
  -- folder can be made and the file can be written.
  pub set_gives_ok :
      (key : Text) (value : V) (d : Disk) (m : HashMap Value) (raw : Value) (t : Text)
      → read_map files d ≡ ok m
      → files.to_value value ≡ some raw
      → (files.create_parent d).0 ≡ none
      → files.to_string_pretty (HashMap.insert key raw m) ≡ some t
      → CanWrite
      → (set files key value d).0 ≡ ok tt
  unfolding set write_map
  set_gives_ok key value d m raw t there made folder text w =
      rw (there, made)
        (after_create_done (HashMap.insert key raw m) t (files.create_parent d) folder text w)
