-- ===== src/SolidStorage/JsonFile/Tests.antt =====
-- The theorems on the file storage at a disk that holds one file of numbers.
use solid_community_rs.Prelude.{
  ℕ, zero, suc, ◌≡◌, refl, List, [], ◌∷◌, ◌++◌, map, Option, none, some, Text, text,
}
use solid_community_rs.Prelude.HashMap
use solid_community_rs.Prelude.HashMap.{HashMap, Pairs}
use solid_community_rs.SolidStorage.ResourceStore.{ok}
use solid_community_rs.SolidStorage.JsonFile
use solid_community_rs.SolidStorage.JsonFile.{Files, Reading, contents, not_there}

-- An entry is its value, its key and a zero, with the code points moved up by one.
abbrev printed : Pairs ℕ → Text
printed [] = []
printed ((k, v) ∷ l) = suc v ∷ (map (λ c. suc c) k ++ zero ∷ printed l)

abbrev extend_piece : ℕ → List Text → List Text
extend_piece c [] = (c ∷ []) ∷ []
extend_piece c (p ∷ ps) = (c ∷ p) ∷ ps

abbrev pieces : Text → List Text
pieces [] = []
pieces (zero ∷ t) = [] ∷ pieces t
pieces (suc c ∷ t) = extend_piece c (pieces t)

abbrev entry_of : Text → Text × ℕ
entry_of [] = ([], 0)
entry_of (v ∷ k) = (k, v)

abbrev read_disk : Option Text → Reading
read_disk none = not_there
read_disk (some t) = contents t

-- Zero cannot be encoded.
abbrev encode : ℕ → Option ℕ
encode zero = none
encode (suc v) = some (suc v)

abbrev disk : Files (Option Text) ℕ ℕ
disk = record {
  read_to_string = read_disk;
  create_parent = λ d. (none, d);
  write = λ t d. (none, some t);
  from_str = λ t. some (record { pairs = map entry_of (pieces t) });
  to_string_pretty = λ m. some (printed m.pairs);
  to_value = encode;
  from_value = λ v. some v;
}

abbrev k : Text
k = text "k"

abbrev after : Option Text
after = (JsonFile.set disk k 7 none).1

abbrev one_entry : HashMap ℕ
one_entry = HashMap.insert k 7 HashMap.empty

after_read : JsonFile.read_map disk after ≡ ok one_entry
unfolding JsonFile.set JsonFile.read_map JsonFile.write_map HashMap.insert HashMap.empty
after_read = refl
