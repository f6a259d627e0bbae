-- ===== src/SolidStorage/Memory.antt =====
-- solid-storage/src/backends/memory.rs: the storage that keeps its values in a map. Its only error
-- is a lock whose holder has panicked, which no operation does.
use solid_community_rs.Prelude.{Bool, List, [], ◌∷◌, Text, Option, is_some}
use solid_community_rs.Prelude.HashMap
use solid_community_rs.Prelude.HashMap.{HashMap}

pub record MemoryMapStorage (V : Type 0) : Type 0 where
  pub values : HashMap V

module _ {V : Type 0} where
  unfoldable pub new : MemoryMapStorage V
  new = record { values = HashMap.empty }

  abbrev insert_all : List (Text × V) → HashMap V → HashMap V
  insert_all [] m = m
  insert_all ((k, v) ∷ rest) m = insert_all rest (HashMap.insert k v m)

  unfoldable pub from_iter : List (Text × V) → MemoryMapStorage V
  from_iter pairs = record { values = insert_all pairs HashMap.empty }

  unfoldable pub get : Text → MemoryMapStorage V → Option V
  get key s = HashMap.get s.values key

  unfoldable pub has : Text → MemoryMapStorage V → Bool
  has key s = HashMap.contains_key s.values key

  unfoldable pub set : Text → V → MemoryMapStorage V → MemoryMapStorage V
  set key value s = record { values = HashMap.insert key value s.values }

  unfoldable pub delete : Text → MemoryMapStorage V → Bool × MemoryMapStorage V
  delete key s =
      (is_some (HashMap.get s.values key), record { values = HashMap.remove key s.values })

  unfoldable pub entries : MemoryMapStorage V → List (Text × V)
  entries s = HashMap.entries s.values
