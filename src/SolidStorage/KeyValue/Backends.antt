-- ===== src/SolidStorage/KeyValue/Backends.antt =====
-- The memory storage keeps the promise of the interface.
use solid_community_rs.Prelude.{refl}
use solid_community_rs.Prelude.HashMap.{get-insert, get-remove}
use solid_community_rs.Prelude.HashMap.Listing.{keys_where-entries}
use solid_community_rs.SolidStorage.ResourceStore.{ok}
use solid_community_rs.SolidStorage.Memory
use solid_community_rs.SolidStorage.Memory.{MemoryMapStorage}
use solid_community_rs.SolidStorage.KeyValue.{KeyValueStorage, IsMap, ListsAll}

abbrev pub memory : {V : Type 0} → KeyValueStorage V (MemoryMapStorage V)
memory = record {
  get = λ k s. (ok (Memory.get k s), s);
  has = λ k s. (ok (Memory.has k s), s);
  set = λ k v s. (ok tt, Memory.set k v s);
  delete = λ k s. let (b, s') = Memory.delete k s in (ok b, s');
  entries = λ s. (ok (Memory.entries s), s);
}

pub memory-IsMap : {V : Type 0} → IsMap (memory {V = V}) (λ s k. Memory.get k s)
unfolding Memory.get Memory.has Memory.set Memory.delete
memory-IsMap = record {
  got = λ k s. refl;
  kept = λ k j s. refl;
  there = λ k s. refl;
  seen = λ k j s. refl;
  stored = λ k v s. refl;
  put = λ k v s j. get-insert s.values k j v;
  deleted = λ k s. (_, refl);
  dropped = λ k s j. get-remove s.values k j;
}

pub memory-ListsAll : {V : Type 0} → ListsAll (memory {V = V}) (λ s k. Memory.get k s)
unfolding Memory.get Memory.entries
memory-ListsAll = record {
  listed = λ s. (_, refl, λ p k. keys_where-entries p s.values k);
  unlisted = λ s k. refl;
}
