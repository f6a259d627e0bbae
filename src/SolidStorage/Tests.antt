-- ===== src/SolidStorage/Tests.antt =====
-- The theorems on solid-storage at concrete stores.
use solid_community_rs.Prelude.{
  Option, ℕ, suc, ◌/◌, ◌≡◌, refl, true, false, List, [], ◌∷◌, none, some, arith, Text, text,
  text_eq, leb, if◌then◌else◌,
}
use solid_community_rs.Prelude.HashMap
use solid_community_rs.SolidStorage.Memory
use solid_community_rs.SolidStorage.Memory.{MemoryMapStorage}
use solid_community_rs.SolidStorage.ResourceStore
use solid_community_rs.SolidStorage.ResourceStore.{
  ResourceStore, Result, ok, err, Call, Representation, call, calls, changes, changed, read_only,
  read_only_error, ReadsKeep, read_only_keeps_state, already_expired, base,
}
use solid_community_rs.SolidStorage.KeyValue
use solid_community_rs.SolidStorage.KeyValue.{KeyValueStorage, ListsAll}
use solid_community_rs.SolidStorage.KeyValue.Backends.{memory, memory-IsMap, memory-ListsAll}
use solid_community_rs.SolidStorage.Expiring.{
  ExpiresWrapper, is_expired, wrap, found, wrapped, set_expiring, swept, sweep,
}
use solid_community_rs.SolidStorage.Expiring.Laws.{
  live, flagged, set_expiring_lem, sweep_lem, eviction_loses_set,
}

abbrev k : Text
k = text "k"

abbrev v : Text
v = text "v"

abbrev Source : Type 0
Source = MemoryMapStorage ExpiresWrapper

abbrev source : KeyValueStorage ExpiresWrapper Source
source = memory

abbrev view : Source → Text → Option ExpiresWrapper
view s k = Memory.get k s

abbrev empty : Source
empty = Memory.new

set_expiring_lem_example :
    let (answer, s') = set_expiring source 1000000000 k v (some 3500000000) empty in
    (answer ≡ (if leb 3500000000 1000000000 then err already_expired else ok tt))
    × (live 2999999999 (view s' k) ≡ (
        if leb 3500000000 1000000000
        then live 2999999999 (view empty k)
        else if text_eq k k
        then (if leb (3500000000 / 1000000000) (2999999999 / 1000000000) then none else some v)
        else live 2999999999 (view empty k)))
set_expiring_lem_example =
    set_expiring_lem source view memory-IsMap 1000000000 2999999999 k v 3500000000 empty k

-- A value that expires within the second it is set in is accepted and never read.
lost_at_once :
    let (answer, s') = set_expiring source 1000000000 k v (some 1900000000) empty in
    (answer ≡ ok tt) × (((wrapped source 1000000000).get k s').0 ≡ ok none)
unfolding set_expiring wrapped is_expired wrap Memory.get Memory.set Memory.delete HashMap.get
    HashMap.insert text_eq
lost_at_once = (refl, refl)

abbrev one_second : Source
one_second = (set_expiring source 1000000000 k v (some 2000000000) empty).1

sweep_lem_example :
    (view (sweep source 3000000000 one_second) k
      ≡ (if flagged 3000000000 (view one_second k) then none else view one_second k))
    × (live 4000000000 (view (sweep source 3000000000 one_second) k)
        ≡ live 4000000000 (view one_second k))
sweep_lem_example =
    sweep_lem source view memory-IsMap memory-ListsAll 3000000000 4000000000 one_second k
      (omega arith)

-- A store that counts the changes it was asked for.
abbrev counter : ResourceStore Unit ℕ
counter = record {
  has_resource = λ _ n. (ok true, n);
  get_representation = λ _ _ n. (ResourceStore.rejected (text "get"), n);
  add_resource = λ _ _ n. (ok HashMap.empty, suc n);
  set_representation = λ _ _ n. (ok HashMap.empty, suc n);
  delete_resource = λ _ n. (ok HashMap.empty, suc n);
  modify_resource = λ _ _ n. (ok HashMap.empty, suc n);
}

counter_keeps : (c : Call Unit) (n : ℕ) → changes c ≡ false → (call counter c n).1 ≡ n
unfolding call
counter_keeps (ResourceStore.has url) n h = refl
counter_keeps (ResourceStore.fetch url p) n h = refl
counter_keeps (ResourceStore.add url r) n h = cc h
counter_keeps (ResourceStore.set url r) n h = cc h
counter_keeps (ResourceStore.delete url) n h = cc h
counter_keeps (ResourceStore.modify url p) n h = cc h

counter-ReadsKeep : ReadsKeep counter
counter-ReadsKeep = record { kept = counter_keeps }

abbrev deletion : Call Unit
deletion = ResourceStore.delete k

abbrev some_calls : List (Call Unit)
some_calls = ResourceStore.delete k ∷ ResourceStore.has k ∷ []

abbrev with_prefix : Text → Text
with_prefix key = 47 ∷ key

abbrev without_prefix : Text → Text
without_prefix [] = []
without_prefix (c ∷ key) = key

gone_by_then : is_expired 3000000000 (wrap v (some 2000000000)) ≡ true
unfolding is_expired wrap
gone_by_then = refl

held : view one_second k ≡ some (wrap v (some 2000000000))
unfolding set_expiring Memory.get Memory.set HashMap.get HashMap.insert text_eq
held = refl

eviction_loses_set_example :
    let (looked, s1) = source.get k one_second in
    let (answer, s2) = (wrapped source 3000000000).set k v s1 in
    let (listed, t1) = source.entries one_second in
    let t2 = ((wrapped source 3000000000).set k v t1).1 in
    (answer ≡ ok tt)
    × (live 4000000000 (view (found source 3000000000 k (looked, s2)).1 k) ≡ none)
    × (live 4000000000 (view (swept source 3000000000 (listed, t2)) k) ≡ none)
eviction_loses_set_example =
    eviction_loses_set source view memory-IsMap memory-ListsAll 3000000000 4000000000 k v
      (wrap v (some 2000000000)) one_second held gone_by_then
