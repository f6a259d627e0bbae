-- ===== src/ServerCore/Store/Concurrent/Closure.antt =====
-- While nothing is deleted, the containers of a resource are there, however calls interleave.
use solid_community_rs.Prelude.{
  ℕ, ◌≡◌, ◌≤◌, ◌⊎◌, inl, inr, refl, sym, ap, ◌∙◌, Bool, true, false, List, [], ◌∷◌, ◌++◌, Option,
  none, some, Text, text_eq, text_eq_iff, text_eq_refl, slash, member, count, trim_end_matches,
  is_some, replicate, append_assoc, All, Bool-cases,
}
use solid_community_rs.Prelude.Trim.{trim_end_matches_suffix}
use solid_community_rs.Prelude.HashMap
use solid_community_rs.Prelude.HashMap.{get-insert, get-empty}
use solid_community_rs.ServerCore.Store.{Entry, LdpStore, new, key, store_key, ensure_ancestors}
use solid_community_rs.ServerCore.Store.Access.{append_ne_nil}
use solid_community_rs.ServerCore.Store.Ancestors.{or_auto, or_cases}
use solid_community_rs.ServerCore.Store.Keys.{
  written_keys, written_keys_sound, member-written_keys, get-ensure_ancestors,
}
use solid_community_rs.ServerCore.Store.Containers.{
  slash_prefixes_sound, is_container_of, two_slashes, few_before, store_key_same, and_parts,
  root_written, member-written_keys_eq,
}
use solid_community_rs.ServerCore.Store.Concurrent.{
  Pending, System, start, Step, begin, finish, remove, IsPut, ReachByPuts, untouched, further,
  store_entry,
}

record IsBelow (k j : Text) : Type 0 where
  prefix : Text
  rest : Text
  cut : trim_end_matches k slash ≡ prefix ++ slash ∷ rest
  path : j ≡ prefix ++ slash ∷ []
  other : text_eq j two_slashes ≡ false

container_parts : (k j : Text) → is_container_of k j ≡ true → (j ≡ slash ∷ []) ⊎ IsBelow k j
unfolding is_container_of
container_parts k j h = elim (or_cases (text_eq (slash ∷ []) j) h) [
  | inl root ↦ inl (sym ((text_eq_iff _ _).0 root))
  | inr deep ↦
      let (below, other) = and_parts _ _ deep in
      let (p, r, cut, same) = slash_prefixes_sound (trim_end_matches k slash) j below in
      inr (record { prefix = p; rest = r; cut = cut; path = same; other = other })
]

root_above : (j : Text) → is_container_of (slash ∷ []) j ≡ true → j ≡ slash ∷ []
unfolding trim_end_matches
root_above j h = elim (container_parts (slash ∷ []) j h) [
  | inl root ↦ root
  | inr b ↦
      let nothing : [] ≡ b.prefix ++ slash ∷ b.rest = b.cut in
      absurd (append_ne_nil b.prefix slash b.rest (sym nothing))
]

-- What stands before the end of a prefix stands in the whole.
cut_again :
    (t p r q r' : Text) (n : ℕ)
    → t ≡ p ++ slash ∷ r
    → p ++ slash ∷ [] ≡ (q ++ slash ∷ r') ++ replicate n slash
    → (u : Text) × (t ≡ q ++ slash ∷ u)
cut_again t p r q r' n cut same = (
  (r' ++ replicate n slash) ++ r,
  cut
      ∙ sym (append_assoc p (slash ∷ []) r)
      ∙ ap (λ l. l ++ r) (same ∙ append_assoc q (slash ∷ r') (replicate n slash))
      ∙ append_assoc q (slash ∷ r' ++ replicate n slash) r,
)

-- The containers of a key that is written on the way to another are written on that way, too.
container_of_written :
    (path j i : Text)
    → member j (written_keys (key path)) ≡ true
    → count slash (trim_end_matches j slash) ≤ 99
    → is_container_of j i ≡ true
    → member i (written_keys (key path)) ≡ true
unfolding store_key
container_of_written path j i w few h = elim (container_parts j i h) [
  | inl root ↦ rw root (root_written path)
  | inr b ↦ elim (written_keys_sound path j w) [
    | inl root ↦
        rw (root_above i (ap (λ l. is_container_of l i) (sym root) ∙ h)) (root_written path)
    | inr (p, r, cut, e) ↦ elim (Bool-cases (text_eq (p ++ slash ∷ []) two_slashes)) [
      | inl two ↦
          let root : j ≡ slash ∷ [] = e ∙ (rw two refl) in
          rw (root_above i (ap (λ l. is_container_of l i) (sym root) ∙ h)) (root_written path)
      | inr other ↦
          let own : j ≡ p ++ slash ∷ [] = e ∙ (rw other refl) in
          let (n, tail) = trim_end_matches_suffix j slash in
          let (u, again) =
            cut_again _ p r b.prefix b.rest n cut
              (sym own ∙ tail ∙ ap (λ l. l ++ replicate n slash) b.cut) in
          let written =
            member-written_keys path b.prefix u again (few_before _ b.prefix b.rest b.cut few) in
          sym (
            ap (λ l. member l (written_keys (key path)))
              (ap store_key (sym b.path) ∙ store_key_same i b.other))
          ∙ written
    ]
  ]
]

-- All containers of a key are in the store, if it has at most 99 slashes before its end.
abbrev pub HasContainers : LdpStore → Text → Type 0
HasContainers s k =
    count slash (trim_end_matches k slash) ≤ 99
    → (i : Text) → is_container_of k i ≡ true
    → is_some (HashMap.get s.inner i) ≡ true

-- The containers of each resource are there, and those of each resource that waits to be stored.
pub record IsClosed (s : System) : Type 0 where
  pub stored : (k : Text) → is_some (HashMap.get s.store.inner k) ≡ true → HasContainers s.store k
  pub awaited : All (λ p. HasContainers s.store (key p.path)) s.waiting

abbrev Keeps : LdpStore → LdpStore → Type 0
Keeps s t =
    (k : Text) → is_some (HashMap.get s.inner k) ≡ true → is_some (HashMap.get t.inner k) ≡ true

All-Keeps :
    (s t : LdpStore) (ps : List Pending)
    → Keeps s t
    → All (λ p. HasContainers s (key p.path)) ps
    → All (λ p. HasContainers t (key p.path)) ps
All-Keeps s t [] k a = tt
All-Keeps s t (p ∷ ps) k a = (λ few i h. k i (a.0 few i h), All-Keeps s t ps k a.1)

All-without :
    (P : Pending → Type 0) (ps qs : List Pending) (p : Pending)
    → All P (ps ++ p ∷ qs)
    → P p × All P (ps ++ qs)
All-without P [] qs p a = a
All-without P (x ∷ ps) qs p a =
    let (own, others) = All-without P ps qs p a.1 in (own, (a.0, others))

is_some-or_auto :
    (m : Bool) (o : Option Entry) → is_some (or_auto m o) ≡ true → (m ≡ true) ⊎ (is_some o ≡ true)
is_some-or_auto m (some e) h = inr refl
is_some-or_auto true none h = inl refl
is_some-or_auto false none h = cc h

or_auto-true : (o : Option Entry) → is_some (or_auto true o) ≡ true
or_auto-true none = refl
or_auto-true (some e) = refl

or_auto-some : (m : Bool) (o : Option Entry) → is_some o ≡ true → is_some (or_auto m o) ≡ true
or_auto-some m none h = cc h
or_auto-some true (some e) h = refl
or_auto-some false (some e) h = refl

written_there :
    (path k : Text) (s : LdpStore)
    → member k (written_keys (key path)) ≡ true
    → is_some (HashMap.get (ensure_ancestors (key path) s).inner k) ≡ true
written_there path k s w =
    rw (get-ensure_ancestors (key path) s k, w) (or_auto-true (HashMap.get s.inner k))

ensure_ancestors-Keeps : (path : Text) (s : LdpStore) → Keeps s (ensure_ancestors (key path) s)
ensure_ancestors-Keeps path s k h =
    rw (get-ensure_ancestors (key path) s k) (or_auto-some _ (HashMap.get s.inner k) h)

begin-IsClosed :
    (p : Pending) (s : LdpStore) (ps : List Pending)
    → IsClosed (record { store = s; waiting = ps })
    → IsClosed (record { store = ensure_ancestors (key p.path) s; waiting = p ∷ ps })
begin-IsClosed p s ps c = record {
  stored = λ k there few i h.
      elim (is_some-or_auto _ _ (rw (get-ensure_ancestors (key p.path) s k) at there)) [
        | inl new ↦ written_there p.path i s (container_of_written p.path k i new few h)
        | inr old ↦ ensure_ancestors-Keeps p.path s i (c.stored k old few i h)
      ];
  awaited = (
    λ few i h. written_there p.path i s (member-written_keys_eq p.path i few ∙ h),
    All-Keeps s (ensure_ancestors (key p.path) s) ps (ensure_ancestors-Keeps p.path s) c.awaited,
  );
}

store_entry-Keeps : (p : Pending) (s : LdpStore) → Keeps s (store_entry p s).1
unfolding store_entry
store_entry-Keeps p s k h = elim (Bool-cases (text_eq (key p.path) k)) [
  | inl e ↦ rw (get-insert, e) refl
  | inr e ↦ rw (get-insert, e) h
]

finish-IsClosed :
    (p : Pending) (s : LdpStore) (ps qs : List Pending)
    → IsClosed (record { store = s; waiting = ps ++ p ∷ qs })
    → IsClosed (record { store = (store_entry p s).1; waiting = ps ++ qs })
unfolding store_entry
finish-IsClosed p s ps qs c =
    let (own, others) = All-without (λ q. HasContainers s (key q.path)) ps qs p c.awaited in
    record {
      stored = λ k there few i h. elim (Bool-cases (text_eq (key p.path) k)) [
        | inl e ↦
            let same = (text_eq_iff _ _).0 e in
            store_entry-Keeps p s i
              (own (rw (← same) at few) i (ap (λ l. is_container_of l i) same ∙ h))
        | inr e ↦ store_entry-Keeps p s i (c.stored k (rw (get-insert, e) at there) few i h)
      ];
      awaited = All-Keeps s (store_entry p s).1 (ps ++ qs) (store_entry-Keeps p s) others;
    }

start-IsClosed : IsClosed start
unfolding new
start-IsClosed = record {
  stored = λ k there few i h. elim (Bool-cases (text_eq (slash ∷ []) k)) [
    | inl e ↦
        let same = (text_eq_iff _ _).0 e in
        rw (root_above i (ap (λ l. is_container_of l i) same ∙ h))
          (rw (get-insert, text_eq_refl (slash ∷ [])) refl)
    | inr e ↦ cc (sym (ap is_some (get-empty {V = Entry} k)) ∙ (rw (get-insert, e) at there))
  ];
  awaited = tt;
}

Step-IsClosed : (s t : System) (st : Step s t) → IsPut st → IsClosed s → IsClosed t
Step-IsClosed _ _ (begin p s ps) put c = begin-IsClosed p s ps c
Step-IsClosed _ _ (finish p s ps qs) put c = finish-IsClosed p s ps qs c
Step-IsClosed _ _ (remove path s ps) put c = absurd put

-- However the sections of `put` calls interleave, as long as nothing is deleted each resource of the
-- store has all its containers there, if its key has at most 99 slashes before its end, and so has
-- each resource that waits to be stored.
pub ReachByPuts-IsClosed : (s : System) → ReachByPuts s → IsClosed s
ReachByPuts-IsClosed _ untouched = start-IsClosed
ReachByPuts-IsClosed _ (further s t r st put) = Step-IsClosed s t st put (ReachByPuts-IsClosed s r)
