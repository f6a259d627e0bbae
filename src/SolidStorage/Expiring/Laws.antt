-- ===== src/SolidStorage/Expiring/Laws.antt =====
-- Over any storage that is a map, the expiring storage is the map of the values that have not
-- expired, and the clean-up removes the expired ones and no other.
use solid_community_rs.Prelude.{
  ℕ, ◌≤◌, ◌/◌, ◌≡◌, refl, sym, ap, ◌∙◌, Bool, true, false, not, ◌&&◌, inl, inr, List, [], ◌∷◌, map,
  filter, Option, none, some, arith, Text, text_eq, text_eq_iff, member, leb, Bool-cases,
  if◌then◌else◌,
}
use solid_community_rs.Prelude.HashMap.Listing.{keys_where, holds}
use solid_community_rs.SolidStorage.ResourceStore.{Result, ok, err, already_expired}
use solid_community_rs.SolidStorage.KeyValue.{KeyValueStorage, IsMap, ListsAll, map_ok}
use solid_community_rs.SolidStorage.Expiring.{
  ExpiresWrapper, wrap, past, is_expired, as_secs, expired_keys, found, live_entries, wrapped,
  set_expiring, delete_each, swept, sweep,
}

-- What an entry is to a client.
abbrev pub live : ℕ → Option ExpiresWrapper → Option Text
live now none = none
live now (some w) = if is_expired now w then none else some w.payload

past_later : (now later : ℕ) (e : Option ℕ) → now ≤ later → past now e ≡ true → past later e ≡ true
unfolding as_secs
past_later now later none le h = cc h
past_later now later (some exp) le h = ground arith

-- An expired entry stays expired.
pub live_later :
    (now later : ℕ) (w : ExpiresWrapper)
    → now ≤ later
    → is_expired now w ≡ true
    → live later (some w) ≡ none
unfolding is_expired
live_later now later w le h = rw (past_later now later w.expires le h) refl

abbrev pub flagged : ℕ → Option ExpiresWrapper → Bool
flagged now o = holds (is_expired now) o

live-flagged :
    (now later : ℕ) (o : Option ExpiresWrapper)
    → now ≤ later
    → live later (if flagged now o then none else o) ≡ live later o
live-flagged now later none le = refl
live-flagged now later (some w) le = elim (Bool-cases (is_expired now w)) [
  | inl e ↦ rw e (sym (live_later now later w le e))
  | inr e ↦ rw e refl
]

listed_live :
    (now : ℕ) (q : Text → Bool) (l : List (Text × ExpiresWrapper)) (k : Text)
    → member k
        (keys_where q (map (λ e. (e.0, e.1.payload)) (filter (λ e. not (is_expired now e.1)) l)))
      ≡ member k (keys_where (λ w. not (is_expired now w) && q w.payload) l)
unfolding member
listed_live now q [] k = refl
listed_live now q ((i, w) ∷ l) k = ground (arith, listed_live now q l k)

holds-live :
    (now : ℕ) (q : Text → Bool) (o : Option ExpiresWrapper)
    → holds (λ w. not (is_expired now w) && q w.payload) o ≡ holds q (live now o)
holds-live now q none = refl
holds-live now q (some w) = ground arith

module _ {S : Type 0} (source : KeyValueStorage ExpiresWrapper S)
    (view : S → Text → Option ExpiresWrapper) (m : IsMap source view) where
  dropped_live :
      (now later : ℕ) (key : Text) (w : ExpiresWrapper) (s : S) (j : Text)
      → now ≤ later
      → view s key ≡ some w
      → is_expired now w ≡ true
      → live later (view (source.delete key s).1 j) ≡ live later (view s j)
  dropped_live now later key w s j le there gone = elim (Bool-cases (text_eq key j)) [
    | inl e ↦
        ap (live later) (m.dropped key s j ∙ ap (λ b. if b then none else view s j) e)
        ∙ sym (live_later now later w le gone)
        ∙ ap (live later) (sym there ∙ ap (view s) ((text_eq_iff key j).0 e))
    | inr e ↦ ap (live later) (m.dropped key s j ∙ ap (λ b. if b then none else view s j) e)
  ]

  found_keeps :
      (now later : ℕ) (key : Text) (r : Result (Option ExpiresWrapper) × S) (j : Text)
      → now ≤ later
      → r.0 ≡ ok (view r.1 key)
      → live later (view (found source now key r).1 j) ≡ live later (view r.1 j)
  unfolding found
  found_keeps now later key (err e, s) j le h = refl
  found_keeps now later key (ok none, s) j le h = refl
  found_keeps now later key (ok (some w), s) j le h = elim (Bool-cases (is_expired now w)) [
    | inl e ↦
        rw e (let there : view s key ≡ some w = cc h in dropped_live now later key w s j le there e)
    | inr e ↦ rw e refl
  ]

  -- What a `get` leaves is read as before, at that time and later.
  pub get_keeps_live :
      (now later : ℕ) (key : Text) (s : S) (j : Text)
      → now ≤ later
      → live later (view ((wrapped source now).get key s).1 j) ≡ live later (view s j)
  unfolding wrapped
  get_keeps_live now later key s j le =
      found_keeps now later key (source.get key s) j le
        (m.got key s ∙ ap (λ o. ok o) (sym (m.kept key key s)))
      ∙ ap (live later) (m.kept key j s)

  live_if :
      (now : ℕ) (b : Bool) (o p : Option ExpiresWrapper)
      → live now (if b then o else p) ≡ (if b then live now o else live now p)
  live_if now true o p = refl
  live_if now false o p = refl

  view-delete_each :
      (ks : List Text) (s : S) (j : Text)
      → view (delete_each source ks s) j ≡ (if member j ks then none else view s j)
  unfolding delete_each member
  view-delete_each [] s j = refl
  view-delete_each (k ∷ ks) s j =
      ground (arith, view-delete_each ks (source.delete k s).1 j, m.dropped k s j)

  view-swept :
      (now : ℕ) (r : Result (List (Text × ExpiresWrapper)) × S) (l : List (Text × ExpiresWrapper))
      (j : Text)
      → r.0 ≡ ok l
      → view (swept source now r) j ≡ (if member j (expired_keys now l) then none else view r.1 j)
  unfolding swept
  view-swept now (err e, s) l j h = cc h
  view-swept now (ok raw, s) l j h =
      let same : raw ≡ l = cc h in
      view-delete_each (expired_keys now raw) s j
      ∙ ap (λ x. if member j (expired_keys now x) then none else view s j) same

  -- A tick of the clean-up removes the entries that have expired, each of them and no other, so
  -- whatever is read at that time or later is what would have been read without it. The source is a
  -- map that lists all its entries.
  pub sweep_lem :
      ListsAll source view
      → (now later : ℕ) (s : S) (j : Text) → now ≤ later
      → (view (sweep source now s) j ≡ (if flagged now (view s j) then none else view s j))
        × (live later (view (sweep source now s) j) ≡ live later (view s j))
  unfolding sweep expired_keys
  sweep_lem listing now later s j le =
      let (l, listed, all) = listing.listed s in
      let swept_to =
        view-swept now (source.entries s) l j listed
        ∙ ap (λ b. if b then none else view (source.entries s).1 j) (all (is_expired now) j)
        ∙ ap (λ o. if flagged now (view s j) then none else o) (listing.unlisted s j) in
      (swept_to, ap (live later) swept_to ∙ live-flagged now later (view s j) le)

  -- Over a storage that is a map, a deadline that is not in the future is refused and changes
  -- nothing. One in the future is accepted, and the value is then live exactly as long as the clock,
  -- in whole seconds, stands before the deadline in whole seconds; no other key changes.
  pub set_expiring_lem :
      (now later : ℕ) (key value : Text) (exp : ℕ) (s : S) (j : Text)
      → let (answer, s') = set_expiring source now key value (some exp) s in
        (answer ≡ (if leb exp now then err already_expired else ok tt))
        × (live later (view s' j) ≡ (
            if leb exp now
            then live later (view s j)
            else if text_eq key j
            then (if leb (exp / 1000000000) (later / 1000000000) then none else some value)
            else live later (view s j)))
  unfolding set_expiring wrap is_expired as_secs
  set_expiring_lem now later key value exp s j = elim (Bool-cases (leb exp now)) [
    | inl r ↦ rw r (refl, refl)
    | inr r ↦ rw r (
      m.stored key (wrap value (some exp)) s,
      ap (live later) (m.put key (wrap value (some exp)) s j)
          ∙ live_if later (text_eq key j) (some (wrap value (some exp))) (view s j),
    )
  ]

  listed_of :
      (now : ℕ) (r : Result (List (Text × ExpiresWrapper)) × S) (l : List (Text × ExpiresWrapper))
      → r.0 ≡ ok l
      → map_ok (live_entries source now) r.0 ≡ ok (live_entries source now l)
  listed_of now r l h = ap (map_ok (live_entries source now)) h

  -- The entries of the expiring storage are exactly the values that have not expired, if its source
  -- lists all its entries.
  pub wrapped-ListsAll :
      ListsAll source view → (now : ℕ) → ListsAll (wrapped source now) (λ s k. live now (view s k))
  unfolding wrapped
  wrapped-ListsAll listing now = record {
    listed = λ s.
        let (l, listed, all) = listing.listed s in
        (
          live_entries source now l,
          listed_of now (source.entries s) l listed,
          λ p k.
              listed_live now p l k
              ∙ all (λ w. not (is_expired now w) && p w.payload) k
              ∙ holds-live now p (view s k),
        );
    unlisted = λ s k. ap (live now) (listing.unlisted s k);
  }

  map_dropped :
      (key : Text) (s : S) (later : ℕ) → live later (view (source.delete key s).1 key) ≡ none
  map_dropped key s later = ap (live later) (
      m.dropped key s key ∙ ap (λ b. if b then none else view s key) ((text_eq_iff key key).1 refl))

  found_expired :
      (now : ℕ) (key : Text) (w : ExpiresWrapper) (s : S)
      → is_expired now w ≡ true
      → (found source now key (ok (some w), s)).1 ≡ (source.delete key s).1
  unfolding found
  found_expired now key w s gone = rw gone refl

  -- A `get` and the clean-up look at the source first and delete from it afterwards. If the value of
  -- a key has expired, and the key is set anew between the two, then the new value is deleted: nothing
  -- is read at the key at any later time, though the `set` succeeded.
  pub eviction_loses_set :
      ListsAll source view
      → (now later : ℕ) (key value : Text) (w : ExpiresWrapper) (s : S) → view s key ≡ some w
      → is_expired now w ≡ true
      → let (looked, s1) = source.get key s in
        let (answer, s2) = (wrapped source now).set key value s1 in
        let (listed, t1) = source.entries s in
        let t2 = ((wrapped source now).set key value t1).1 in
        (answer ≡ ok tt)
        × (live later (view (found source now key (looked, s2)).1 key) ≡ none)
        × (live later (view (swept source now (listed, t2)) key) ≡ none)
  unfolding wrapped
  eviction_loses_set listing now later key value w s there gone =
      let (looked, s1) = source.get key s in
      let s2 = (source.set key (wrap value none) s1).1 in
      let (listed, t1) = source.entries s in
      let t2 = (source.set key (wrap value none) t1).1 in
      let (l, is_listed, all) = listing.listed s in
      let expired : member key (expired_keys now l) ≡ true =
        unfold expired_keys in
        (all (is_expired now) key ∙ ap (holds (is_expired now)) there ∙ gone) in
      (
        m.stored key (wrap value none) s1,
        ap (λ r. live later (view (found source now key (r, s2)).1 key))
              (m.got key s ∙ ap (λ o. ok o) there)
            ∙ ap (λ u. live later (view u key)) (found_expired now key w s2 gone)
            ∙ map_dropped key s2 later,
        ap (live later) (
            view-swept now (listed, t2) l key is_listed
            ∙ ap (λ b. if b then none else view t2 key) expired),
      )
