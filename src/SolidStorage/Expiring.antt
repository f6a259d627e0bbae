-- ===== src/SolidStorage/Expiring.antt =====
-- solid-storage/src/backends/expiring.rs: the storage whose values expire, over any storage, whose
-- errors it passes on. Instants are nanoseconds since the epoch; each operation reads the clock once,
-- as `now`.
pub mod Laws
use solid_community_rs.Prelude.{
  ℕ, ◌/◌, Bool, true, false, not, List, [], ◌∷◌, Option, none, some, map, filter, Text, leb,
  is_some, if◌then◌else◌,
}
use mathlib.Core.Option
use solid_community_rs.Prelude.HashMap.Listing.{keys_where}
use solid_community_rs.SolidStorage.ResourceStore.{Result, ok, err, already_expired}
use solid_community_rs.SolidStorage.KeyValue.{KeyValueStorage, map_ok}

-- `as_secs` of the duration since the epoch
unfoldable pub as_secs : ℕ → ℕ
as_secs t = t / 1000000000

-- `expires` is in seconds since the epoch.
pub record ExpiresWrapper : Type 0 where
  pub expires : Option ℕ
  pub payload : Text

unfoldable pub wrap : Text → Option ℕ → ExpiresWrapper
unfolding as_secs
wrap payload expires = record { expires = Option.map as_secs expires; payload = payload }

abbrev pub past : ℕ → Option ℕ → Bool
past now none = false
past now (some exp) = leb exp (as_secs now)

unfoldable pub is_expired : ℕ → ExpiresWrapper → Bool
unfolding as_secs
is_expired now w = past now w.expires

-- The keys that one tick of the clean-up task collects.
unfoldable pub expired_keys : ℕ → List (Text × ExpiresWrapper) → List Text
unfolding is_expired
expired_keys now raw = keys_where (is_expired now) raw

module _ {S : Type 0} (source : KeyValueStorage ExpiresWrapper S) where
  -- The `match` of `get` on what the source answers; the answer of the eviction is dropped.
  unfoldable pub found : ℕ → Text → Result (Option ExpiresWrapper) × S → Result (Option Text) × S
  found now key (err e, s) = (err e, s)
  found now key (ok none, s) = (ok none, s)
  found now key (ok (some w), s) =
      if is_expired now w then (ok none, (source.delete key s).1) else (ok (some w.payload), s)

  abbrev pub live_entries : ℕ → List (Text × ExpiresWrapper) → List (Text × Text)
  live_entries now raw = map (λ e. (e.0, e.1.payload)) (filter (λ e. not (is_expired now e.1)) raw)

  -- The storage at an instant.
  unfoldable pub wrapped : ℕ → KeyValueStorage Text S
  unfolding found wrap is_expired
  wrapped now = record {
    get = λ key s. found now key (source.get key s);
    has = λ key s. let (r, s') = found now key (source.get key s) in (map_ok is_some r, s');
    set = λ key value s. source.set key (wrap value none) s;
    delete = λ key s. source.delete key s;
    entries = λ s. let (raw, s') = source.entries s in (map_ok (live_entries now) raw, s');
  }

  abbrev pub get_raw : Text → S → Result (Option ExpiresWrapper) × S
  get_raw key s = source.get key s

  unfoldable pub set_expiring : ℕ → Text → Text → Option ℕ → S → Result (Unit {0}) × S
  unfolding wrap
  set_expiring now key value none s = source.set key (wrap value none) s
  set_expiring now key value (some exp) s =
      if leb exp now then (err already_expired, s) else source.set key (wrap value (some exp)) s

  unfoldable pub delete_each : List Text → S → S
  delete_each [] s = s
  delete_each (k ∷ ks) s = delete_each ks (source.delete k s).1

  unfoldable pub swept : ℕ → Result (List (Text × ExpiresWrapper)) × S → S
  unfolding delete_each expired_keys
  swept now (err e, s) = s
  swept now (ok raw, s) = delete_each (expired_keys now raw) s

  -- One tick of the clean-up task: a source that cannot be listed is left alone.
  unfoldable pub sweep : ℕ → S → S
  unfolding swept
  sweep now s = swept now (source.entries s)
