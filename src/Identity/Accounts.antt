-- ===== src/Identity/Accounts.antt =====
-- identity/src/account.rs, `BaseAccountStore`: accounts, their count of login methods and their
-- settings. `Value` stands for serde_json::Value. Instants and durations are natural numbers, and
-- an operation reads the clock once. `usize` has 64 bits and wraps, as in a release build.
pub mod Survival
pub mod Idle
pub mod Expiry
use solid_community_rs.Prelude.{
  ℕ, ◌+◌, ◌-◌, ◌%◌, Bool, true, false, not, ◌&&◌, Option, none, some, Text, ltb, leb, ◌==◌, is_some,
  if◌then◌else◌,
}
use mathlib.Core.Option
use solid_community_rs.Prelude.HashMap
use solid_community_rs.Prelude.HashMap.{HashMap}

abbrev pub usize_values : ℕ
usize_values = 18446744073709551616

pub record AccountRow (Value : Type 0) : Type 0 where
  pub id : Text
  pub linked_logins_count : ℕ
  pub settings : HashMap Value
  pub created_at : ℕ

pub record BaseAccountStore (Value : Type 0) : Type 0 where
  pub inner : HashMap (AccountRow Value)
  pub expiry : ℕ

-- The two messages of `anyhow` errors.
pub data AccountError : Type 0 where
  account_not_found last_login_method : AccountError

module _ {Value : Type 0} where
  unfoldable pub new : ℕ → BaseAccountStore Value
  new expiry = record { inner = HashMap.empty; expiry = expiry }

  -- An update in place of the row at `id`, through `get_mut`.
  abbrev pub put_row : Text → AccountRow Value → BaseAccountStore Value → BaseAccountStore Value
  put_row id row s = record s { inner = HashMap.insert id row s.inner }

  -- Nothing stands for `Ok(())` in the answers.
  unfoldable pub increment_row :
      Text
      → Option (AccountRow Value)
      → BaseAccountStore Value
      → Option AccountError × BaseAccountStore Value
  increment_row id none s = (some account_not_found, s)
  increment_row id (some row) s = (
    none,
    put_row id (record row { linked_logins_count = (row.linked_logins_count + 1) % usize_values })
        s,
  )

  unfoldable pub increment_login_count :
      Text → BaseAccountStore Value → Option AccountError × BaseAccountStore Value
  unfolding increment_row
  increment_login_count id s = increment_row id (HashMap.get s.inner id) s

  unfoldable pub decrement_row :
      Text
      → Option (AccountRow Value)
      → BaseAccountStore Value
      → Option AccountError × BaseAccountStore Value
  decrement_row id none s = (some account_not_found, s)
  decrement_row id (some row) s =
      if leb row.linked_logins_count 1
      then (some last_login_method, s)
      else (none, put_row id (record row { linked_logins_count = row.linked_logins_count - 1 }) s)

  unfoldable pub decrement_login_count :
      Text → BaseAccountStore Value → Option AccountError × BaseAccountStore Value
  unfolding decrement_row
  decrement_login_count id s = decrement_row id (HashMap.get s.inner id) s

  -- `duration_since` is 0 for an instant that is later.
  abbrev pub survives : ℕ → ℕ → AccountRow Value → Bool
  survives expiry now row =
      not ((row.linked_logins_count == 0) && leb expiry (now - row.created_at))

  unfoldable pub prune_expired : ℕ → BaseAccountStore Value → BaseAccountStore Value
  prune_expired now s = record s {
    inner = HashMap.retain (λ _ row. survives s.expiry now row) s.inner;
  }

  -- `id` is the fresh UUID.
  unfoldable pub create : ℕ → Text → BaseAccountStore Value → Text × BaseAccountStore Value
  unfolding prune_expired
  create now id s = (
    id,
    put_row id
        (record { id = id; linked_logins_count = 0; settings = HashMap.empty; created_at = now })
        (prune_expired now s),
  )

  unfoldable pub get_setting :
      ℕ → Text → Text → BaseAccountStore Value → Option Value × BaseAccountStore Value
  unfolding prune_expired Option.bind
  get_setting now id setting s =
      let s' = prune_expired now s in
      (Option.bind (HashMap.get s'.inner id) (λ row. HashMap.get row.settings setting), s')

  unfoldable pub update_row :
      Text
      → Text
      → Value
      → Option (AccountRow Value)
      → BaseAccountStore Value
      → Option AccountError × BaseAccountStore Value
  update_row id setting value none s = (some account_not_found, s)
  update_row id setting value (some row) s =
      (none, put_row id (record row { settings = HashMap.insert setting value row.settings }) s)

  unfoldable pub update_setting :
      Text → Text → Value → BaseAccountStore Value → Option AccountError × BaseAccountStore Value
  unfolding update_row
  update_setting id setting value s = update_row id setting value (HashMap.get s.inner id) s

  unfoldable pub delete :
      Text → BaseAccountStore Value → Option AccountError × BaseAccountStore Value
  delete id s = (
    if is_some (HashMap.get s.inner id) then none else some account_not_found,
    record s { inner = HashMap.remove id s.inner },
  )
