-- ===== src/Identity/Accounts/Survival.antt =====
-- An account with a login method stays, whatever else is done to the store.
use solid_community_rs.Prelude.{
  ℕ, suc, ◌+◌, ◌-◌, ◌%◌, ◌≤◌, ◌<◌, ◌≡◌, refl, ap, ◌∙◌, true, false, inl, inr, List, [], ◌∷◌, Option,
  none, some, arith, Text, text_eq, text_eq_iff, text_eq_refl, length, All, leb, ==_iff, Bool-cases,
  if◌then◌else◌,
}
use solid_community_rs.Prelude.HashMap
use solid_community_rs.Prelude.HashMap.{HashMap, filter_value, get-insert, get-remove, get-retain}
use solid_community_rs.Identity.Accounts.{
  AccountRow, BaseAccountStore, usize_values, put_row, increment_row, increment_login_count,
  decrement_row, decrement_login_count, survives, prune_expired, create, get_setting, update_row,
  update_setting, delete,
}

-- The operations of the store, each with what it draws from the clock and the UUIDs.
pub data Operation (Value : Type 0) : Type 0 where
  increment : Text → Operation Value
  decrement : Text → Operation Value
  register : ℕ → Text → Operation Value
  read_setting : ℕ → Text → Text → Operation Value
  write_setting : Text → Text → Value → Operation Value
  remove : Text → Operation Value

module _ {Value : Type 0} where
  unfoldable pub perform : Operation Value → BaseAccountStore Value → BaseAccountStore Value
  unfolding increment_login_count decrement_login_count create get_setting update_setting delete
  perform (increment id) s = (increment_login_count id s).1
  perform (decrement id) s = (decrement_login_count id s).1
  perform (register now id) s = (create now id s).1
  perform (read_setting now id setting) s = (get_setting now id setting s).1
  perform (write_setting id setting value) s = (update_setting id setting value s).1
  perform (remove id) s = (delete id s).1

  unfoldable pub run : List (Operation Value) → BaseAccountStore Value → BaseAccountStore Value
  unfolding perform
  run [] s = s
  run (op ∷ ops) s = run ops (perform op s)

  -- The operation neither deletes the account nor draws its UUID again.
  abbrev pub Spares : Text → Operation Value → Type 0
  Spares a (remove id) = text_eq id a ≡ false
  Spares a (register now id) = text_eq id a ≡ false
  Spares a _ = Unit

  -- The account is there and has a login method, and at most `n` of them.
  pub record HasLogin (a : Text) (n : ℕ) (s : BaseAccountStore Value) : Type 0 where
    pub row : AccountRow Value
    pub there : HashMap.get s.inner a ≡ some row
    pub low : 1 ≤ row.linked_logins_count
    pub high : row.linked_logins_count ≤ n

  pub get-put_row :
      (id : Text) (row : AccountRow Value) (s : BaseAccountStore Value) (a : Text)
      → HashMap.get (put_row id row s).inner a
        ≡ (if text_eq id a then some row else HashMap.get s.inner a)
  get-put_row id row s a = get-insert s.inner id a row

  pub increment_other :
      (id a : Text) (o : Option (AccountRow Value)) (s : BaseAccountStore Value)
      → text_eq id a ≡ false
      → HashMap.get (increment_row id o s).1.inner a ≡ HashMap.get s.inner a
  unfolding increment_row
  increment_other id a none s e = refl
  increment_other id a (some row) s e = rw (get-put_row, e) refl

  pub decrement_other :
      (id a : Text) (o : Option (AccountRow Value)) (s : BaseAccountStore Value)
      → text_eq id a ≡ false
      → HashMap.get (decrement_row id o s).1.inner a ≡ HashMap.get s.inner a
  unfolding decrement_row
  decrement_other id a none s e = refl
  decrement_other id a (some row) s e = elim (Bool-cases (leb row.linked_logins_count 1)) [
    | inl x ↦ rw x refl
    | inr x ↦ rw (x, get-put_row, e) refl
  ]

  pub update_other :
      (id a setting : Text) (value : Value) (o : Option (AccountRow Value))
      (s : BaseAccountStore Value)
      → text_eq id a ≡ false
      → HashMap.get (update_row id setting value o s).1.inner a ≡ HashMap.get s.inner a
  unfolding update_row
  update_other id a setting value none s e = refl
  update_other id a setting value (some row) s e = rw (get-put_row, e) refl

  increment_self :
      (a : Text) (n : ℕ) (s : BaseAccountStore Value) (l : HasLogin a n s)
      → suc n < usize_values
      → HasLogin a (suc n) (increment_row a (some l.row) s).1
  unfolding increment_row
  increment_self a n s l bound = record {
    row = record l.row { linked_logins_count = (l.row.linked_logins_count + 1) % usize_values };
    there = rw (get-put_row, text_eq_refl a) refl;
    low = omega (arith, l.low, l.high);
    high = omega (arith, l.low, l.high);
  }

  decrement_self :
      (a : Text) (n : ℕ) (s : BaseAccountStore Value) (l : HasLogin a n s)
      → HasLogin a n (decrement_row a (some l.row) s).1
  unfolding decrement_row
  decrement_self a n s l = elim (Bool-cases (leb l.row.linked_logins_count 1)) [
    | inl x ↦ rw x l
    | inr x ↦ rw x (record {
      row = record l.row { linked_logins_count = l.row.linked_logins_count - 1 };
      there = rw (get-put_row, text_eq_refl a) refl;
      low = ground (arith, l.low);
      high = omega (arith, l.high);
    })
  ]

  update_self :
      (a setting : Text) (value : Value) (n : ℕ) (s : BaseAccountStore Value) (l : HasLogin a n s)
      → HasLogin a n (update_row a setting value (some l.row) s).1
  unfolding update_row
  update_self a setting value n s l = record {
    row = record l.row { settings = HashMap.insert setting value l.row.settings };
    there = rw (get-put_row, text_eq_refl a) refl;
    low = l.low;
    high = l.high;
  }

  survives_linked :
      (expiry now : ℕ) (row : AccountRow Value)
      → 1 ≤ row.linked_logins_count
      → survives expiry now row ≡ true
  survives_linked expiry now row low = ground (arith, ==_iff row.linked_logins_count 0)

  pruned :
      (a : Text) (n now : ℕ) (s : BaseAccountStore Value)
      → HasLogin a n s
      → HasLogin a n (prune_expired now s)
  unfolding prune_expired
  pruned a n now s l = record {
    row = l.row;
    there = rw (get-retain, l.there) (rw (survives_linked s.expiry now l.row l.low) refl);
    low = l.low;
    high = l.high;
  }

  -- The same row in another store.
  moved :
      (a : Text) (n : ℕ) (s s' : BaseAccountStore Value)
      → HashMap.get s'.inner a ≡ HashMap.get s.inner a
      → HasLogin a n s
      → HasLogin a n s'
  moved a n s s' same l = record { row = l.row; there = same ∙ l.there; low = l.low; high = l.high }

  weakened : (a : Text) (n : ℕ) (s : BaseAccountStore Value) → HasLogin a n s → HasLogin a (suc n) s
  weakened a n s l = record {
    row = l.row;
    there = l.there;
    low = l.low;
    high = omega (arith, l.high);
  }

  at_row :
      (id a : Text) (n : ℕ) (s : BaseAccountStore Value) (l : HasLogin a n s)
      → text_eq id a ≡ true
      → (id ≡ a) × (HashMap.get s.inner id ≡ some l.row)
  at_row id a n s l e =
      let same = (text_eq_iff id a).0 e in (same, ap (HashMap.get s.inner) same ∙ l.there)

  increment_keeps :
      (id a : Text) (n : ℕ) (s : BaseAccountStore Value)
      → suc n < usize_values
      → HasLogin a n s
      → HasLogin a (suc n) (increment_login_count id s).1
  unfolding increment_login_count
  increment_keeps id a n s bound l = elim (Bool-cases (text_eq id a)) [
    | inl e ↦
        let (same, found) = at_row id a n s l e in rw (found, same) (increment_self a n s l bound)
    | inr e ↦ weakened a n _ (moved a n s _ (increment_other id a (HashMap.get s.inner id) s e) l)
  ]

  decrement_keeps :
      (id a : Text) (n : ℕ) (s : BaseAccountStore Value)
      → HasLogin a n s
      → HasLogin a n (decrement_login_count id s).1
  unfolding decrement_login_count
  decrement_keeps id a n s l = elim (Bool-cases (text_eq id a)) [
    | inl e ↦ let (same, found) = at_row id a n s l e in rw (found, same) (decrement_self a n s l)
    | inr e ↦ moved a n s _ (decrement_other id a (HashMap.get s.inner id) s e) l
  ]

  update_keeps :
      (id a setting : Text) (value : Value) (n : ℕ) (s : BaseAccountStore Value)
      → HasLogin a n s
      → HasLogin a n (update_setting id setting value s).1
  unfolding update_setting
  update_keeps id a setting value n s l = elim (Bool-cases (text_eq id a)) [
    | inl e ↦
        let (same, found) = at_row id a n s l e in
        rw (found, same) (update_self a setting value n s l)
    | inr e ↦ moved a n s _ (update_other id a setting value (HashMap.get s.inner id) s e) l
  ]

  perform_keeps :
      (op : Operation Value) (a : Text) (n : ℕ) (s : BaseAccountStore Value)
      → suc n < usize_values
      → Spares a op
      → HasLogin a n s
      → HasLogin a (suc n) (perform op s)
  unfolding perform create get_setting delete
  perform_keeps (increment id) a n s bound spared l = increment_keeps id a n s bound l
  perform_keeps (decrement id) a n s bound spared l = weakened a n _ (decrement_keeps id a n s l)
  perform_keeps (register now id) a n s bound spared l = weakened a n _ (
      moved a n (prune_expired now s) _
        (get-insert (prune_expired now s).inner id a _ ∙ rw spared refl) (pruned a n now s l))
  perform_keeps (read_setting now id setting) a n s bound spared l =
      weakened a n _ (pruned a n now s l)
  perform_keeps (write_setting id setting value) a n s bound spared l =
      weakened a n _ (update_keeps id a setting value n s l)
  perform_keeps (remove id) a n s bound spared l =
      weakened a n _ (moved a n s _ (get-remove s.inner id a ∙ rw spared refl) l)

  -- An account that has a login method is there, with a login method, after any operations that
  -- neither delete it nor draw its UUID again: decrementing stops at one and pruning passes it by.
  -- The count must not reach the 2^64 where it would wrap.
  pub linked_account_survives :
      (ops : List (Operation Value)) (a : Text) (n : ℕ) (s : BaseAccountStore Value)
      → n + length ops < usize_values
      → All (Spares a) ops
      → HasLogin a n s
      → HasLogin a (n + length ops) (run ops s)
  unfolding run
  linked_account_survives [] a n s bound spared l = record {
    row = l.row;
    there = l.there;
    low = l.low;
    high = omega (arith, l.high);
  }
  linked_account_survives (op ∷ ops) a n s bound spared l =
      let next = perform_keeps op a n s (omega arith) spared.0 l in
      let rest = linked_account_survives ops a (suc n) (perform op s) (omega arith) spared.1 next in
      record { row = rest.row; there = rest.there; low = rest.low; high = omega (arith, rest.high) }
