-- ===== src/Identity/Accounts/Idle.antt =====
-- An account without a login method, and what keeps it without one.
use solid_community_rs.Prelude.{
  ℕ, ◌+◌, ◌≤◌, ◌≡◌, refl, sym, ap, ◌∙◌, Bool, true, inl, inr, Option, none, some, arith, Text,
  text_eq, text_eq_iff, text_eq_refl, Bool-cases, Option-cases,
}
use solid_community_rs.Prelude.HashMap
use solid_community_rs.Prelude.HashMap.{
  HashMap, filter_value, keep_if, get-insert, get-remove, get-retain,
}
use solid_community_rs.Identity.Accounts.{
  AccountRow, BaseAccountStore, increment_row, decrement_row, decrement_login_count, survives,
  prune_expired, update_row, update_setting,
}
use solid_community_rs.Identity.Accounts.Survival.{decrement_other, update_other}

module _ {Value : Type 0} where
  -- If the account is there, it was created at `t` and has no login method.
  pub record IsIdle (a : Text) (t expiry : ℕ) (s : BaseAccountStore Value) : Type 0 where
    pub same_expiry : s.expiry ≡ expiry
    pub unlinked :
        (row : AccountRow Value)
        → HashMap.get s.inner a ≡ some row
        → (row.linked_logins_count ≡ 0) × (row.created_at ≡ t)

  pub IsIdle-moved :
      (a : Text) (t expiry : ℕ) (s s' : BaseAccountStore Value)
      → s'.expiry ≡ s.expiry
      → HashMap.get s'.inner a ≡ HashMap.get s.inner a
      → IsIdle a t expiry s
      → IsIdle a t expiry s'
  IsIdle-moved a t expiry s s' e same i = record {
    same_expiry = e ∙ i.same_expiry;
    unlinked = λ row there. i.unlinked row (sym same ∙ there);
  }

  pub increment_expiry :
      (id : Text) (o : Option (AccountRow Value)) (s : BaseAccountStore Value)
      → (increment_row id o s).1.expiry ≡ s.expiry
  unfolding increment_row
  increment_expiry id none s = refl
  increment_expiry id (some row) s = refl

  decrement_expiry :
      (id : Text) (o : Option (AccountRow Value)) (s : BaseAccountStore Value)
      → (decrement_row id o s).1.expiry ≡ s.expiry
  unfolding decrement_row
  decrement_expiry id none s = refl
  decrement_expiry id (some row) s = ground arith

  update_expiry :
      (id setting : Text) (value : Value) (o : Option (AccountRow Value))
      (s : BaseAccountStore Value)
      → (update_row id setting value o s).1.expiry ≡ s.expiry
  unfolding update_row
  update_expiry id setting value none s = refl
  update_expiry id setting value (some row) s = refl

  decrement_idle :
      (a : Text) (o : Option (AccountRow Value)) (s : BaseAccountStore Value)
      → ((row : AccountRow Value) → o ≡ some row → row.linked_logins_count ≡ 0)
      → (decrement_row a o s).1 ≡ s
  unfolding decrement_row
  decrement_idle a none s idle = refl
  decrement_idle a (some row) s idle = rw (idle row refl) refl

  pub row_eq : {q r : AccountRow Value} → some q ≡ some r → q ≡ r
  row_eq h = cc h

  update-IsIdle :
      (a setting : Text) (value : Value) (o : Option (AccountRow Value)) (t expiry : ℕ)
      (s : BaseAccountStore Value)
      → HashMap.get s.inner a ≡ o
      → IsIdle a t expiry s
      → IsIdle a t expiry (update_row a setting value o s).1
  unfolding update_row
  update-IsIdle a setting value none t expiry s there i = i
  update-IsIdle a setting value (some row) t expiry s there i = record {
    same_expiry = i.same_expiry;
    unlinked = λ r found.
        let own = row_eq (rw (get-insert, text_eq_refl a) at found) in
        let (none_linked, time) = i.unlinked row there in
        (
          sym (ap (λ x. x.linked_logins_count) own) ∙ none_linked,
          sym (ap (λ x. x.created_at) own) ∙ time,
        );
  }

  kept_by_filter :
      (p : AccountRow Value → Bool) (o : Option (AccountRow Value)) (row : AccountRow Value)
      → filter_value p o ≡ some row
      → (o ≡ some row) × (p row ≡ true)
  kept_by_filter p none row h = cc h
  kept_by_filter p (some r) row h = elim (Bool-cases (p r)) [
    | inl e ↦ let same = row_eq (rw e at h) in (ap (λ x. some x) same, sym (ap p same) ∙ e)
    | inr e ↦ cc (rw e at h)
  ]

  prune_there :
      (a : Text) (now : ℕ) (s : BaseAccountStore Value) (row : AccountRow Value)
      → HashMap.get (prune_expired now s).inner a ≡ some row
      → (HashMap.get s.inner a ≡ some row) × (survives s.expiry now row ≡ true)
  unfolding prune_expired
  prune_there a now s row h =
      kept_by_filter (survives s.expiry now) (HashMap.get s.inner a) row (rw get-retain at h)

  pub prune-IsIdle :
      (a : Text) (t expiry now : ℕ) (s : BaseAccountStore Value)
      → IsIdle a t expiry s
      → IsIdle a t expiry (prune_expired now s)
  prune-IsIdle a t expiry now s i = record {
    same_expiry = unfold prune_expired in i.same_expiry;
    unlinked = λ row there. i.unlinked row (prune_there a now s row there).0;
  }

  pub prune_gone :
      (a : Text) (t expiry now : ℕ) (s : BaseAccountStore Value)
      → IsIdle a t expiry s
      → t + expiry ≤ now
      → HashMap.get (prune_expired now s).inner a ≡ none
  prune_gone a t expiry now s i late =
      elim (Option-cases (HashMap.get (prune_expired now s).inner a)) [
        | inl gone ↦ gone
        | inr (row, there) ↦
            let (old, survived) = prune_there a now s row there in
            let (unlinked, time) = i.unlinked row old in
            absurd (ground (arith, survived, unlinked, time, i.same_expiry, late))
      ]

  pub absent-IsIdle :
      (a : Text) (t : ℕ) (s : BaseAccountStore Value)
      → HashMap.get s.inner a ≡ none
      → IsIdle a t s.expiry s
  absent-IsIdle a t s gone = record {
    same_expiry = refl;
    unlinked = λ row there. cc (sym gone ∙ there);
  }

  pub decrement_leaves :
      (id a : Text) (t expiry : ℕ) (s : BaseAccountStore Value)
      → IsIdle a t expiry s
      → IsIdle a t expiry (decrement_login_count id s).1
  unfolding decrement_login_count
  decrement_leaves id a t expiry s i = elim (Bool-cases (text_eq id a)) [
    | inl e ↦
        rw
          (decrement_idle id (HashMap.get s.inner id) s (λ row there.
            (i.unlinked row (ap (HashMap.get s.inner) (sym ((text_eq_iff id a).0 e)) ∙ there)).0))
          i
    | inr e ↦
        IsIdle-moved a t expiry s _ (decrement_expiry id (HashMap.get s.inner id) s)
          (decrement_other id a (HashMap.get s.inner id) s e) i
  ]

  pub update_leaves :
      (id a setting : Text) (value : Value) (t expiry : ℕ) (s : BaseAccountStore Value)
      → IsIdle a t expiry s
      → IsIdle a t expiry (update_setting id setting value s).1
  unfolding update_setting
  update_leaves id a setting value t expiry s i = elim (Bool-cases (text_eq id a)) [
    | inl e ↦
        let same = (text_eq_iff id a).0 e in
        rw same (update-IsIdle a setting value (HashMap.get s.inner a) t expiry s refl i)
    | inr e ↦
        IsIdle-moved a t expiry s _ (update_expiry id setting value (HashMap.get s.inner id) s)
          (update_other id a setting value (HashMap.get s.inner id) s e) i
  ]
