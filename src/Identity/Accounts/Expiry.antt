-- ===== src/Identity/Accounts/Expiry.antt =====
-- An account that never gets a login method is pruned.
use solid_community_rs.Prelude.{
  ℕ, ◌+◌, ◌≤◌, ◌≡◌, refl, sym, ap, ◌∙◌, false, inl, inr, List, [], ◌∷◌, none, arith, Text, text_eq,
  text_eq_refl, All, Any, Bool-cases, Option-cases,
}
use solid_community_rs.Prelude.HashMap
use solid_community_rs.Prelude.HashMap.{
  HashMap, filter_value, keep_if, get-insert, get-remove, get-retain,
}
use solid_community_rs.Identity.Accounts.{
  BaseAccountStore, increment_login_count, prune_expired, create, get_setting, delete,
}
use solid_community_rs.Identity.Accounts.Survival.{
  Operation, increment, decrement, register, read_setting, write_setting, remove, perform, run,
  increment_other,
}
use solid_community_rs.Identity.Accounts.Idle.{
  IsIdle, row_eq, IsIdle-moved, increment_expiry, prune-IsIdle, prune_gone, absent-IsIdle,
  decrement_leaves, update_leaves,
}

module _ {Value : Type 0} where
  -- The operation neither links a login method to the account nor draws its UUID again.
  abbrev pub Leaves : Text → Operation Value → Type 0
  Leaves a (increment id) = text_eq id a ≡ false
  Leaves a (register now id) = text_eq id a ≡ false
  Leaves a _ = Unit

  -- The operation prunes, at `deadline` or later.
  abbrev pub PrunesFrom : ℕ → Operation Value → Type 0
  PrunesFrom deadline (register now id) = deadline ≤ now
  PrunesFrom deadline (read_setting now id setting) = deadline ≤ now
  PrunesFrom deadline _ = ⊥

  perform-Leaves :
      (op : Operation Value) (a : Text) (t expiry : ℕ) (s : BaseAccountStore Value)
      → Leaves a op
      → IsIdle a t expiry s
      → IsIdle a t expiry (perform op s)
  unfolding perform increment_login_count create get_setting delete
  perform-Leaves (increment id) a t expiry s leaves i =
      IsIdle-moved a t expiry s _ (increment_expiry id (HashMap.get s.inner id) s)
        (increment_other id a (HashMap.get s.inner id) s leaves) i
  perform-Leaves (decrement id) a t expiry s leaves i = decrement_leaves id a t expiry s i
  perform-Leaves (register now id) a t expiry s leaves i =
      IsIdle-moved a t expiry (prune_expired now s) _ refl
        (get-insert (prune_expired now s).inner id a _ ∙ (rw leaves refl))
        (prune-IsIdle a t expiry now s i)
  perform-Leaves (read_setting now id setting) a t expiry s leaves i =
      prune-IsIdle a t expiry now s i
  perform-Leaves (write_setting id setting value) a t expiry s leaves i =
      update_leaves id a setting value t expiry s i
  perform-Leaves (remove id) a t expiry s leaves i = record {
    same_expiry = i.same_expiry;
    unlinked = λ row there. elim (Bool-cases (text_eq id a)) [
      | inl e ↦ cc (rw (get-remove, e) at there)
      | inr e ↦ i.unlinked row (rw (get-remove, e) at there)
    ];
  }

  perform_prunes :
      (op : Operation Value) (a : Text) (t expiry : ℕ) (s : BaseAccountStore Value)
      → Leaves a op
      → PrunesFrom (t + expiry) op
      → IsIdle a t expiry s
      → HashMap.get (perform op s).inner a ≡ none
  unfolding perform create get_setting
  perform_prunes (register now id) a t expiry s leaves late i =
      get-insert (prune_expired now s).inner id a _
      ∙ (rw leaves (prune_gone a t expiry now s i late))
  perform_prunes (read_setting now id setting) a t expiry s leaves late i =
      prune_gone a t expiry now s i late
  perform_prunes (increment id) a t expiry s leaves late i = absurd late
  perform_prunes (decrement id) a t expiry s leaves late i = absurd late
  perform_prunes (write_setting id setting value) a t expiry s leaves late i = absurd late
  perform_prunes (remove id) a t expiry s leaves late i = absurd late

  -- An account that is not there is idle since any instant, so a row that appeared would be of two.
  perform_absent :
      (op : Operation Value) (a : Text) (s : BaseAccountStore Value)
      → Leaves a op
      → HashMap.get s.inner a ≡ none
      → HashMap.get (perform op s).inner a ≡ none
  perform_absent op a s leaves gone = elim (Option-cases (HashMap.get (perform op s).inner a)) [
    | inl still ↦ still
    | inr (row, there) ↦
        let one = perform-Leaves op a 0 s.expiry s leaves (absent-IsIdle a 0 s gone) in
        let two = perform-Leaves op a 1 s.expiry s leaves (absent-IsIdle a 1 s gone) in
        absurd (omega (arith, (one.unlinked row there).1, (two.unlinked row there).1))
  ]

  run_absent :
      (ops : List (Operation Value)) (a : Text) (s : BaseAccountStore Value)
      → All (Leaves a) ops
      → HashMap.get s.inner a ≡ none
      → HashMap.get (run ops s).inner a ≡ none
  unfolding run
  run_absent [] a s leaves gone = gone
  run_absent (op ∷ ops) a s leaves gone =
      run_absent ops a (perform op s) leaves.1 (perform_absent op a s leaves.0 gone)

  run_expires :
      (ops : List (Operation Value)) (a : Text) (t expiry : ℕ) (s : BaseAccountStore Value)
      → All (Leaves a) ops
      → Any (PrunesFrom (t + expiry)) ops
      → IsIdle a t expiry s
      → HashMap.get (run ops s).inner a ≡ none
  unfolding run
  run_expires [] a t expiry s leaves late i = absurd late
  run_expires (op ∷ ops) a t expiry s leaves (inl late) i =
      run_absent ops a (perform op s) leaves.1 (perform_prunes op a t expiry s leaves.0 late i)
  run_expires (op ∷ ops) a t expiry s leaves (inr later) i =
      run_expires ops a t expiry (perform op s) leaves.1 later
        (perform-Leaves op a t expiry s leaves.0 i)

  created-IsIdle :
      (a : Text) (t : ℕ) (s : BaseAccountStore Value) → IsIdle a t s.expiry (create t a s).1
  unfolding create
  created-IsIdle a t s = record {
    same_expiry = unfold prune_expired in refl;
    unlinked = λ row there.
        let own = row_eq (rw (get-insert, text_eq_refl a) at there) in
        (sym (ap (λ x. x.linked_logins_count) own), sym (ap (λ x. x.created_at) own));
  }

  -- An account that is created at `t` is gone after any operations of which none links a login
  -- method to it or draws its UUID again and one that prunes comes at `t` plus the expiry or later.
  pub abandoned_account_expires :
      (ops : List (Operation Value)) (a : Text) (t : ℕ) (s : BaseAccountStore Value)
      → All (Leaves a) ops
      → Any (PrunesFrom (t + s.expiry)) ops
      → HashMap.get (run ops (create t a s).1).inner a ≡ none
  abandoned_account_expires ops a t s leaves late =
      run_expires ops a t s.expiry (create t a s).1 leaves late (created-IsIdle a t s)
