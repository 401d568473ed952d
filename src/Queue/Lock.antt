-- ===== src/Queue/Lock.antt =====
-- The lock of the queue is given back.
use bacs_legacy.Base.{
  ◌≡◌, ◌=ₛ◌, refl, not, Bool, true, [], Bytes, codes, if◌then◌else◌, if_cases, subst, arith,
}
use bacs_legacy.System.{Os, Server, M, Outcome, returned, ◌>>=◌, pure, log_error}
use bacs_legacy.System.Rules.{bind_cases}
use bacs_legacy.Config.{Settings, Order, order_ascending, order_descending, order_random}
use bacs_legacy.Database.{lock_table, unlock_table, release_query, db_qres0, db_query}
use bacs_legacy.Database.Connected.{
  KeepsConnected, bind-KeepsConnected, db_qres0-KeepsConnected, db_query-KeepsConnected,
  lock_table-connected,
}
use bacs_legacy.Queue.{
  choose_order, select_query, update_query, capture_new_submit, capture_locked, select_submit,
  mark_running,
}

same_value :
    {os : Os} (r : Outcome Bool × Server os) (s₁ s' : Server os) (b : Bool)
    → r ≡ (returned true, s₁)
    → r ≡ (returned b, s')
    → b ≡ true
same_value r s₁ s' b h k = cc

module _ (os : Os) (c : Settings) where
  choose_order-KeepsConnected : (ord : Order) → KeepsConnected (choose_order os c ord)
  unfolding choose_order
  choose_order-KeepsConnected order_random s = refl
  choose_order-KeepsConnected order_ascending s = refl
  choose_order-KeepsConnected order_descending s = refl

  select_submit-KeepsConnected :
      (dbg_submit_id : Bytes) → KeepsConnected (select_submit os c dbg_submit_id)
  unfolding select_submit
  select_submit-KeepsConnected dbg_submit_id =
      if_cases KeepsConnected (not (dbg_submit_id =ₛ [])) _ _ (λ _ s. refl)
        (λ _.
          bind-KeepsConnected (choose_order os c c.order) (λ ord. db_qres0 os (select_query ord))
            (choose_order-KeepsConnected c.order)
            (λ ord. db_qres0-KeepsConnected os (select_query ord)))

  mark_running-KeepsConnected : (sid : Bytes) → KeepsConnected (mark_running os c sid)
  unfolding mark_running
  mark_running-KeepsConnected sid =
      if_cases KeepsConnected (sid =ₛ []) _ _ (λ _ s. refl)
        (λ _.
          bind-KeepsConnected (db_query os (update_query sid)) (λ _. pure tt)
            (db_query-KeepsConnected os (update_query sid)) (λ _ s. refl))

module _ (os : Os) (c : Settings) (Free : os.World → Type 0) where
  abbrev FreeEnd : {A : Type 0} → Outcome A × Server os → Type 0
  FreeEnd {A} r = (a : A) → r.0 ≡ returned a → Free r.1.world

  unlock_table-FreeEnd :
      (s : Server os)
      → s.connected ≡ true
      → ((w : os.World) → Free (os.query release_query w).1)
      → Free (unlock_table os s).1.world
  unfolding unlock_table
  unlock_table-FreeEnd s connected frees = ground (arith, frees s.world)

  capture_locked-FreeEnd :
      (dbg_submit_id : Bytes) (s : Server os)
      → s.connected ≡ true
      → ((w : os.World) → Free (os.query release_query w).1)
      → FreeEnd (capture_locked os c dbg_submit_id s)
  unfolding capture_locked
  capture_locked-FreeEnd dbg_submit_id s connected frees =
      bind_cases FreeEnd (select_submit os c dbg_submit_id)
        (λ sid. mark_running os c sid >>= λ _. unlock_table os >>= λ _. pure (sid, [])) s
        (λ sid s₁ e₁.
          bind_cases FreeEnd (mark_running os c sid) (λ _. unlock_table os >>= λ _. pure (sid, []))
            s₁
            (λ _ s₂ e₂.
              let k₁ = select_submit-KeepsConnected os c dbg_submit_id s in
              let k₂ = mark_running-KeepsConnected os c sid s₁ in
              let still : s₂.connected ≡ true = cc in
              bind_cases FreeEnd (unlock_table os) (λ _. pure (sid, [])) s₂
                (λ _ s₃ e a h. subst (λ r. Free r.1.world) e (unlock_table-FreeEnd s₂ still frees))
                (λ s₃ e a h. cc))
            (λ s₂ e a h. cc))
        (λ s₁ e a h. cc)

  -- Where `capture_new_submit` has taken the lock and returns, whatever it has found and whether or
  -- not its queries have failed, the last thing that it did to the database was to give the lock
  -- back: a property of the database that the query "release_lock" establishes holds.
  pub capture_new_submit-free :
      (dbg_submit_id : Bytes) (s s₁ : Server os) (a : Bytes × Bytes)
      → ((w : os.World) → Free (os.query release_query w).1)
      → lock_table os s ≡ (returned true, s₁)
      → (capture_new_submit os c dbg_submit_id s).0 ≡ returned a
      → Free (capture_new_submit os c dbg_submit_id s).1.world
  unfolding capture_new_submit
  capture_new_submit-free dbg_submit_id s s₁ a frees locked =
      let refused : M os (Bytes × Bytes) =
        log_error (codes "Error: cannot lock table 'submit'!") [] >>= λ _.
        pure ([], dbg_submit_id) in
      bind_cases (λ r. r.0 ≡ returned a → Free r.1.world) (lock_table os)
        (λ b. if b then capture_locked os c dbg_submit_id else refused) s
        (λ b s' e.
          if_cases (λ (m : M os (Bytes × Bytes)). (m s').0 ≡ returned a → Free (m s').1.world) b _ _
            (λ t.
              capture_locked-FreeEnd dbg_submit_id s'
                (lock_table-connected os s s' (subst (λ v. lock_table os s ≡ (returned v, s')) t e))
                frees a)
            (λ f. let t = same_value (lock_table os s) s₁ s' b locked e in absurd (ground arith)))
        (λ s' e h. cc)
