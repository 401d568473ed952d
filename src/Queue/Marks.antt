-- ===== src/Queue/Marks.antt =====
-- What the queue of src/lib/common.cpp tells the database: the submission that is taken is marked.
use bacs_legacy.Base.{
  ◌≡◌, refl, subst, Bool, true, false, not, List, [], ◌∷◌, ◌++◌, Bytes, codes, ◌=ₛ◌, if◌then◌else◌,
}
use bacs_legacy.Util.Format.{format}
use bacs_legacy.System.{Os, M, ◌>>=◌, ◌>>◌, pure, log_error}
use bacs_legacy.System.Triples.{
  View, view, Keeps, Triple, bind-Triple, bind-Keeps, if-Triple, if-Keeps,
}
use bacs_legacy.System.Facts.{Fact, Stable, Quiet, is_update}
use bacs_legacy.Config.{Settings, Order, order_ascending, order_descending, order_random}
use bacs_legacy.Database.{lock_table, unlock_table, release_query, db_qres, db_qres0, db_query}
use bacs_legacy.Database.Owned.{db_qres-Quiet, db_qres0-Quiet, db_query-Triple}
use bacs_legacy.Database.Updates.{updates, Records, got, got-Stable, query-got}
use bacs_legacy.Queue.{
  choose_order, select_query, update_query, check_new_submits, capture_new_submit, capture_locked,
  select_submit, mark_running,
}

-- The updates behind those before, when a submission was taken; an empty number stands for none.
abbrev pub with_mark : List Bytes → Bytes → List Bytes
with_mark us sid = if sid =ₛ [] then us else us ++ update_query sid ∷ []

module _ (os : Os) (c : Settings) (x : Fact os) (stable : Stable os x) where
  pub check_new_submits-Quiet : (dbg : Bytes) → Quiet os x (check_new_submits os c dbg)
  unfolding check_new_submits format
  check_new_submits-Quiet dbg =
      if-Keeps os {A = Bool} x.holds (not (dbg =ₛ [])) (pure true) _ (λ s p. p)
        (bind-Keeps os x.holds (db_qres0 os _) (λ q. pure (q =ₛ codes "1"))
          (db_qres0-Quiet os x stable _ refl) (λ q s p. p))

  lock_table-Quiet : Quiet os x (lock_table os)
  unfolding lock_table
  lock_table-Quiet =
      let q = codes "select get_lock('olimp.submit_lock', 10)" in
      bind-Keeps os x.holds (db_qres0 os q) (λ lock. pure (lock =ₛ codes "1"))
        (db_qres0-Quiet os x stable q refl) (λ lock s p. p)

  unlock_table-Quiet : Quiet os x (unlock_table os)
  unfolding unlock_table
  unlock_table-Quiet =
      bind-Keeps os x.holds (db_qres os release_query) (λ _. pure tt)
        (db_qres-Quiet os x stable release_query refl) (λ _ s p. p)

  select_query_reads : (ord : Order) → is_update (select_query ord) ≡ false
  unfolding format
  select_query_reads ord = refl

  choose_order-Quiet : (ord : Order) → Quiet os x (choose_order os c ord)
  unfolding choose_order
  choose_order-Quiet order_random s p = stable.rand_kept (view os s) p
  choose_order-Quiet order_ascending s p = p
  choose_order-Quiet order_descending s p = p

  select_submit-Quiet : (dbg : Bytes) → Quiet os x (select_submit os c dbg)
  unfolding select_submit
  select_submit-Quiet dbg =
      if-Keeps os {A = Bytes} x.holds (not (dbg =ₛ [])) (pure dbg)
        (choose_order os c c.order >>= λ ord. db_qres0 os (select_query ord)) (λ s p. p)
        (bind-Keeps os x.holds (choose_order os c c.order) (λ ord. db_qres0 os (select_query ord))
          (choose_order-Quiet c.order)
          (λ ord. db_qres0-Quiet os x stable (select_query ord) (select_query_reads ord)))

-- A property that every query keeps.
module _ (os : Os) (c : Settings) (P : View os → Type 0)
    (asks : (q : Bytes) → Keeps os P (db_query os q)) where
  pub mark_running-Keeps : (sid : Bytes) → Keeps os P (mark_running os c sid)
  unfolding mark_running
  mark_running-Keeps sid =
      let q = update_query sid in
      if-Keeps os {A = Unit {0}} P (sid =ₛ []) (pure tt) (db_query os q >>= λ _. pure tt) (λ s p. p)
        (bind-Keeps os P (db_query os q) (λ _. pure tt) (asks q) (λ _ s p. p))

-- What holds when a submission has been taken, where `marked` is about the query that marks it.
module _ (os : Os) (c : Settings) (x : Fact os) (stable : Stable os x)
    (y : Bytes → View os → Type 0)
    (y_stable : (sid : Bytes) → Stable os (record x { holds = y sid }))
    (marked : (sid : Bytes) → Triple os x.holds (mark_running os c sid) (λ _. y sid))
    (untaken : (v : View os) → x.holds v → y [] v) where
  abbrev Taken : Bytes × Bytes → View os → Type 0
  Taken r = y r.0

  capture_locked-Triple : (dbg : Bytes) → Triple os x.holds (capture_locked os c dbg) Taken
  unfolding capture_locked
  capture_locked-Triple dbg =
      let taken : Bytes → M os (Bytes × Bytes) = λ sid. pure (sid, []) in
      let free : Bytes → M os (Bytes × Bytes) = λ sid. unlock_table os >> taken sid in
      bind-Triple os x.holds (λ _. x.holds) Taken (select_submit os c dbg)
        (λ sid. mark_running os c sid >> free sid) (select_submit-Quiet os c x stable dbg)
        (λ sid.
          bind-Triple os x.holds (λ _. y sid) Taken (mark_running os c sid) (λ _. free sid)
            (marked sid)
            (λ _.
              bind-Triple os (y sid) (λ _. y sid) Taken (unlock_table os) (λ _. taken sid)
                (unlock_table-Quiet os c (record x { holds = y sid }) (y_stable sid)) (λ _ s p. p)))

  pub capture_new_submit-Taken :
      (dbg : Bytes) → Triple os x.holds (capture_new_submit os c dbg) (λ r. y r.0)
  unfolding capture_new_submit
  capture_new_submit-Taken dbg =
      let none_taken : M os (Bytes × Bytes) =
        log_error (codes "Error: cannot lock table 'submit'!") [] >> pure ([], dbg) in
      bind-Triple os x.holds (λ _. x.holds) Taken (lock_table os)
        (λ locked. if locked then capture_locked os c dbg else none_taken)
        (lock_table-Quiet os c x stable)
        (λ locked.
          if-Triple os {A = Bytes × Bytes} x.holds Taken locked (capture_locked os c dbg) none_taken
            (λ _. capture_locked-Triple dbg) (λ _ s p. untaken (view os s) p))

module _ (os : Os) (c : Settings) (sent : os.World → List Bytes) (records : Records os sent) where
  abbrev Got : List Bytes → View os → Type 0
  Got us = (got os sent records us).holds

  abbrev pub Marked : List Bytes → Bytes × Bytes → View os → Type 0
  Marked us r = (got os sent records (with_mark us r.0)).holds

  one_mark : (sid : Bytes) → updates (update_query sid ∷ []) ≡ update_query sid ∷ []
  unfolding format
  one_mark sid = refl

  mark_running-Triple :
      (us : List Bytes) (sid : Bytes)
      → Triple os (Got us) (mark_running os c sid) (λ _. Got (with_mark us sid))
  unfolding mark_running
  mark_running-Triple us sid =
      let q = update_query sid in
      if-Triple os {A = Unit {0}} (Got us) (λ _. Got (with_mark us sid)) (sid =ₛ []) (pure tt)
        (db_query os q >>= λ _. pure tt) (λ e s p. rw e p)
        (λ e.
          bind-Triple os (Got us) (λ _. Got (us ++ q ∷ [])) (λ _. Got (with_mark us sid))
            (db_query os q) (λ _. pure tt)
            (db_query-Triple os (Got us) (Got (us ++ q ∷ [])) q
              (λ v k p.
                subst (λ qs. Got (us ++ qs) (v.0, (os.query q v.1).1)) (one_mark sid)
                  (query-got os sent records us q v p))
              (λ v k p. absurd (cc p.0)))
            (λ _ s p. rw e p))

  -- The submission that is taken is marked, and nothing else is.
  pub capture_new_submit-Triple :
      (us : List Bytes) (dbg : Bytes) → Triple os (Got us) (capture_new_submit os c dbg) (Marked us)
  capture_new_submit-Triple us dbg =
      capture_new_submit-Taken os c (got os sent records us) (got-Stable os sent records us)
        (λ sid. Got (with_mark us sid)) (λ sid. got-Stable os sent records (with_mark us sid))
        (mark_running-Triple us) (λ v p. p) dbg
