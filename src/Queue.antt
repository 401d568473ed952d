-- ===== src/Queue.antt =====
-- The queue of submissions: `check_new_submits` and `capture_new_submit` of src/lib/common.cpp.

pub mod Lock
pub mod Marks
use bacs_legacy.Base.{
  ℕ, ◌%◌, ◌==◌, Bool, true, false, not, Option, none, some, [], ◌∷◌, ◌++◌, Bytes, codes, ℤ, pos,
  ◌=ₛ◌, if◌then◌else◌,
}
use bacs_legacy.Util.Format.{c_str, format}
use bacs_legacy.Util.Number.{i2s}
use bacs_legacy.Def.{Status, status_code, pending, running}
use bacs_legacy.System.{Os, M, ◌>>=◌, ◌>>◌, pure, run_os, log_error}
use bacs_legacy.Config.{Settings, Order, order_ascending, order_descending, order_random}
use bacs_legacy.Database.{db_qres0, db_query, lock_table, unlock_table}

-- A status as a number in a query.
abbrev number_of : Status → Bytes
number_of s = i2s (pos (status_code s))

-- `ord == order_ascending ? "asc" : "desc"`
abbrev direction : Order → Bytes
direction order_ascending = codes "asc"
direction _ = codes "desc"

abbrev select_query : Order → Bytes
select_query ord = format (
    codes "select submit_id from submit where result = "
    ++ (number_of pending ++ (codes " order by submit_id " ++ (direction ord ++ codes " limit 1"))))

abbrev pub update_query : Bytes → Bytes
update_query sid = format (
    codes "update submit set result = "
    ++ (number_of running ++ (codes " where submit_id = " ++ c_str sid)))

module _ (os : Os) (c : Settings) where
  -- The argument is the global variable `dbg_submit_id`.
  unfoldable pub check_new_submits : Bytes → M os Bool
  check_new_submits dbg_submit_id = if not (dbg_submit_id =ₛ []) then pure true else do
    q ← db_qres0 os (
        format
          (codes "select 1 from submit where result = " ++ (number_of pending ++ codes " limit 1")))
    pure (q =ₛ codes "1")

  choose_order : Order → M os Order
  choose_order order_random = do
    r ← run_os os.rand
    pure (if r % 2 == 1 then order_ascending else order_descending)
  choose_order ord = pure ord

  -- The submission to take; a submission for debugging comes first, once.
  select_submit : Bytes → M os Bytes
  unfolding choose_order
  select_submit dbg_submit_id =
      if not (dbg_submit_id =ₛ [])
      then pure dbg_submit_id
      else do ord ← choose_order c.order; db_qres0 os (select_query ord)

  pub mark_running : Bytes → M os (Unit {0})
  mark_running sid = if sid =ₛ [] then pure tt else do db_query os (update_query sid); pure tt

  -- Under the lock.
  capture_locked : Bytes → M os (Bytes × Bytes)
  unfolding select_submit mark_running
  capture_locked dbg_submit_id = do
    sid ← select_submit dbg_submit_id
    mark_running sid
    unlock_table os
    pure (sid, [])

  -- The submission, which is empty where there is none, and what is in `dbg_submit_id` then.
  unfoldable pub capture_new_submit : Bytes → M os (Bytes × Bytes)
  unfolding capture_locked
  capture_new_submit dbg_submit_id = do
    locked ← lock_table os
    if locked
        then capture_locked dbg_submit_id
        else do log_error (codes "Error: cannot lock table 'submit'!") []; pure ([], dbg_submit_id)
