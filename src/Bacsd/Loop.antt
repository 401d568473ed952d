-- ===== src/Bacsd/Loop.antt =====
-- The loop of src/bin/bacsd.cpp over the submissions, `check_thread_proc`.
pub mod Fatal
pub mod Keeps
pub mod Served
pub mod Gone
use bacs_legacy.Base.{
  ℕ, zero, suc, Bool, true, false, not, Option, none, some, [], Bytes, codes, negsuc, ◌=ₛ◌,
  if◌then◌else◌,
}
use bacs_legacy.Double.{Double}
use bacs_legacy.System.{Os, Server, M, ◌>>=◌, ◌>>◌, pure, log_add, log_error, log_working}
use bacs_legacy.Config.{Settings}
use bacs_legacy.Run.{Vars}
use bacs_legacy.Problem.{Problem}
use bacs_legacy.Ping.{PingType, running, completed, error, ping}
use bacs_legacy.Queue.{check_new_submits, capture_new_submit}
use bacs_legacy.Submit.{test_submit}
use bacs_legacy.Bacsd.{short_wait_term, wait_cycle}

-- What the members and the variables of `test_submit` are before the program sets them.
pub record Memory (d : Double) : Type 0 where
  pub problem : Problem d
  pub acm : Bool
  pub need_info : Bool
  pub unset : Vars
  pub dummies : Vars

-- Which `return` ends the loop: one for a signal, or the one for a fatal error.
pub data Ending : Type 0 where
  by_signal by_error : Ending

-- The variable `need_announce`, and the global variable `dbg_submit_id`.
pub record LoopState : Type 0 where
  pub need_announce : Bool
  pub dbg_submit_id : Bytes

-- How a round goes on: with another one, with a `return`, or not at all where the fuel of
-- `wait_cycle` is not enough.
pub data Next : Type 0 where
  goes_on : LoopState → Next
  ends : Ending → Next
  out_of_fuel : Next

module _ (os : Os) (d : Double) (c : Settings) (memory : Server os → Memory d) where
  abbrev pub test_sid : Bytes → M os Bool
  test_sid sid s =
      let m = memory s in test_submit os d c m.problem m.acm m.need_info sid m.unset m.dummies s

  abbrev ping_sid : PingType → Bytes → M os (Unit {0})
  ping_sid type sid = ping os c type sid (negsuc 0) [] []

  pub log_fatal : M os (Unit {0})
  log_fatal = log_error (codes "Terminating check thread due to fatal error!") []

  -- What is done behind `test_submit`.
  pub behind_test : Bytes → Bool → M os Bool
  unfolding log_fatal
  behind_test sid fine =
      if not fine
      then (do ping_sid error sid; log_fatal; pure false)
      else do ping_sid completed sid; pure true

  -- The part under `if (sid != "")`; false where the loop is to be left.
  pub test_captured : Bytes → M os Bool
  unfolding behind_test
  test_captured sid =
      if sid =ₛ []
      then pure true
      else do ping_sid running sid; fine ← test_sid sid; behind_test sid fine

  announce : Bool → M os (Unit {0})
  announce need_announce =
      if need_announce then log_add (codes "Waiting for new events...") [] else log_working

  -- The rest of a round, behind a submission.
  pub behind_found : Bytes → Bool → M os Next
  unfolding announce
  behind_found dbg_submit_id fine = if not fine then pure (ends by_error) else do
    announce true
    pure (goes_on (record { need_announce = false; dbg_submit_id = dbg_submit_id }))

  pub found_round : Bytes → M os Next
  unfolding test_captured behind_found
  found_round dbg_submit_id = do
    (sid, dbg_submit_id') ← capture_new_submit os c dbg_submit_id
    fine ← test_captured sid
    behind_found dbg_submit_id' fine

  next_of : LoopState → Option Bool → Next
  next_of l none = out_of_fuel
  next_of l (some true) = ends by_signal
  next_of l (some false) = goes_on (record l { need_announce = false })

  idle_round : ℕ → LoopState → M os Next
  unfolding announce next_of
  idle_round fuel l = do
    announce l.need_announce
    stop ← wait_cycle os c fuel
    pure (next_of l stop)

  -- A round, behind the wait for a signal.
  behind_signal : ℕ → LoopState → Bool → M os Next
  unfolding found_round idle_round
  behind_signal fuel l came = if came then pure (ends by_signal) else do
    new ← check_new_submits os c l.dbg_submit_id
    if new then found_round l.dbg_submit_id else idle_round fuel l

  check_round : ℕ → LoopState → M os Next
  unfolding behind_signal
  check_round fuel l = do came ← short_wait_term os c; behind_signal fuel l came

  -- The loop, up to a number of rounds: `none` where it has not ended by then.
  pub check_loop : ℕ → ℕ → LoopState → M os (Option Ending)
  unfolding check_round
  check_loop zero fuel l = pure none
  check_loop (suc rounds) fuel l = do
    next ← check_round fuel l
    elim next [
      | goes_on l' ↦ check_loop rounds fuel l'
      | ends e ↦ pure (some e)
      | out_of_fuel ↦ pure none
    ]

  unfoldable pub check_thread_proc : ℕ → ℕ → Bytes → M os (Option Ending)
  unfolding check_loop
  check_thread_proc rounds fuel dbg_submit_id =
      check_loop rounds fuel (record { need_announce = true; dbg_submit_id = dbg_submit_id })
