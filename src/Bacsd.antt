-- ===== src/Bacsd.antt =====
-- The server src/bin/bacsd.cpp: its waits for signals and for new submissions. The modules below have
-- the loop over the submissions, and `main`.
pub mod Deadline
pub mod Waiting
pub mod Waits
pub mod Patience
pub mod Kept
pub mod Loop
pub mod Main
use bacs_legacy.Base.{
  ℕ, zero, suc, ◌+◌, ◌-◌, ◌^◌, ◌%◌, ◌==◌, Bool, true, false, ◌&&◌, ◌||◌, Option, none, some, [], ℤ,
  pos, negsuc, ◌+ℤ◌, ◌*ℤ◌, quot_ℤ, rem_ℤ, ltb_ℤ, ◌==ℤ◌, if◌then◌else◌,
}
use bacs_legacy.System.{Os, M, ◌>>=◌, ◌>>◌, pure, crash, run_os, when}
use bacs_legacy.Config.{Settings}
use bacs_legacy.Ping.{PingType, waiting, userterm, ping}

-- `timespec`
pub record Timespec : Type 0 where
  pub tv_sec : ℤ
  pub tv_nsec : ℤ

abbrev pub timespec_of : ℕ × ℕ → Timespec
timespec_of (sec, nsec) = record { tv_sec = pos sec; tv_nsec = pos nsec }

-- The end of the wait: lines 37 to 40. Both members are far from the bounds of `long`.
unfoldable pub deadline : ℤ → Timespec → Timespec
deadline submits_delay cur =
    let end_nsec = rem_ℤ (cur.tv_nsec +ℤ rem_ℤ submits_delay 1000 *ℤ 1000000) 1000000000 in
    record {
      tv_sec = cur.tv_sec +ℤ quot_ℤ submits_delay 1000 +ℤ quot_ℤ end_nsec 1000000000;
      tv_nsec = end_nsec;
    }

-- The condition of the `break` in line 48.
unfoldable pub passed : Timespec → Timespec → Bool
passed cur end =
    ltb_ℤ end.tv_sec cur.tv_sec || (cur.tv_sec ==ℤ end.tv_sec && ltb_ℤ end.tv_nsec cur.tv_nsec)

-- The conversion of an `int` to `size_t`.
abbrev pub to_size : ℤ → ℕ
to_size (pos n) = n
to_size (negsuc n) = 2 ^ 64 - 1 - n

module _ (os : Os) (c : Settings) where
  -- `ping` with its default arguments from the second on
  abbrev pub ping_only : PingType → M os (Unit {0})
  ping_only type = ping os c type [] (negsuc 0) [] []

  unfoldable pub wait_term : ℕ → ℕ → M os Bool
  wait_term sec nsec = do
    came ← run_os (os.wait_signal sec nsec)
    when came (ping_only userterm)
    pure came

  unfoldable pub short_wait_term : M os Bool
  unfolding wait_term
  short_wait_term = wait_term 0 1000000

  -- `if (counter % cf_ping_period == 0) ping(waiting);`, which divides by zero where the period is 0
  unfoldable pub ping_waiting : ℕ → M os (Unit {0})
  ping_waiting counter =
      if c.ping_period ==ℤ pos 0
      then crash
      else when (counter % to_size c.ping_period == 0) (ping_only waiting)

  -- The loop of `wait_cycle`, up to a number of rounds: `none` where they are not enough.
  unfoldable pub wait_rounds : ℕ → ℕ → Timespec → M os (Option Bool)
  unfolding ping_waiting wait_term passed
  wait_rounds zero counter end = pure none
  wait_rounds (suc fuel) counter end = do
    ping_waiting counter
    came ← wait_term 0 100000000
    if came then pure (some true) else do
      cur ← run_os os.clock
      if passed (timespec_of cur) end
          then pure (some false)
          else wait_rounds fuel ((counter + 1) % 1000) end

  unfoldable pub wait_cycle : ℕ → M os (Option Bool)
  unfolding wait_rounds deadline
  wait_cycle fuel = do
    cur ← run_os os.clock
    wait_rounds fuel 0 (deadline c.submits_delay (timespec_of cur))
