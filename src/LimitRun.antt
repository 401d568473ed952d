-- ===== src/LimitRun.antt =====
-- The launcher src/bin/limit_run.cpp: it runs a program under limits and writes a line with what
-- became of it. This file has the data and the parent's part; `Start` has the arguments and the
-- child's part.

pub mod Verdict
pub mod Start
pub mod Watch
pub mod Main
use Prim.Native.Nat.{max}
use bacs_legacy.Base.{
  ℕ, zero, suc, ◌+◌, ◌*◌, ◌/◌, Bool, true, false, ◌&&◌, ◌||◌, not, Option, none, some, List, [],
  ◌∷◌, ◌++◌, Bytes, codes, ℤ, pos, negsuc, pos_part, ltb_ℤ, ltb, leb, ◌==◌, ◌==ℤ◌, to_int,
  if◌then◌else◌,
}
use bacs_legacy.Util.Number.{i2s}
use bacs_legacy.Process.{WaitStatus, exited, signaled, other}
use bacs_legacy.Def.{
  run_ok, run_failed, run_timeout, run_out_of_memory, run_abnormal_exit, run_realtimeout,
  run_output_limit,
}

-- The four global variables, in the order of `writeResults`.
pub record Results : Type 0 where
  pub result : ℤ
  pub exit_code : ℤ
  pub memory_used : ℤ
  pub time_used : ℤ

abbrev pub initial : Results
initial = record { result = negsuc 0; exit_code = negsuc 0; memory_used = pos 0; time_used = pos 0 }

-- What `getrusage(RUSAGE_CHILDREN)` gives: the user time, and the resident size in KiB.
pub record Usage : Type 0 where
  pub utime_sec : ℕ
  pub utime_usec : ℕ
  pub maxrss : ℕ

abbrev pub sigxcpu : ℕ
sigxcpu = 24

abbrev pub sigalrm : ℕ
sigalrm = 14

abbrev pub sigvtalrm : ℕ
sigvtalrm = 26

abbrev pub sigprof : ℕ
sigprof = 27

abbrev pub sigxfsz : ℕ
sigxfsz = 25

-- `getrusage` fails with `none`.
pub time_of : Option Usage → ℤ
time_of none = pos 0
time_of (some u) = to_int (pos (u.utime_sec * 1000 + u.utime_usec / 1000))

pub memory_of : Option Usage → ℤ
memory_of none = pos 0
memory_of (some u) = to_int (pos (u.maxrss * 1024))

-- `used >= limit && limit != 0`
unfoldable pub over : ℤ → ℤ → Bool
over used limit = not (ltb_ℤ used limit) && not (limit ==ℤ pos 0)

pub is_time_signal : ℕ → Bool
is_time_signal sig = sig == sigxcpu || sig == sigalrm || sig == sigvtalrm || sig == sigprof

-- The `result` that the status of the child gives.
status_result : WaitStatus → ℤ → ℤ → ℤ
unfolding is_time_signal
status_result (exited code) time_used time_limit = run_ok
status_result (signaled sig) time_used time_limit =
    if is_time_signal sig
    then (if over time_used time_limit then run_timeout else run_realtimeout)
    else if sig == sigxfsz
    then run_output_limit
    else run_abnormal_exit
status_result other time_used time_limit = run_failed

status_exit_code : WaitStatus → ℤ
status_exit_code (exited code) = pos code
status_exit_code _ = pos 0

-- What the parent does when the child has ended: lines 164 to 203.
unfoldable pub classify : ℤ → ℤ → Option Usage → WaitStatus → Results
unfolding time_of memory_of status_result status_exit_code
classify time_limit memory_limit usage status =
    let time_used = time_of usage in
    let memory_used = memory_of usage in
    let from_status = status_result status time_used time_limit in
    record {
      result =
          if over time_used time_limit
          then run_timeout
          else if over memory_used memory_limit
          then run_out_of_memory
          else from_status;
      exit_code = status_exit_code status;
      memory_used = memory_used;
      time_used = time_used;
    }

-- One round of the loop in which the child still runs: the usage, and the seconds of the clock.
pub record Poll : Type 0 where
  pub usage : Option Usage
  pub now : ℕ

-- The seconds of real time that a run may take: `max(time_limit / 100, 30)`.
abbrev pub real_seconds : ℤ → ℕ
real_seconds time_limit = max (pos_part time_limit / 100) 30

pub real_time_over : ℤ → ℕ → Poll → Bool
real_time_over time_limit start p =
    leb (start + real_seconds time_limit) p.now && not (time_limit ==ℤ pos 0)

-- The parent: the polls in which the child still runs, then what it ended with. If the real time is
-- over first, the child is killed.
unfoldable pub watch : ℤ → ℤ → ℕ → List Poll → Option Usage → WaitStatus → Results
unfolding real_time_over time_of classify
watch time_limit memory_limit start [] usage status = classify time_limit memory_limit usage status
watch time_limit memory_limit start (p ∷ polls) usage status =
    let rest = watch time_limit memory_limit start polls usage status in
    if real_time_over time_limit start p
    then record initial { result = run_realtimeout; exit_code = pos 0; time_used = time_of p.usage }
    else rest

-- `writeResults`: "%d %d %d %d\n"
unfoldable pub write_results : Results → Bytes
write_results r =
    i2s r.result
    ++ (b' '
        ∷ (i2s r.exit_code
            ++ (b' ' ∷ (i2s r.memory_used ++ (b' ' ∷ (i2s r.time_used ++ b'\n' ∷ []))))))
