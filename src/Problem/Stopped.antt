-- ===== src/Problem/Stopped.antt =====
-- A checker that the launcher has stopped.
use bacs_legacy.Base.{ℕ, ◌≡◌, ◌⊎◌, true, Option, none, Bytes, codes, ℤ, pos, arith}
use bacs_legacy.Def.{accepted, run_realtimeout, run_output_limit, run_out_of_memory}
use bacs_legacy.Process.{signaled}
use bacs_legacy.LimitRun.{Usage, classify}
use bacs_legacy.Double.{Double}
use bacs_legacy.System.{Os, Server, returned}
use bacs_legacy.Config.{Settings}
use bacs_legacy.TestFile.{TestFile}
use bacs_legacy.Problem.{Problem, after_checker, add_output}

abbrev pub IsKnownChecker : Bytes → Type 0
IsKnownChecker kind =
    (kind ≡ codes "bacs_legacy")
    ⊎ (kind ≡ codes "ejudge")
    ⊎ (kind ≡ codes "testlib")
    ⊎ (kind ≡ codes "none")

abbrev pub IsStopped : ℤ → Type 0
IsStopped res = (res ≡ run_realtimeout) ⊎ (res ≡ run_output_limit) ⊎ (res ≡ run_out_of_memory)

module _ (os : Os) (d : Double) (c : Settings) where
  stopped_accepted :
      (p : Problem d) (t : TestFile) (cmd : Bytes) (res : ℤ) (out : Bytes) (info : Option Bytes)
      (s : Server os)
      → IsStopped res
      → IsKnownChecker p.checker_return
      → t.verbose ≡ none
      → after_checker os d c p t cmd res (pos 0) out info s
        ≡ (returned (true, accepted, add_output os d c info out), s)
  unfolding after_checker
  stopped_accepted p t cmd res out info s stopped known quiet = ground arith

  -- A checker of a known kind that a signal has ended, with a result for the real time, the output or
  -- the memory, makes the test accepted when no protocol is kept: the launcher writes the exit code 0
  -- for it, and the server looks at nothing else.
  pub after_checker_stopped :
      (p : Problem d) (t : TestFile) (cmd : Bytes) (time_limit memory_limit : ℤ)
      (usage : Option Usage) (sig : ℕ) (out : Bytes) (info : Option Bytes) (s : Server os)
      → IsStopped (classify time_limit memory_limit usage (signaled sig)).result
      → IsKnownChecker p.checker_return
      → t.verbose ≡ none
      → after_checker os d c p t cmd
          (classify time_limit memory_limit usage (signaled sig)).result
          (classify time_limit memory_limit usage (signaled sig)).exit_code
          out
          info
          s
        ≡ (returned (true, accepted, add_output os d c info out), s)
  unfolding classify
  after_checker_stopped p t cmd time_limit memory_limit usage sig out info s =
      stopped_accepted p t cmd (classify time_limit memory_limit usage (signaled sig)).result out
        info s
