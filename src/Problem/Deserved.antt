-- ===== src/Problem/Deserved.antt =====
-- The server and the launcher together: what `run_limited` and the ladder of `run_test` make of a run
-- that the launcher has watched.
use bacs_legacy.Base.{
  ℕ, zero, suc, ◌≡◌, ◌≢◌, refl, sym, ap, subst, ◌∙◌, ◌==◌, Bool, true, false, ◌&&◌, Option, none,
  some, List, [], ◌∷◌, Bytes, codes, ℤ, pos, ◌==ℤ◌, if◌then◌else◌, All, if_cases, Bool-cases, inl,
  inr, arith,
}
use bacs_legacy.Util.Format.{c_str}
use bacs_legacy.Def.{
  Status, server_error, time_limit, memory_limit, realtime_limit, output_limit, runtime_error,
  run_ok,
}
use bacs_legacy.Process.{WaitStatus, exited, signaled, other, succeeded}
use bacs_legacy.System.{Os, Server, returned}
use bacs_legacy.Config.{Settings, cfg}
use bacs_legacy.LimitRun.{
  Results, Usage, Poll, over, time_of, memory_of, sigxfsz, classify, watch, real_time_over,
  write_results,
}
use bacs_legacy.LimitRun.Verdict.{
  TimeOver, MemoryOver, IsWithin, IsTimeSignal, over-cases, is_time_signal-cases, FitsInt,
  IsExitCode, classify-FitsInt, time_of-IsInt,
}
use bacs_legacy.LimitRun.Watch.{InTime, InTime-cases}
use bacs_legacy.Run.{Vars, run_command, run_limited}
use bacs_legacy.Run.ResultFile.{scan_results-write_results}
use bacs_legacy.Problem.{solution_status}

-- What `run_test` does with a run: `none` where the checker judges the output, else whether the test
-- counts as done, and the status.
abbrev pub judged : ℤ → ℤ → Option (Bool × Status)
judged res ex = if res ==ℤ run_ok && ex ==ℤ pos 0 then none else some (solution_status res ex)

module _ (tl ml : ℤ) (start : ℕ) (polls : List Poll) (usage : Option Usage)
    (status : WaitStatus) where
  -- The run was not killed for its real time.
  abbrev pub WasInTime : Type 0
  WasInTime = All (InTime tl ml start usage status) polls

  -- What a run deserves, by what has happened to it.
  pub data Deserves : Option (Bool × Status) → Type 0 where
    too_long : ¬ WasInTime → Deserves (some (true, realtime_limit))
    too_slow : WasInTime → TimeOver tl usage → Deserves (some (true, time_limit))
    too_large :
        WasInTime → ¬ TimeOver tl usage → MemoryOver ml usage → Deserves (some (true, memory_limit))
    ended_well : WasInTime → IsWithin tl ml usage → status ≡ exited 0 → Deserves none
    ended_ill :
        (code : ℕ)
        → WasInTime
        → IsWithin tl ml usage
        → status ≡ exited code
        → code ≢ 0
        → Deserves (some (true, runtime_error))
    out_of_time :
        (sig : ℕ)
        → WasInTime
        → IsWithin tl ml usage
        → status ≡ signaled sig
        → IsTimeSignal sig
        → Deserves (some (true, realtime_limit))
    wrote_too_much :
        WasInTime
        → IsWithin tl ml usage
        → status ≡ signaled sigxfsz
        → Deserves (some (true, output_limit))
    was_killed :
        (sig : ℕ)
        → WasInTime
        → IsWithin tl ml usage
        → status ≡ signaled sig
        → ¬ IsTimeSignal sig
        → sig ≢ sigxfsz
        → Deserves (some (true, runtime_error))
    was_lost :
        WasInTime → IsWithin tl ml usage → status ≡ other → Deserves (some (false, server_error))

  abbrev DeservesRun : Results → Type 0
  DeservesRun r = Deserves (judged r.result r.exit_code)

  -- A run within its limits, by how it ended.
  within-Deserves :
      (st : WaitStatus)
      → status ≡ st
      → WasInTime
      → IsWithin tl ml usage
      → over (time_of usage) tl ≡ false
      → over (memory_of usage) ml ≡ false
      → DeservesRun (classify tl ml usage st)
  unfolding classify solution_status
  within-Deserves (exited zero) s w i t m = rw (t, m) (ended_well w i s)
  within-Deserves (exited (suc code)) s w i t m =
      let r = classify tl ml usage (exited (suc code)) in
      let e : judged r.result r.exit_code ≡ some (true, runtime_error) = ground arith in
      subst Deserves (sym e) (ended_ill (suc code) w i s (λ k. absurd (omega arith)))
  within-Deserves (signaled sig) s w i t m =
      let r = classify tl ml usage (signaled sig) in
      elim (is_time_signal-cases sig) [
        | inl (is, k) ↦
            let e : judged r.result r.exit_code ≡ some (true, realtime_limit) = ground arith in
            subst Deserves (sym e) (out_of_time sig w i s is)
        | inr (not_so, k) ↦ elim (Bool-cases (sig == sigxfsz)) [
          | inl x ↦
              let e : judged r.result r.exit_code ≡ some (true, output_limit) = ground arith in
              let same : sig ≡ sigxfsz = ground arith in
              subst Deserves (sym e) (wrote_too_much w i (s ∙ ap (λ n. signaled n) same))
          | inr x ↦
              let e : judged r.result r.exit_code ≡ some (true, runtime_error) = ground arith in
              subst Deserves (sym e) (was_killed sig w i s not_so (λ same. absurd (ground arith)))
        ]
      ]
  within-Deserves other s w i t m = rw (t, m) (was_lost w i s)

  classify-Deserves : WasInTime → DeservesRun (classify tl ml usage status)
  unfolding classify solution_status
  classify-Deserves w = elim (over-cases (time_of usage) tl) [
    | inl (r, t) ↦ rw t (too_slow w r)
    | inr (n, t) ↦ elim (over-cases (memory_of usage) ml) [
      | inl (r, m) ↦ rw (t, m) (too_large w n r)
      | inr (k, m) ↦ within-Deserves status refl w (n, k) t m
    ]
  ]

module _ (tl ml : ℤ) (start : ℕ) (usage : Option Usage) (status : WaitStatus) where
  -- What a run has earned, by its later polls, it has earned with one more that found it in time.
  one_more :
      (p : Poll) (polls : List Poll) (v : Option (Bool × Status))
      → InTime tl ml start usage status p
      → Deserves tl ml start polls usage status v
      → Deserves tl ml start (p ∷ polls) usage status v
  one_more p polls _ t (too_long w) = too_long (λ h. w h.1)
  one_more p polls _ t (too_slow w o) = too_slow (t, w) o
  one_more p polls _ t (too_large w n o) = too_large (t, w) n o
  one_more p polls _ t (ended_well w i s) = ended_well (t, w) i s
  one_more p polls _ t (ended_ill code w i s n) = ended_ill code (t, w) i s n
  one_more p polls _ t (out_of_time sig w i s k) = out_of_time sig (t, w) i s k
  one_more p polls _ t (wrote_too_much w i s) = wrote_too_much (t, w) i s
  one_more p polls _ t (was_killed sig w i s k n) = was_killed sig (t, w) i s k n
  one_more p polls _ t (was_lost w i s) = was_lost (t, w) i s

  watch-Deserves :
      (polls : List Poll)
      → DeservesRun tl ml start polls usage status (watch tl ml start polls usage status)
  unfolding watch solution_status
  watch-Deserves [] = classify-Deserves tl ml start [] usage status tt
  watch-Deserves (p ∷ polls) =
      let rest = watch tl ml start polls usage status in
      elim (InTime-cases tl ml start usage status p) [
        | inl (t, e) ↦
            rw e (one_more p polls (judged rest.result rest.exit_code) t (watch-Deserves polls))
        | inr (t, e) ↦ rw e (too_long (λ w. t w.0))
      ]

  watch-FitsInt :
      (polls : List Poll) → IsExitCode status → FitsInt (watch tl ml start polls usage status)
  unfolding watch
  watch-FitsInt [] h = classify-FitsInt tl ml usage status h
  watch-FitsInt (p ∷ polls) h =
      if_cases FitsInt (real_time_over tl start p) _ _
        (λ _. record {
          result_fits = omega arith;
          exit_code_fits = omega arith;
          memory_fits = omega arith;
          time_fits = time_of-IsInt p.usage;
        })
        (λ _. watch-FitsInt polls h)

module _ (os : Os) (c : Settings) where
  -- What the launcher has done to the world: it ends well, and its result file has the line of the
  -- results.
  pub record Launched (command : Bytes) (w : os.World) (r : Results) : Type 0 where
    pub ends_well : succeeded (os.system command w).0 ≡ true
    pub writes :
        os.read_file (cfg c (codes "general.limit_run_result_file")) (os.system command w).1
        ≡ some (write_results r)

  -- `run_limited` hands on what the launcher has written.
  run_limited-Launched :
      (cmd fn_in fn_out : Bytes) (tl ml : ℤ) (redirect_stderr : Bool) (vars : Vars) (s : Server os)
      (r : Results)
      → Launched (c_str (run_command os c cmd fn_in fn_out tl ml redirect_stderr)) s.world r
      → FitsInt r
      → (run_limited os c cmd fn_in fn_out tl ml redirect_stderr vars s).0
        ≡ returned (
          r.result,
          record { ex_code = r.exit_code; memory_used = r.memory_used; time_used = r.time_used },
        )
  unfolding run_limited
  run_limited-Launched cmd fn_in fn_out tl ml redirect_stderr vars s r launched fits =
      let read =
        scan_results-write_results r vars.memory_used vars.time_used fits.result_fits
          fits.exit_code_fits fits.memory_fits fits.time_fits in
      rw (launched.ends_well, launched.writes, read) refl

  -- What the server makes of a run is what the run deserves: for a run that the launcher watched, and
  -- whose results it wrote into its file, `run_limited` returns, and with what it returns the ladder of
  -- `run_test` gives the status that is due to what has happened to the run; the checker judges the
  -- output exactly of a run that ended with the exit code 0, in time and within its limits. The
  -- launcher itself ends well, and its child's exit code is below 256.
  pub run_limited-Deserves :
      (cmd fn_in fn_out : Bytes) (tl ml : ℤ) (redirect_stderr : Bool) (vars : Vars) (s : Server os)
      (start : ℕ) (polls : List Poll) (usage : Option Usage) (status : WaitStatus)
      → IsExitCode status
      → Launched
          (c_str (run_command os c cmd fn_in fn_out tl ml redirect_stderr))
          s.world
          (watch tl ml start polls usage status)
      → (res : ℤ) × (vars' : Vars) × ((run_limited os c cmd fn_in fn_out tl ml redirect_stderr vars
            s).0
          ≡ returned (res, vars'))
        × Deserves tl ml start polls usage status (judged res vars'.ex_code)
  run_limited-Deserves cmd fn_in fn_out tl ml redirect_stderr vars s start polls usage status code
        launched =
      let r = watch tl ml start polls usage status in
      (
        r.result,
        record { ex_code = r.exit_code; memory_used = r.memory_used; time_used = r.time_used },
        run_limited-Launched cmd fn_in fn_out tl ml redirect_stderr vars s r launched
            (watch-FitsInt tl ml start usage status polls code),
        watch-Deserves tl ml start usage status polls,
      )
