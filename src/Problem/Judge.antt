-- ===== src/Problem/Judge.antt =====
-- Which verdicts `run_test` gives, and when the test counts as done.
use bacs_legacy.Base.{
  ap, if_cases, ◌≡◌, Bool, true, not, ◌&&◌, Option, some, [], Bytes, codes, ℤ, pos, ◌==ℤ◌, arith,
}
use bacs_legacy.Def.{Status, run_ok, run_failed, run_timeout}
use bacs_legacy.Double.{Double}
use bacs_legacy.System.{Os, Server, M, Outcome, returned, ◌>>=◌, pure}
use bacs_legacy.System.Rules.{bind_cases}
use bacs_legacy.Config.{Settings}
use bacs_legacy.TestFile.{TestFile}
use bacs_legacy.Run.{Vars, run}
use bacs_legacy.Run.Fio.{Fio, run_fio}
use bacs_legacy.TempFile.{erase, assign}
use bacs_legacy.Problem.{
  Problem, TestResult, checker_failed, solution_status, settle, finish_test, verbose_copy, conclude,
  read_exit, after_checker, judge, judge_output, judge_failure, run_test, verbose_write, read_info,
  checker_command,
}
use bacs_legacy.Problem.Checker.{get_checker_result, is_checker_error}
use bacs_legacy.Problem.Checker.Outcomes.{test_outcome, IsFromChecker, get_checker_result-done}

-- What is returned fits the status.
abbrev pub DoneIffVerdict : {os : Os} → Outcome (Bool × Status × Option Bytes) × Server os → Type 0
DoneIffVerdict r =
    (ok : Bool) (status : Status) (info : Option Bytes)
    → r.0 ≡ returned (ok, status, info)
    → some ok ≡ test_outcome status

solution_status-done :
    (res ex : ℤ) → some ((solution_status res ex).0) ≡ test_outcome (solution_status res ex).1
unfolding solution_status
solution_status-done res ex = ground arith

module _ (os : Os) (d : Double) (c : Settings) where
  judge_failure-done :
      (run_cmd : Bytes) (fio : Fio) (info : Option Bytes) (s : Server os)
      → DoneIffVerdict (judge_failure os d c run_cmd fio info s)
  unfolding judge_failure
  judge_failure-done run_cmd fio info s =
      let (ok, status) = solution_status fio.result fio.vars.ex_code in
      let e : some ok ≡ test_outcome status = solution_status-done fio.result fio.vars.ex_code in
      if_cases (λ (m : M os (Bool × Status × Option Bytes)). DoneIffVerdict (m s)) ok _ _
        (λ b ok' status' info' h. cc)
        (λ b.
          if_cases (λ (m : M os (Bool × Status × Option Bytes)). DoneIffVerdict (m s))
            (fio.result ==ℤ run_failed) _ _ (λ _ ok' status' info' h. cc)
            (λ _ ok' status' info' h. cc))

  abbrev Judged : Type 0
  Judged = Bool × Status × Option Bytes

  conclude-done :
      (ex : ℤ) (out : Bytes) (info : Option Bytes) (result : Status) (s : Server os)
      → IsFromChecker result
      → DoneIffVerdict (conclude os d c ex out info result s)
  unfolding conclude
  conclude-done ex out info result s v =
      if_cases (λ (m : M os Judged). DoneIffVerdict (m s)) (is_checker_error result) _ _
        (λ b ok' status' info' h. cc (v, ap (λ x. some (not x)) b))
        (λ b ok' status' info' h. cc (v, ap (λ x. some (not x)) b))

  read_exit-done :
      (p : Problem d) (t : TestFile) (ex : ℤ) (out : Bytes) (info : Option Bytes) (s : Server os)
      → DoneIffVerdict (read_exit os d c p t ex out info s)
  unfolding read_exit
  read_exit-done p t ex out info s =
      bind_cases DoneIffVerdict (verbose_write os d c t.verbose (codes "checker_output") out)
        (λ _. get_checker_result os p.checker_return ex >>= conclude os d c ex out info) s
        (λ _ s₁ _.
          bind_cases DoneIffVerdict (get_checker_result os p.checker_return ex)
            (conclude os d c ex out info) s₁
            (λ status s₂ e.
              conclude-done ex out info status s₂
                (get_checker_result-done os p.checker_return ex s₁ s₂ status e))
            (λ s₂ e ok' status' info' h. cc))
        (λ s₁ e ok' status' info' h. cc)

  after_checker-done :
      (p : Problem d) (t : TestFile) (cmd : Bytes) (res ex : ℤ) (out : Bytes) (info : Option Bytes)
      (s : Server os)
      → DoneIffVerdict (after_checker os d c p t cmd res ex out info s)
  unfolding after_checker
  after_checker-done p t cmd res ex out info s =
      if_cases (λ (m : M os Judged). DoneIffVerdict (m s)) (checker_failed res) _ _
        (λ _ ok' status' info' h. cc)
        (λ _.
          if_cases (λ (m : M os Judged). DoneIffVerdict (m s)) (res ==ℤ run_timeout) _ _
            (λ _ ok' status' info' h. cc) (λ _. read_exit-done p t ex out info s))

  judge_output-done :
      (p : Problem d) (t : TestFile) (fio : Fio) (dummies : Vars) (info : Option Bytes)
      (s : Server os)
      → DoneIffVerdict (judge_output os d c p t fio dummies info s)
  unfolding judge_output
  judge_output-done p t fio dummies info s =
      let cmd = checker_command os d c p t fio.file_out in
      let checker : M os (ℤ × Bytes × Vars) =
        run os c cmd true [] [] c.checker_timeout (pos 0) true
          (record dummies { ex_code = fio.vars.ex_code }) in
      bind_cases DoneIffVerdict (read_info os d c info fio.file_out)
        (λ info'. checker >>= λ r. after_checker os d c p t cmd r.0 r.2.ex_code r.1 info') s
        (λ info' s₁ _.
          bind_cases DoneIffVerdict checker
            (λ r. after_checker os d c p t cmd r.0 r.2.ex_code r.1 info') s₁
            (λ r s₂ _. after_checker-done p t cmd r.0 r.2.ex_code r.1 info' s₂)
            (λ s₂ e ok' status' info'' h. cc))
        (λ s₁ e ok' status' info'' h. cc)

  judge-done :
      (p : Problem d) (t : TestFile) (run_cmd : Bytes) (fio : Fio) (dummies : Vars)
      (info : Option Bytes) (s : Server os)
      → DoneIffVerdict (judge os d c p t run_cmd fio dummies info s)
  unfolding judge
  judge-done p t run_cmd fio dummies info s =
      if_cases (λ (m : M os Judged). DoneIffVerdict (m s))
        (fio.result ==ℤ run_ok && fio.vars.ex_code ==ℤ pos 0) _ _
        (λ _. judge_output-done p t fio dummies info s) (λ _. judge_failure-done run_cmd fio info s)

  abbrev TestDone : Outcome (Bool × TestResult d) × Server os → Type 0
  TestDone r =
      (ok : Bool) (out : TestResult d)
      → r.0 ≡ returned (ok, out)
      → some ok ≡ test_outcome out.result

  settle-done :
      (fio : Fio) (j : Judged) (s : Server os)
      → some (j.0) ≡ test_outcome j.1
      → TestDone (settle os d c fio j s)
  unfolding settle
  settle-done fio j s v =
      bind_cases TestDone (erase os (assign fio.file_out))
        (λ _. pure (
          j.0,
          record {
            result = j.1;
            time_used = d.of_ms fio.vars.time_used;
            memory_used = d.of_bytes fio.vars.memory_used;
            info = j.2;
          },
        ))
        s (λ _ s₁ _ ok out h. cc v) (λ s₁ e ok out h. cc)

  finish_test-done :
      (p : Problem d) (t : TestFile) (run_cmd : Bytes) (dummies : Vars) (info : Option Bytes)
      (fio : Fio) (s : Server os)
      → TestDone (finish_test os d c p t run_cmd dummies info fio s)
  unfolding finish_test
  finish_test-done p t run_cmd dummies info fio s =
      bind_cases TestDone (verbose_copy os d c t.verbose fio.file_out (codes "output"))
        (λ _. judge os d c p t run_cmd fio dummies info >>= settle os d c fio) s
        (λ _ s₁ _.
          bind_cases TestDone (judge os d c p t run_cmd fio dummies info) (settle os d c fio) s₁
            (λ j s₂ e. settle-done fio j s₂ (
              judge-done p t run_cmd fio dummies info s₁ j.0 j.1 j.2
                (ap (λ (r : Outcome Judged × Server os). r.0) e)))
            (λ s₂ e ok out h. cc))
        (λ s₁ e ok out h. cc)

  -- Where `run_test` returns true it has set one of the eight verdicts on the solution, and where it
  -- returns false it has set an error of the server or of the checker: on every branch, whatever the
  -- system does and whatever the variables hold that are not set.
  pub run_test-done :
      (p : Problem d) (t : TestFile) (run_cmd : Bytes) (unset dummies : Vars) (info : Option Bytes)
      (s : Server os) (ok : Bool) (out : TestResult d)
      → (run_test os d c p t run_cmd unset dummies info s).0 ≡ returned (ok, out)
      → some ok ≡ test_outcome out.result
  unfolding run_test
  run_test-done p t run_cmd unset dummies info s =
      bind_cases TestDone
        (run_fio os c run_cmd t.file_in [] (d.to_ms p.time_limit_s) (d.to_bytes p.memory_limit_mib)
          p.input_fn p.output_fn unset)
        (finish_test os d c p t run_cmd dummies info) s
        (λ fio s₁ _. finish_test-done p t run_cmd dummies info fio s₁) (λ s₁ e ok out h. cc)
