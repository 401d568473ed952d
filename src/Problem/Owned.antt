-- ===== src/Problem/Owned.antt =====
-- `run_test` of src/lib/problem.cpp leaves no temporary file behind.
use bacs_legacy.Base.{
  ◌≢◌, ◌&&◌, Bool, true, Option, none, some, [], ◌∷◌, ◌++◌, Bytes, codes, ℤ, pos, ◌==ℤ◌, arith,
}
use bacs_legacy.Def.{Status, run_ok, run_failed, run_timeout}
use bacs_legacy.Double.{Double}
use bacs_legacy.System.{Os, M, ◌>>=◌, pure}
use bacs_legacy.System.Triples.{
  View, Triple, bind-Triple, bind-Keeps, if-Keeps, Option-Keeps, throwing-Keeps,
}
use bacs_legacy.Config.{Settings, cfgi}
use bacs_legacy.TestFile.{TestFile}
use bacs_legacy.TempFile.{assign, read, erase}
use bacs_legacy.System.Facts.{Fact, Stable, Quiet, Elsewhere}
use bacs_legacy.TempFile.Trace.{last}
use bacs_legacy.TempFile.Owned.{Owned, Owned-framed, erase-holds, read-Quiet}
use bacs_legacy.Run.{Vars, run}
use bacs_legacy.Run.Owned.{run-Quiet}
use bacs_legacy.Run.Fio.{Fio, run_fio}
use bacs_legacy.Run.Fio.Steps.{Apart}
use bacs_legacy.Run.Fio.Owned.{run_fio-Owned}
use bacs_legacy.Problem.Checker.{get_checker_result, status_of_exit, is_checker_error}
use bacs_legacy.Problem.{
  Problem, verbose_copy, verbose_write, checker_command, checker_failed, read_info, conclude,
  read_exit, after_checker, judge_output, judge_failure, solution_status, judge, settle,
  finish_test, run_test,
}

module _ (os : Os) (d : Double) (c : Settings) (x : Fact os) (stable : Stable os x)
    (elsewhere : Elsewhere os x last) where
  pub verbose_copy-Quiet :
      (dir : Option Bytes) (from name : Bytes)
      → last (b'/' ∷ name) ≢ b'p'
      → Quiet os x (verbose_copy os d c dir from name)
  unfolding verbose_copy
  verbose_copy-Quiet none from name n = λ s p. p
  verbose_copy-Quiet (some dir) from name n =
      let to = dir ++ (codes "/" ++ name) in
      throwing-Keeps os x.holds (os.copy_file from to)
        (stable.copy_kept from to (elsewhere dir name n))

  pub verbose_write-Quiet :
      (dir : Option Bytes) (name text : Bytes)
      → last (b'/' ∷ name) ≢ b'p'
      → Quiet os x (verbose_write os d c dir name text)
  unfolding verbose_write
  verbose_write-Quiet none name text n = λ s p. p
  verbose_write-Quiet (some dir) name text n =
      let to = dir ++ (codes "/" ++ name) in
      throwing-Keeps os x.holds (os.write_file to text)
        (stable.write_kept to text (elsewhere dir name n))

  get_checker_result-Quiet :
      (checker_return : Bytes) (ex : ℤ) → Quiet os x (get_checker_result os checker_return ex)
  unfolding get_checker_result
  get_checker_result-Quiet checker_return ex =
      Option-Keeps os {A = Status} x.holds (status_of_exit checker_return ex) _ pure (λ s p. p)
        (λ b s p. p)

  read_exit-Quiet :
      (p : Problem d) (t : TestFile) (ex : ℤ) (out : Bytes) (info : Option Bytes)
      → Quiet os x (read_exit os d c p t ex out info)
  unfolding read_exit conclude last
  read_exit-Quiet p t ex out info =
      let Result : Type 0 = Bool × Status × Option Bytes in
      let exit = get_checker_result os p.checker_return ex in
      bind-Keeps os x.holds (verbose_write os d c t.verbose (codes "checker_output") out)
        (λ _. exit >>= conclude os d c ex out info)
        (verbose_write-Quiet t.verbose (codes "checker_output") out (ground arith))
        (λ _.
          bind-Keeps os x.holds exit (conclude os d c ex out info)
            (get_checker_result-Quiet p.checker_return ex)
            (λ r. if-Keeps os {A = Result} x.holds (is_checker_error r) _ _ (λ s p. p) (λ s p. p)))

  after_checker-Quiet :
      (p : Problem d) (t : TestFile) (cmd : Bytes) (res ex : ℤ) (out : Bytes) (info : Option Bytes)
      → Quiet os x (after_checker os d c p t cmd res ex out info)
  unfolding after_checker
  after_checker-Quiet p t cmd res ex out info =
      let Result : Type 0 = Bool × Status × Option Bytes in
      if-Keeps os {A = Result} x.holds (checker_failed res) _ _ (λ s p. p)
        (if-Keeps os {A = Result} x.holds (res ==ℤ run_timeout) _ _ (λ s p. p)
          (read_exit-Quiet p t ex out info))

  read_info-Quiet : (info : Option Bytes) (fn : Bytes) → Quiet os x (read_info os d c info fn)
  unfolding read_info
  read_info-Quiet none fn = λ s p. p
  read_info-Quiet (some old) fn =
      let size = cfgi c (codes "general.max_info_size") in
      bind-Keeps os x.holds (read os (assign fn) size) (λ text. pure (some text))
        (read-Quiet os c x stable (assign fn) size) (λ text s p. p)

  judge_output-Quiet :
      (p : Problem d) (t : TestFile) (fio : Fio) (dummies : Vars) (info : Option Bytes)
      → Quiet os x (judge_output os d c p t fio dummies info)
  unfolding judge_output
  judge_output-Quiet p t fio dummies info =
      let cmd = checker_command os d c p t fio.file_out in
      let vars : Vars = record dummies { ex_code = fio.vars.ex_code } in
      let ran = run os c cmd true [] [] c.checker_timeout (pos 0) true vars in
      let judged : Option Bytes → ℤ × Bytes × Vars → M os (Bool × Status × Option Bytes) =
        λ info' r. after_checker os d c p t cmd r.0 r.2.ex_code r.1 info' in
      bind-Keeps os x.holds (read_info os d c info fio.file_out) (λ info'. ran >>= judged info')
        (read_info-Quiet info fio.file_out)
        (λ info'.
          bind-Keeps os x.holds ran (judged info')
            (run-Quiet os c x stable cmd [] [] c.checker_timeout (pos 0) true vars)
            (λ r. after_checker-Quiet p t cmd r.0 r.2.ex_code r.1 info'))

  judge-Quiet :
      (p : Problem d) (t : TestFile) (run_cmd : Bytes) (fio : Fio) (dummies : Vars)
      (info : Option Bytes)
      → Quiet os x (judge os d c p t run_cmd fio dummies info)
  unfolding judge judge_failure
  judge-Quiet p t run_cmd fio dummies info =
      let Result : Type 0 = Bool × Status × Option Bytes in
      let r = solution_status fio.result fio.vars.ex_code in
      if-Keeps os {A = Result} x.holds (fio.result ==ℤ run_ok && fio.vars.ex_code ==ℤ pos 0) _ _
        (judge_output-Quiet p t fio dummies info)
        (if-Keeps os {A = Result} x.holds r.0 _ _ (λ s p. p)
          (if-Keeps os {A = Result} x.holds (fio.result ==ℤ run_failed) _ _ (λ s p. p) (λ s p. p)))

  settle-Owned :
      (fio : Fio) (r : Bool × Status × Option Bytes)
      → Triple os (Owned os x (assign fio.file_out ∷ [])) (settle os d c fio r) (λ _. x.holds)
  unfolding settle
  settle-Owned fio (ok, status, info) =
      bind-Triple os (Owned os x (assign fio.file_out ∷ [])) (λ _. x.holds) (λ _. x.holds)
        (erase os (assign fio.file_out))
        (λ _. pure (
          ok,
          record {
            result = status;
            time_used = d.of_ms fio.vars.time_used;
            memory_used = d.of_bytes fio.vars.memory_used;
            info = info;
          },
        ))
        (erase-holds os c x stable (assign fio.file_out)) (λ _ s p. p)

  module _ (apart : Apart os c x) where
    -- `run_test` erases the output of the solution, which is all that the runs have left.
    pub run_test-Quiet :
        (p : Problem d) (t : TestFile) (run_cmd : Bytes) (unset dummies : Vars)
        (info : Option Bytes)
        → Quiet os x (run_test os d c p t run_cmd unset dummies info)
    unfolding run_test finish_test last
    run_test-Quiet p t run_cmd unset dummies info =
        let Mine : Fio → View os → Type 0 = λ fio. Owned os x (assign fio.file_out ∷ []) in
        let ran =
          run_fio os c run_cmd t.file_in [] (d.to_ms p.time_limit_s) (d.to_bytes p.memory_limit_mib)
            p.input_fn p.output_fn unset in
        bind-Triple os x.holds Mine (λ _. x.holds) ran (finish_test os d c p t run_cmd dummies info)
          (run_fio-Owned os c x stable apart run_cmd t.file_in [] (d.to_ms p.time_limit_s)
            (d.to_bytes p.memory_limit_mib) p.input_fn p.output_fn unset)
          (λ fio.
            let owners = assign fio.file_out ∷ [] in
            let copied = verbose_copy os d c t.verbose fio.file_out (codes "output") in
            let judged = judge os d c p t run_cmd fio dummies info in
            bind-Triple os (Mine fio) (λ _. Mine fio) (λ _. x.holds) copied
              (λ _. judged >>= settle os d c fio)
              (Owned-framed os x owners copied
                (verbose_copy-Quiet t.verbose fio.file_out (codes "output") (ground arith)))
              (λ _.
                bind-Triple os (Mine fio) (λ _. Mine fio) (λ _. x.holds) judged (settle os d c fio)
                  (Owned-framed os x owners judged (judge-Quiet p t run_cmd fio dummies info))
                  (λ r. settle-Owned fio r)))
