-- ===== src/Problem.antt =====
-- `CProblem` of src/lib/problem.cpp: the data of a problem, and the verdict on one test. The
-- modules below have the loop over the tests and the preparation.
pub mod Checker
pub mod Judge
pub mod RunTests
pub mod Init
pub mod Stopped
pub mod Deserved
pub mod Owned
use bacs_legacy.Base.{
  ℕ, Bool, true, false, not, ◌&&◌, ◌||◌, Option, none, some, List, [], ◌∷◌, ◌++◌, Bytes, codes, ℤ,
  pos, ◌==ℤ◌, ◌=ₛ◌, if◌then◌else◌,
}
use bacs_legacy.Util.Format.{c_str, format}
use bacs_legacy.Util.Number.{i2s}
use bacs_legacy.Def.{
  Status, accepted, server_error, time_limit, memory_limit, realtime_limit, output_limit,
  runtime_error, checker_error, run_ok, run_failed, run_timeout, run_out_of_memory,
  run_abnormal_exit, run_realtimeout, run_output_limit,
}
use bacs_legacy.Double.{Double}
use bacs_legacy.System.{Os, M, ◌>>=◌, ◌>>◌, pure, throwing, log_error}
use bacs_legacy.Config.{Settings, CfgEngine, cfgi}
use bacs_legacy.TestFile.{TestFile}
use bacs_legacy.TempFile.{assign, read, erase}
use bacs_legacy.Run.{Vars, run}
use bacs_legacy.Run.Fio.{Fio, run_fio}
use Checker.{get_checker_result, is_checker_error}

module _ (d : Double) where
  pub record Problem : Type 0 where
    pub fatal_error : Bool
    pub is_tests_init : Bool
    pub time_limit_s : d.Carrier
    pub memory_limit_mib : d.Carrier
    pub id : Bytes
    pub input_fn : Bytes
    pub output_fn : Bytes
    pub tests : List TestFile
    pub checker : Bytes
    pub checker_return : Bytes
    pub cf : CfgEngine

  -- What `run_test` sets: its parameters by reference, and the text behind `info`, if the pointer is
  -- not null.
  pub record TestResult : Type 0 where
    pub result : Status
    pub time_used : d.Carrier
    pub memory_used : d.Carrier
    pub info : Option Bytes

-- The results of `run` behind which the checker has not worked.
abbrev pub checker_failed : ℤ → Bool
checker_failed res = res ==ℤ run_failed || res ==ℤ run_abnormal_exit

-- The status for a run that did not end well, and whether the test counts as done: the ladder of
-- lines 324 to 344.
pub solution_status : ℤ → ℤ → Bool × Status
solution_status res ex =
    if res ==ℤ run_failed
    then (false, server_error)
    else if res ==ℤ run_timeout
    then (true, time_limit)
    else if res ==ℤ run_out_of_memory
    then (true, memory_limit)
    else if res ==ℤ run_realtimeout
    then (true, realtime_limit)
    else if res ==ℤ run_output_limit
    then (true, output_limit)
    else if res ==ℤ run_abnormal_exit || (res ==ℤ run_ok && not (ex ==ℤ pos 0))
    then (true, runtime_error)
    else (false, server_error)

module _ (os : Os) (d : Double) (c : Settings) where
  -- `if (tt.verbose) boost::filesystem::copy_file(from, *tt.verbose / name);`
  unfoldable pub verbose_copy : Option Bytes → Bytes → Bytes → M os (Unit {0})
  verbose_copy none from name = pure tt
  verbose_copy (some dir) from name = throwing (os.copy_file from (dir ++ (codes "/" ++ name)))

  -- Writing a text to a file of the protocol: a failure is an exception.
  unfoldable pub verbose_write : Option Bytes → Bytes → Bytes → M os (Unit {0})
  verbose_write none name text = pure tt
  verbose_write (some dir) name text = throwing (os.write_file (dir ++ (codes "/" ++ name)) text)

  out_or_null : Option Bytes → Bytes
  out_or_null none = codes "/dev/null"
  out_or_null (some fn) = fn

  checker_command : Problem d → TestFile → Bytes → Bytes
  unfolding out_or_null
  checker_command p t file_out = format (
      c_str p.checker
      ++ (codes " "
          ++ (c_str t.file_in
              ++ (codes " " ++ (c_str file_out ++ (codes " " ++ c_str (out_or_null t.file_out)))))))

  pub add_output : Option Bytes → Bytes → Option Bytes
  add_output none out = none
  add_output (some info) out =
      some (if out =ₛ [] then info else info ++ (codes "\n === CHECKER OUTPUT ===\n" ++ out))

  read_info : Option Bytes → Bytes → M os (Option Bytes)
  read_info none file_out = pure none
  read_info (some old) file_out = do
    text ← read os (assign file_out) (cfgi c (codes "general.max_info_size"))
    pure (some text)

  -- The status that the checker's exit code `ex` gave.
  conclude : ℤ → Bytes → Option Bytes → Status → M os (Bool × Status × Option Bytes)
  unfolding add_output is_checker_error
  conclude ex out info result =
      if is_checker_error result
      then (do
        log_error (codes "Error: checker has returned unexpected result!")
            ((codes "Result code", i2s ex) ∷ [])
        pure (false, result, add_output info out))
      else pure (true, result, add_output info out)

  -- The branch for a checker that has worked.
  read_exit : Problem d → TestFile → ℤ → Bytes → Option Bytes → M os (Bool × Status × Option Bytes)
  unfolding verbose_write get_checker_result conclude
  read_exit p t ex out info = do
    verbose_write t.verbose (codes "checker_output") out
    result ← get_checker_result os p.checker_return ex
    conclude ex out info result

  -- After a run of the checker with the result `res`, the exit code `ex` and the output `out`: whether
  -- the test counts as done, the status and the text of `info`.
  unfoldable pub after_checker :
      Problem d
      → TestFile
      → Bytes
      → ℤ
      → ℤ
      → Bytes
      → Option Bytes
      → M os (Bool × Status × Option Bytes)
  unfolding read_exit
  after_checker p t checker_cmd res ex out info =
      if checker_failed res
      then (do
        log_error (codes "Error: cannot run checker!") ((codes "Run command", checker_cmd) ∷ [])
        pure (false, checker_error, info))
      else if res ==ℤ run_timeout
      then (do
        log_error (codes "Error: checker timed out!")
            ((codes "Run command", checker_cmd) ∷ (codes "Checker output", out) ∷ [])
        pure (false, checker_error, info))
      else read_exit p t ex out info

  -- The branch for a run that ended well.
  judge_output :
      Problem d → TestFile → Fio → Vars → Option Bytes → M os (Bool × Status × Option Bytes)
  unfolding checker_command read_info after_checker run
  judge_output p t fio dummies info = do
    info' ← read_info info fio.file_out
    let checker_cmd = checker_command p t fio.file_out
    (res, out, vars) ←
        run os c checker_cmd true [] [] c.checker_timeout (pos 0) true
          (record dummies { ex_code = fio.vars.ex_code })
    after_checker p t checker_cmd res vars.ex_code out info'

  -- The ladder, with its log entries.
  judge_failure : Bytes → Fio → Option Bytes → M os (Bool × Status × Option Bytes)
  unfolding solution_status
  judge_failure run_cmd fio info =
      let (ok, status) = solution_status fio.result fio.vars.ex_code in
      if ok
      then pure (true, status, info)
      else if fio.result ==ℤ run_failed
      then (do
        log_error (codes "Error: cannot run solution!") ((codes "Run command", run_cmd) ∷ [])
        pure (false, status, info))
      else (do
        log_error (codes "Error: unexpected run() result!") ((codes "Result", i2s fio.result) ∷ [])
        pure (false, status, info))

  -- The verdict, when the solution has run.
  unfoldable pub judge :
      Problem d → TestFile → Bytes → Fio → Vars → Option Bytes → M os (Bool × Status × Option Bytes)
  unfolding judge_output judge_failure
  judge p t run_cmd fio dummies info =
      if fio.result ==ℤ run_ok && fio.vars.ex_code ==ℤ pos 0
      then judge_output p t fio dummies info
      else judge_failure run_cmd fio info

  -- What `run_test` sets, and the destructor of `s_out`.
  settle : Fio → Bool × Status × Option Bytes → M os (Bool × TestResult d)
  settle fio (ok, status, info) = do
    erase os (assign fio.file_out)
    pure (
      ok,
      record {
        result = status;
        time_used = d.of_ms fio.vars.time_used;
        memory_used = d.of_bytes fio.vars.memory_used;
        info = info;
      },
    )

  -- `run_test` behind the run of the solution.
  finish_test :
      Problem d → TestFile → Bytes → Vars → Option Bytes → Fio → M os (Bool × TestResult d)
  finish_test p t run_cmd dummies info fio = do
    verbose_copy t.verbose fio.file_out (codes "output")
    judged ← judge p t run_cmd fio dummies info
    settle fio judged

  -- `run_test`. The variables that are not set before the calls are the arguments `unset` and
  -- `dummies`.
  unfoldable pub run_test :
      Problem d → TestFile → Bytes → Vars → Vars → Option Bytes → M os (Bool × TestResult d)
  unfolding finish_test settle
  run_test p t run_cmd unset dummies info = do
    fio ←
        run_fio os c run_cmd t.file_in [] (d.to_ms p.time_limit_s) (d.to_bytes p.memory_limit_mib)
          p.input_fn p.output_fn unset
    finish_test p t run_cmd dummies info fio

  -- `set_no_memory_limit`
  unfoldable pub set_no_memory_limit : Problem d → Problem d
  set_no_memory_limit p = record p { memory_limit_mib = d.zero_value }
