-- ===== src/Submit.antt =====
-- `CSubmit` of src/lib/submit.cpp: one submission, from the database to its verdict.

pub mod Compiling
pub mod Ends
pub mod Always
pub mod Final
pub mod Source
pub mod Concluded
pub mod Owned
pub mod Gone
pub mod Asked
pub mod Stores
pub mod Tested
use bacs_legacy.Base.{
  ℕ, Bool, true, false, not, Option, none, some, List, [], ◌∷◌, ◌++◌, Bytes, codes, ℤ, pos, negsuc,
  ◌==ℤ◌, ltb_ℤ, ltb, ◌=ₛ◌, if◌then◌else◌, take, length,
}
use bacs_legacy.Util.{str_lowercase}
use bacs_legacy.Util.Format.{c_str, format}
use bacs_legacy.Util.Number.{i2s}
use bacs_legacy.Def.{
  Status, status_code, server_error, compile_error, compile_time_limit, security_violation,
  invalid_lang, invalid_problem, CompileResult, compile_ok, failed_to_compile, compile_failed,
  out_of_time, run_ok,
}
use bacs_legacy.Def.Names.{status_text}
use bacs_legacy.Double.{Double}
use bacs_legacy.System.{Os, M, ◌>>=◌, ◌>>◌, pure, crash, log_add}
use bacs_legacy.Config.{Settings, lcfg, lcfgi}
use bacs_legacy.TempFile.{TempFile, unused, create, erase}
use bacs_legacy.Run.{Vars, run}
use bacs_legacy.Compile.{lang_str, compile_source}
use bacs_legacy.Database.{db_qres, db_query}
use bacs_legacy.Ping.{ping, submit_result}
use bacs_legacy.Submission.{Submission, new_submit, store_result}
use bacs_legacy.Problem.{Problem, set_no_memory_limit}
use bacs_legacy.Problem.Init.{init, destroy}
use bacs_legacy.Problem.RunTests.{Progress, run_tests}

-- The `switch` on the result of `compile_source`: the status, and whether `info` is wanted.
unfoldable pub compile_status : CompileResult → Bool → Status × Bool
compile_status failed_to_compile need_info = (compile_error, true)
compile_status out_of_time need_info = (compile_time_limit, true)
compile_status _ need_info = (server_error, need_info)

abbrev pub is_compiled : CompileResult → Bool
is_compiled compile_ok = true
is_compiled _ = false

module _ (os : Os) (d : Double) (c : Settings) where
  -- `compile` behind `src_file.create`.
  compile_file : Submission d → Vars → M os (Bool × Submission d)
  unfolding compile_status
  compile_file s unset = do
    r ← compile_source os c s.src_file.name s.lang s.run_file s.run_cmd s.info unset
    let s₁ = record s { run_file = r.run_file; run_cmd = r.run_cmd; info = r.error_log }
    if is_compiled r.result then pure (true, s₁) else do
      (erased, src_file) ← erase os s.src_file
      let (status, need_info) = compile_status r.result s.need_info
      pure (false, record s₁ { src_file = src_file; status = status; need_info = need_info })

  -- `security_check`
  unfoldable pub security_check : Submission d → Bool
  security_check s = true

  unfoldable pub compile : Submission d → Vars → M os (Bool × Submission d)
  unfolding compile_file security_check
  compile s unset =
      if not (security_check s)
      then pure (false, record s { status = security_violation })
      else if lcfg c (str_lowercase s.lang ++ codes ".name") =ₛ []
      then (do
        log_add (codes "Error: unknown language!") ((codes "Language ID", s.lang) ∷ [])
        pure (false, record s { status = invalid_lang }))
      else do
        (made, src_file) ← create os c s.src_file s.solution
        if made then compile_file (record s { src_file = src_file }) unset else (do
          log_add (codes "Error: cannot create source file!") []
          pure (false, record s { src_file = src_file; status = server_error }))

  abbrev wanted_info : Submission d → Option Bytes
  wanted_info s = if s.need_info then some s.info else none

  abbrev info_or : Bytes → Option Bytes → Bytes
  info_or old none = old
  info_or old (some info) = info

  -- What `test` takes over from `run_tests`.
  abbrev with_progress : Submission d → Problem d → Progress d → Submission d
  with_progress s p pr = record s {
    status = pr.result;
    max_time = pr.max_time;
    max_memory = pr.max_memory;
    test_num_failed = pr.test_num_failed;
    test_results = pr.test_results;
    info = info_or s.info pr.info;
    fatal_error = if p.fatal_error then true else s.fatal_error;
  }

  without_limit : Submission d → Problem d → Problem d
  unfolding set_no_memory_limit
  without_limit s p =
      if lcfgi c (str_lowercase s.lang ++ codes ".no_memory_limit") ==ℤ pos 0
      then p
      else set_no_memory_limit os d c p

  -- `test` behind the preparation of the problem, and the problem's destructor.
  test_problem : Submission d → Vars → Vars → Bool × Problem d → M os (Bool × Submission d)
  unfolding without_limit
  test_problem s unset dummies (false, p) = do
    log_add (codes "Error initializing problem data!") ((codes "Problem ID", s.pid) ∷ [])
    destroy os d c p
    pure (false, record s { status = invalid_problem })
  test_problem s unset dummies (true, p₀) = do
    let p = without_limit s p₀
    (res, pr) ← run_tests os d c p s.run_cmd server_error (wanted_info s) s.acm unset dummies
    destroy os d c p
    pure (res, with_progress s p pr)

  -- `test`; `p` is the object of the problem as its members stand before the constructor.
  unfoldable pub test : Problem d → Submission d → Vars → Vars → M os (Bool × Submission d)
  unfolding test_problem
  test p s unset dummies = do
    ready ← init os d c (record p { fatal_error = false; tests = [] }) s.pid s.sid
    test_problem s unset dummies ready

  unfoldable pub cleanup : Submission d → Vars → M os Bool
  cleanup s unset = do
    cs ← lang_str os c (codes "clean") s.lang s.src_file.name
    if cs =ₛ [] then pure true else do
      (res, err, vars) ← run os c cs true [] [] c.compiler_timeout (pos 0) true unset
      if res ==ℤ run_ok then pure true else do
        log_add (codes "Error: error in cleanup process!")
            ((codes "Command string", cs) ∷ (codes "Output", err) ∷ [])
        pure false

  abbrev summary : Submission d → List (Bytes × Bytes)
  summary s =
      (codes "Result", status_text s.status)
      ∷ (codes "Failed on test", i2s s.test_num_failed)
      ∷ (codes "Time used", format (d.print_3lf s.max_time))
      ∷ (codes "Memory used", format (d.print_3lf s.max_memory))
      ∷ []

  -- `compile_and_test` from `cleanup` on.
  pub conclude : Submission d → Vars → M os (Bool × Submission d)
  unfolding cleanup store_result
  conclude s unset = do
    cleanup s unset
    (stored, s₁) ← store_result os d c s
    ping os c submit_result s₁.sid (negsuc 0) s₁.pid (status_text s₁.status)
    log_add (format (codes "Finished testing [" ++ (c_str s₁.sid ++ codes "]"))) (summary s₁)
    pure (not s₁.fatal_error, s₁)

  -- The part under `if (compile())`.
  test_compiled : Problem d → Vars → Vars → Bool × Submission d → M os (Submission d)
  unfolding test
  test_compiled p unset dummies (false, s) = pure s
  test_compiled p unset dummies (true, s) = do
    (passed, s₁) ← test p s unset dummies
    (erased, run_file) ← erase os s₁.run_file
    pure (record s₁ { run_file = run_file })

  -- `compile_and_test` behind `compile`.
  tested : Problem d → Vars → Vars → Bool × Submission d → M os (Bool × Submission d)
  unfolding test_compiled conclude
  tested p unset dummies compiled = do
    s₁ ← test_compiled p unset dummies compiled
    conclude s₁ unset

  unfoldable pub compile_and_test :
      Problem d → Submission d → Vars → Vars → M os (Bool × Submission d)
  unfolding compile tested
  compile_and_test p s unset dummies = do
    log_add (format (codes "Testing submission [" ++ (c_str s.sid ++ codes "]"))) []
    if s.not_found
        then (do
          log_add (codes "Error: submission not found!") ((codes "Submission ID", s.sid) ∷ [])
          pure (true, s))
        else do compiled ← compile s unset; tested p unset dummies compiled

  -- `test_submit`, with the destructors of the members.
  unfoldable pub test_submit : Problem d → Bool → Bool → Bytes → Vars → Vars → M os Bool
  unfolding new_submit compile_and_test
  test_submit p acm need_info sid unset dummies = do
    s ← new_submit os d c sid acm need_info
    (fine, s₁) ← compile_and_test p s unset dummies
    erase os s₁.src_file
    erase os s₁.run_file
    pure fine
