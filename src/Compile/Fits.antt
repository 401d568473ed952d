-- ===== src/Compile/Fits.antt =====
-- The text of the compiler, which `compile_source` of src/lib/common.cpp gives back for the submission.
use bacs_legacy.Base.{
  ℕ, ◌≤◌, ◌≡◌, Bool, true, not, [], Bytes, codes, ℤ, pos, ◌==ℤ◌, ◌=ₛ◌, length, if◌then◌else◌,
  if_cases, ap, arith,
}
use bacs_legacy.Def.{run_ok, run_timeout, compile_ok, failed_to_compile}
use bacs_legacy.System.{Os, Server, M, Outcome, returned, ◌>>=◌, pure, look, when}
use bacs_legacy.System.Rules.{bind_cases}
use bacs_legacy.Config.{Settings, cfgi}
use bacs_legacy.TempFile.{TempFile, assign, delete_file, file_exists}
use bacs_legacy.Run.{Vars, run}
use bacs_legacy.Run.Fits.{run-Fits}
use bacs_legacy.Compile.{Compiled, lang_str, after_compiler, by_result, compile_source}

module _ (os : Os) (c : Settings) (n : ℕ) where
  abbrev LogFits : Outcome (Compiled os c) × Server os → Type 0
  LogFits r = (a : Compiled os c) → r.0 ≡ returned a → length a.error_log ≤ n

  after_compiler-LogFits :
      (src_file lang : Bytes) (run_file : TempFile) (run_cmd error_log : Bytes) (s : Server os)
      → length error_log ≤ n
      → LogFits (after_compiler os c src_file lang run_file run_cmd error_log s)
  unfolding after_compiler
  after_compiler-LogFits src_file lang run_file run_cmd error_log s h =
      let ready : Bytes → Bytes → M os (Compiled os c) = λ exe_file run_cmd'. pure (record {
        result = compile_ok;
        run_file = assign exe_file;
        run_cmd = run_cmd';
        error_log = error_log;
      }) in
      let found : Bytes → Bool → M os (Compiled os c) = λ exe_file there.
        if not there
        then pure (record {
          result = failed_to_compile;
          run_file = run_file;
          run_cmd = run_cmd;
          error_log = error_log;
        })
        else lang_str os c (codes "run") lang src_file >>= ready exe_file in
      let built : Bytes → M os (Compiled os c) =
        λ exe_file. look (file_exists os exe_file) >>= found exe_file in
      let link : M os (Compiled os c) = lang_str os c (codes "exefile") lang src_file >>= built in
      let clean : Bytes → M os (Unit {0}) =
        λ tmp_file. when (not (tmp_file =ₛ [])) (delete_file os tmp_file >>= λ _. pure tt) in
      bind_cases LogFits (lang_str os c (codes "tmpfile") lang src_file)
        (λ tmp_file. clean tmp_file >>= λ _. link) s
        (λ tmp_file s₁ _.
          bind_cases LogFits (clean tmp_file) (λ _. link) s₁
            (λ _ s₂ _.
              bind_cases LogFits (lang_str os c (codes "exefile") lang src_file) built s₂
                (λ exe_file s₃ _.
                  if_cases (λ (m : M os (Compiled os c)). LogFits (m s₃))
                    (not (file_exists os exe_file s₃.world)) _ _ (λ _ a e. ground arith)
                    (λ _.
                      bind_cases LogFits (lang_str os c (codes "run") lang src_file)
                        (ready exe_file) s₃ (λ cmd s₄ _ a e. ground arith) (λ _ _ a e. cc)))
                (λ _ _ a e. cc))
            (λ _ _ a e. cc))
        (λ _ _ a e. cc)

  by_result-LogFits :
      (cmd src_file lang : Bytes) (run_file : TempFile) (run_cmd error_log : Bytes) (res : ℤ)
      (s : Server os)
      → length error_log ≤ n
      → LogFits (by_result os c cmd src_file lang run_file run_cmd error_log res s)
  unfolding by_result
  by_result-LogFits cmd src_file lang run_file run_cmd error_log res s h =
      let Action : Type 0 = M os (Compiled os c) in
      if_cases (λ (m : Action). LogFits (m s)) (res ==ℤ run_ok) _ _
        (λ _. after_compiler-LogFits src_file lang run_file run_cmd error_log s h)
        (λ _.
          if_cases (λ (m : Action). LogFits (m s)) (res ==ℤ run_timeout) _ _ (λ _ a e. ground arith)
            (λ _ a e. ground arith))

  -- What a submission has of the compiler's output is bounded by the setting `max_run_out_size`,
  -- whatever the compiler does, where the setting is not 0.
  pub compile_source-LogFits :
      (src_file lang : Bytes) (run_file : TempFile) (run_cmd error_log : Bytes) (unset : Vars)
      (s : Server os) (r : Compiled os c)
      → 1 ≤ n
      → cfgi c (codes "general.max_run_out_size") ≡ pos n
      → length error_log ≤ n
      → (compile_source os c src_file lang run_file run_cmd error_log unset s).0 ≡ returned r
      → length r.error_log ≤ n
  unfolding compile_source
  compile_source-LogFits src_file lang run_file run_cmd error_log unset s r positive size h =
      let ran : Bytes → M os (ℤ × Bytes × Vars) =
        λ cmd. run os c cmd true [] error_log c.compiler_timeout c.compiler_memoryout true unset in
      let judged : Bytes → ℤ × Bytes × Vars → M os (Compiled os c) =
        λ cmd o. by_result os c cmd src_file lang run_file run_cmd o.1 o.0 in
      bind_cases LogFits (lang_str os c (codes "compile") lang src_file)
        (λ cmd. ran cmd >>= judged cmd) s
        (λ cmd s₁ _.
          bind_cases LogFits (ran cmd) (judged cmd) s₁
            (λ o s₂ k. by_result-LogFits cmd src_file lang run_file run_cmd o.1 o.0 s₂ (
              run-Fits os c n positive cmd [] error_log c.compiler_timeout c.compiler_memoryout true
                unset s₁ size h o (ap (λ x. x.0) k)))
            (λ _ _ a e. cc))
        (λ _ _ a e. cc) r
