-- ===== src/Compile/Owned.antt =====
-- `compile_source` of src/lib/common.cpp keeps the temporary files as they are.
use bacs_legacy.Base.{Bool, true, not, [], ◌++◌, Bytes, codes, ℤ, ◌==ℤ◌, ◌=ₛ◌, if◌then◌else◌}
use bacs_legacy.Util.{str_lowercase}
use bacs_legacy.Util.Replace.{str_replace}
use bacs_legacy.Def.{run_ok, run_timeout, compile_ok, failed_to_compile}
use bacs_legacy.System.{Os, M, ◌>>=◌, pure, crash, look, when}
use bacs_legacy.System.Triples.{view, bind-Keeps, if-Keeps, when-Keeps, Option-Keeps}
use bacs_legacy.Config.{Settings, lcfg}
use bacs_legacy.TestFile.{without_extension}
use bacs_legacy.TempFile.{TempFile, assign, delete_file, file_exists}
use bacs_legacy.System.Facts.{Fact, Stable, Quiet}
use bacs_legacy.Run.{Vars, run}
use bacs_legacy.Run.Owned.{run-Quiet}
use bacs_legacy.Compile.{Compiled, replaced, lang_str, after_compiler, by_result, compile_source}

module _ (os : Os) (c : Settings) (x : Fact os) where
  replaced-Quiet : (s subs news : Bytes) → Quiet os x (replaced os c s subs news)
  unfolding replaced
  replaced-Quiet s subs news =
      Option-Keeps os x.holds (str_replace c.attempts s subs news) crash pure (λ s p. tt)
        (λ t s p. p)

  pub lang_str-Quiet : (key lang src : Bytes) → Quiet os x (lang_str os c key lang src)
  unfolding lang_str
  lang_str-Quiet key lang src =
      let low = str_lowercase lang in
      let text = lcfg c (low ++ (codes "." ++ key)) in
      let dir = lcfg c (low ++ codes ".dir") in
      let last : Bytes → M os Bytes =
        λ s₂. replaced os c s₂ (codes "{src_noext}") (without_extension src) in
      let next : Bytes → M os Bytes = λ s₁. replaced os c s₁ (codes "{dir}") dir >>= last in
      bind-Keeps os x.holds (replaced os c text (codes "{src}") src) next
        (replaced-Quiet text (codes "{src}") src)
        (λ s₁.
          bind-Keeps os x.holds (replaced os c s₁ (codes "{dir}") dir) last
            (replaced-Quiet s₁ (codes "{dir}") dir)
            (λ s₂. replaced-Quiet s₂ (codes "{src_noext}") (without_extension src)))

module _ (os : Os) (c : Settings) (x : Fact os) (stable : Stable os x) where
  delete_file-Quiet : (fn : Bytes) → Quiet os x (delete_file os fn)
  unfolding delete_file
  delete_file-Quiet fn s p = stable.remove_kept fn (view os s) p

  after_compiler-Quiet :
      (src_file lang : Bytes) (run_file : TempFile) (run_cmd error_log : Bytes)
      → Quiet os x (after_compiler os c src_file lang run_file run_cmd error_log)
  unfolding after_compiler
  after_compiler-Quiet src_file lang run_file run_cmd error_log =
      let ready : Bytes → Bytes → M os (Compiled os c) = λ exe_file run_cmd'. pure (record {
        result = compile_ok;
        run_file = assign exe_file;
        run_cmd = run_cmd';
        error_log = error_log;
      }) in
      let fail : M os (Compiled os c) = pure (record {
        result = failed_to_compile;
        run_file = run_file;
        run_cmd = run_cmd;
        error_log = error_log;
      }) in
      let found : Bytes → Bool → M os (Compiled os c) = λ exe_file there.
        if not there then fail else lang_str os c (codes "run") lang src_file >>= ready exe_file in
      let built : Bytes → M os (Compiled os c) =
        λ exe_file. look (file_exists os exe_file) >>= found exe_file in
      let link : M os (Compiled os c) = lang_str os c (codes "exefile") lang src_file >>= built in
      let delete : Bytes → M os (Unit {0}) = λ fn. delete_file os fn >>= λ _. pure tt in
      let clean : Bytes → M os (Unit {0}) = λ fn. when (not (fn =ₛ [])) (delete fn) in
      bind-Keeps os x.holds (lang_str os c (codes "tmpfile") lang src_file)
        (λ fn. clean fn >>= λ _. link) (lang_str-Quiet os c x (codes "tmpfile") lang src_file)
        (λ fn.
          bind-Keeps os x.holds (clean fn) (λ _. link)
            (when-Keeps os x.holds (not (fn =ₛ [])) (delete fn) (
              bind-Keeps os x.holds (delete_file os fn) (λ _. pure tt) (delete_file-Quiet fn)
                (λ _ s p. p)))
            (λ _.
              bind-Keeps os x.holds (lang_str os c (codes "exefile") lang src_file) built
                (lang_str-Quiet os c x (codes "exefile") lang src_file)
                (λ exe_file.
                  bind-Keeps os x.holds (look (file_exists os exe_file)) (found exe_file) (λ s p. p)
                    (λ there.
                      if-Keeps os x.holds (not there) fail _ (λ s p. p)
                        (bind-Keeps os x.holds (lang_str os c (codes "run") lang src_file)
                          (ready exe_file) (lang_str-Quiet os c x (codes "run") lang src_file)
                          (λ cmd s p. p))))))

  by_result-Quiet :
      (cmd src_file lang : Bytes) (run_file : TempFile) (run_cmd error_log : Bytes) (res : ℤ)
      → Quiet os x (by_result os c cmd src_file lang run_file run_cmd error_log res)
  unfolding by_result
  by_result-Quiet cmd src_file lang run_file run_cmd error_log res =
      if-Keeps os {A = Compiled os c} x.holds (res ==ℤ run_ok) _ _
        (after_compiler-Quiet src_file lang run_file run_cmd error_log)
        (if-Keeps os {A = Compiled os c} x.holds (res ==ℤ run_timeout) _ _ (λ s p. p) (λ s p. p))

  pub compile_source-Quiet :
      (src_file lang : Bytes) (run_file : TempFile) (run_cmd error_log : Bytes) (unset : Vars)
      → Quiet os x (compile_source os c src_file lang run_file run_cmd error_log unset)
  unfolding compile_source
  compile_source-Quiet src_file lang run_file run_cmd error_log unset =
      let ran : Bytes → M os (ℤ × Bytes × Vars) =
        λ cmd. run os c cmd true [] error_log c.compiler_timeout c.compiler_memoryout true unset in
      let judged : Bytes → ℤ × Bytes × Vars → M os (Compiled os c) =
        λ cmd o. by_result os c cmd src_file lang run_file run_cmd o.1 o.0 in
      bind-Keeps os x.holds (lang_str os c (codes "compile") lang src_file)
        (λ cmd. ran cmd >>= judged cmd) (lang_str-Quiet os c x (codes "compile") lang src_file)
        (λ cmd.
          bind-Keeps os x.holds (ran cmd) (judged cmd)
            (run-Quiet os c x stable cmd [] error_log c.compiler_timeout c.compiler_memoryout true
              unset)
            (λ o. by_result-Quiet cmd src_file lang run_file run_cmd o.1 o.0))
