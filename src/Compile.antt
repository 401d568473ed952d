-- ===== src/Compile.antt =====
-- `lang_str` of src/lib/helper.cpp and `compile_source` of src/lib/common.cpp.

pub mod Fits
pub mod Owned
use bacs_legacy.Base.{
  true, not, none, some, [], ◌∷◌, ◌++◌, Bytes, codes, ℤ, ◌==ℤ◌, ◌=ₛ◌, if◌then◌else◌,
}
use bacs_legacy.Util.{str_lowercase}
use bacs_legacy.Util.Replace.{str_replace}
use bacs_legacy.Def.{
  run_ok, run_timeout, CompileResult, compile_ok, failed_to_compile, compile_failed, out_of_time,
}
use bacs_legacy.System.{Os, M, ◌>>=◌, ◌>>◌, pure, crash, look, log_add, when}
use bacs_legacy.Config.{Settings, lcfg}
use bacs_legacy.TestFile.{without_extension}
use bacs_legacy.TempFile.{TempFile, assign, delete_file, file_exists}
use bacs_legacy.Run.{Vars, run}

module _ (os : Os) (c : Settings) where
  -- A replacement that does not end is a crash, on `attempts` rounds.
  replaced : Bytes → Bytes → Bytes → M os Bytes
  replaced s subs news = elim (str_replace c.attempts s subs news) [
    | none ↦ crash
    | some t ↦ pure t
  ]

  unfoldable pub lang_str : Bytes → Bytes → Bytes → M os Bytes
  unfolding replaced
  lang_str key lang src = do
    let low = str_lowercase lang
    let dir = lcfg c (low ++ codes ".dir")
    s₁ ← replaced (lcfg c (low ++ (codes "." ++ key))) (codes "{src}") src
    s₂ ← replaced s₁ (codes "{dir}") dir
    replaced s₂ (codes "{src_noext}") (without_extension src)

  -- The result, and the variables by reference: the file of the program, the command to run it, and
  -- the compiler's output.
  pub record Compiled : Type 0 where
    pub result : CompileResult
    pub run_file : TempFile
    pub run_cmd : Bytes
    pub error_log : Bytes

  -- Behind a run of the compiler that ended.
  after_compiler : Bytes → Bytes → TempFile → Bytes → Bytes → M os Compiled
  unfolding lang_str delete_file file_exists
  after_compiler src_file lang run_file run_cmd error_log = do
    tmp_file ← lang_str (codes "tmpfile") lang src_file
    when (not (tmp_file =ₛ [])) (do delete_file os tmp_file; pure tt)
    exe_file ← lang_str (codes "exefile") lang src_file
    there ← look (file_exists os exe_file)
    if not there
        then pure (record {
          result = failed_to_compile;
          run_file = run_file;
          run_cmd = run_cmd;
          error_log = error_log;
        })
        else do
          run_cmd' ← lang_str (codes "run") lang src_file
          pure (record {
            result = compile_ok;
            run_file = assign exe_file;
            run_cmd = run_cmd';
            error_log = error_log;
          })

  -- The `switch` on the result of the compiler's run.
  by_result : Bytes → Bytes → Bytes → TempFile → Bytes → Bytes → ℤ → M os Compiled
  unfolding after_compiler
  by_result cmd src_file lang run_file run_cmd error_log res =
      if res ==ℤ run_ok
      then after_compiler src_file lang run_file run_cmd error_log
      else if res ==ℤ run_timeout
      then pure (record {
        result = out_of_time;
        run_file = run_file;
        run_cmd = run_cmd;
        error_log = error_log;
      })
      else (do
        log_add (codes "Error: cannot run compiler!") (
            (codes "Language", lcfg c (str_lowercase lang ++ codes ".name"))
            ∷ (codes "Command string", cmd)
            ∷ [])
        pure (record {
          result = compile_failed;
          run_file = run_file;
          run_cmd = run_cmd;
          error_log = error_log;
        }))

  unfoldable pub compile_source : Bytes → Bytes → TempFile → Bytes → Bytes → Vars → M os Compiled
  unfolding by_result run
  compile_source src_file lang run_file run_cmd error_log unset = do
    cmd ← lang_str (codes "compile") lang src_file
    (res, out, vars) ←
        run os c cmd true [] error_log c.compiler_timeout c.compiler_memoryout true unset
    by_result cmd src_file lang run_file run_cmd out res
