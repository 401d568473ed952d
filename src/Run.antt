-- ===== src/Run.antt =====
-- src/lib/run.cpp: running a command under the launcher, and reading what it wrote. Variables that
-- the C++ code passes by reference are arguments, with what they hold before, and results.
pub mod ResultFile
pub mod Owned
pub mod Fio
pub mod Fits
use bacs_legacy.Base.{
  ℕ, Bool, true, false, not, ◌==◌, Option, none, some, [], ◌∷◌, ◌++◌, Bytes, codes, ℤ, pos, ◌=ₛ◌,
  if◌then◌else◌,
}
use bacs_legacy.Util.Format.{c_str}
use bacs_legacy.Util.Number.{i2s}
use bacs_legacy.Def.{run_failed}
use bacs_legacy.Process.{succeeded}
use bacs_legacy.System.{Os, M, ◌>>=◌, ◌>>◌, pure, look, run_os, log_error}
use bacs_legacy.Config.{Settings, cfg, cfgi}
use bacs_legacy.TempFile.{TempFile, unused, create, erase, read}
use ResultFile.{scan_results}

-- The variables that `_run` sets, if it comes to that.
pub record Vars : Type 0 where
  pub ex_code : ℤ
  pub memory_used : ℤ
  pub time_used : ℤ

module _ (os : Os) (c : Settings) where
  abbrev redirect_word : Bool → Bytes
  redirect_word b = if b then codes "yes " else codes "no "

  -- The command line for the launcher.
  unfoldable pub run_command : Bytes → Bytes → Bytes → ℤ → ℤ → Bool → Bytes
  run_command cmd fn_in fn_out timeout memory_limit redirect_stderr =
      cfg c (codes "general.limit_run_exe")
      ++ (codes " "
          ++ (cfg c (codes "general.test_dir")
              ++ (codes " "
                  ++ (fn_in
                      ++ (codes " "
                          ++ (fn_out
                              ++ (codes " "
                                  ++ (i2s timeout
                                      ++ (codes " "
                                          ++ (i2s memory_limit
                                              ++ (codes " "
                                                  ++ (redirect_word redirect_stderr
                                                      ++ cmd))))))))))))

  -- What `_run` makes of the result file.
  from_file : Bytes → Vars → Option Bytes → M os (ℤ × Vars)
  from_file cmd vars none = do
    log_error (codes "Cannot open run result!") ((codes "Command string", cmd) ∷ [])
    pure (run_failed, vars)
  from_file cmd vars (some text) =
      let r = scan_results vars.memory_used vars.time_used text in
      let vars' : Vars = record {
        ex_code = r.ex_code;
        memory_used = r.memory_used;
        time_used = r.time_used;
      } in
      if r.conversions == 4 then pure (r.res, vars') else (do
        log_error (codes "Cannot read run result!") ((codes "Command string", cmd) ∷ [])
        pure (run_failed, vars'))

  -- `_run`
  unfoldable pub run_limited : Bytes → Bytes → Bytes → ℤ → ℤ → Bool → Vars → M os (ℤ × Vars)
  unfolding run_command from_file
  run_limited cmd fn_in fn_out timeout memory_limit redirect_stderr vars = do
    ret ←
        run_os
          (os.system (c_str (run_command cmd fn_in fn_out timeout memory_limit redirect_stderr)))
    if succeeded ret
        then (do
          text ← look (os.read_file (cfg c (codes "general.limit_run_result_file")))
          from_file cmd vars text)
        else pure (run_failed, vars)

  -- The destructors at the end of a function: the later object first.
  unfoldable pub leave : {A : Type 0} → TempFile → TempFile → A → M os A
  unfolding erase
  leave tf_in tf_out a = do erase os tf_out; erase os tf_in; pure a

  -- `run_use_pipes` behind the temporary file for the output.
  run_piped :
      Bytes → Bytes → ℤ → ℤ → Bool → Vars → TempFile → Bool × TempFile → M os (ℤ × Bytes × Vars)
  unfolding run_limited leave read
  run_piped cmd data_out timeout memory_limit redirect_stderr vars tf_in (made, tf_out) =
      if not made
      then (do
        log_error (codes "Error: cannot create output temp file!") []
        leave tf_in tf_out (run_failed, data_out, vars))
      else do
        (result, vars') ←
            run_limited cmd tf_in.name tf_out.name timeout memory_limit redirect_stderr vars
        out ← read os tf_out (cfgi c (codes "general.max_run_out_size"))
        leave tf_in tf_out (result, out, vars')

  -- The result, and what stands in `data_out`.
  unfoldable pub run_use_pipes :
      Bytes → Bytes → Bytes → ℤ → ℤ → Bool → Vars → M os (ℤ × Bytes × Vars)
  unfolding run_piped leave create
  run_use_pipes cmd data_in data_out timeout memory_limit redirect_stderr vars = do
    (made_in, tf_in) ← create os c unused data_in
    if not made_in
        then (do
          log_error (codes "Error: cannot write input data to temp file!") []
          leave tf_in unused (run_failed, data_out, vars))
        else do
          made ← create os c unused []
          run_piped cmd data_out timeout memory_limit redirect_stderr vars tf_in made

  -- The result, and what stands in `file_out`.
  unfoldable pub run_use_files :
      Bytes → Bytes → Bytes → ℤ → ℤ → Bool → Vars → M os (ℤ × Bytes × Vars)
  unfolding run_limited leave create
  run_use_files cmd file_in file_out timeout memory_limit redirect_stderr vars = do
    (made_out, tf_out) ← create os c unused []
    if not made_out
        then (do
          log_error (codes "Error: cannot create output temp file!") []
          leave unused tf_out (run_failed, file_out, vars))
        else do
          (result, vars') ←
              run_limited cmd file_in tf_out.name timeout memory_limit redirect_stderr vars
          leave unused tf_out (result, tf_out.name, vars')

  unfoldable pub run : Bytes → Bool → Bytes → Bytes → ℤ → ℤ → Bool → Vars → M os (ℤ × Bytes × Vars)
  unfolding run_use_pipes run_use_files
  run cmd use_pipes data_in data_out timeout memory_limit redirect_stderr vars =
      if use_pipes
      then run_use_pipes cmd data_in data_out timeout memory_limit redirect_stderr vars
      else run_use_files cmd data_in data_out timeout memory_limit redirect_stderr vars
