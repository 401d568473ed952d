-- ===== src/Run/Fio.antt =====
-- `run_fio` of src/lib/run.cpp: a run with the input and output files of a problem.
pub mod Steps
pub mod Owned
use bacs_legacy.Base.{
  Bool, true, false, not, Option, none, some, [], ◌++◌, Bytes, codes, ℤ, pos, ◌==ℤ◌, ◌=ₛ◌,
  if◌then◌else◌,
}
use bacs_legacy.Util.Format.{c_str, format}
use bacs_legacy.Def.{run_failed}
use bacs_legacy.Process.{succeeded}
use bacs_legacy.System.{Os, M, ◌>>=◌, ◌>>◌, pure, crash, look, run_os, try_os, log_error}
use bacs_legacy.Config.{Settings, cfg}
use bacs_legacy.TempFile.{TempFile, unused, detach, create, erase, file_exists}
use bacs_legacy.Run.{Vars, run_limited, leave}

-- The result, what stands in `file_out`, and the variables.
pub record Fio : Type 0 where
  pub result : ℤ
  pub file_out : Bytes
  pub vars : Vars

abbrev pub failed : Bytes → Vars → Fio
failed file_out vars = record { result = run_failed; file_out = file_out; vars = vars }

module _ (os : Os) where
  -- `success_ret`: a return value that is not 0 is logged as an error number.
  unfoldable pub success_ret : ℤ → M os Bool
  success_ret ret =
      if ret ==ℤ pos 0 then pure true else (do log_error (os.strerror ret) []; pure false)

  -- `FILE *f = fopen(fn, "wb"); fclose(f);`: closing the null pointer is undefined.
  unfoldable pub make_empty : Bytes → M os (Unit {0})
  make_empty fn = do made ← try_os (os.write_file fn []); if made then pure tt else crash

  copy_command : Bytes → Bytes → Bytes
  copy_command from to = format (codes "cp -f " ++ (c_str from ++ (codes " " ++ c_str to)))

module _ (os : Os) (c : Settings) where
  abbrev in_test_dir : Bytes → Bytes
  in_test_dir fn = cfg c (codes "general.test_dir") ++ (codes "/" ++ fn)

  -- The part for an input file that is not `STDIN`: `tf_in`, and the name of the input, or `none`
  -- for a failure.
  pub prepare_input : Bytes → Bytes → M os (TempFile × Option Bytes)
  unfolding success_ret copy_command
  prepare_input file_in input_fn =
      if input_fn =ₛ codes "STDIN" then pure (unused, some file_in) else do
        (made, tf_in) ← create os c unused []
        if not made
            then (do
              log_error (codes "Error: cannot create input temp file!") []
              pure (tf_in, none))
            else do
              ret ← run_os (os.system (copy_command os file_in (in_test_dir input_fn)))
              if not (succeeded ret) then pure (tf_in, none) else do
                ret ← run_os (os.chmod (in_test_dir input_fn) 0o664)
                fine ← success_ret os ret
                pure (tf_in, if fine then some tf_in.name else none)

  -- The part for an output file that is not `STDOUT`, before the run: false for a failure.
  pub prepare_output : Bytes → M os Bool
  unfolding success_ret make_empty
  prepare_output output_fn = if output_fn =ₛ codes "STDOUT" then pure true else do
    make_empty os (in_test_dir output_fn)
    ret ← run_os (os.chmod (in_test_dir output_fn) 0o662)
    success_ret os ret

  -- After the run the output file takes the place of the one for the standard output.
  pub fetch_output : Bytes → Bytes → M os Bool
  unfolding success_ret make_empty file_exists
  fetch_output output_fn file_out = if output_fn =ₛ codes "STDOUT" then pure true else do
    there ← look (file_exists os (in_test_dir output_fn))
    if there
        then (do ret ← run_os (os.rename (in_test_dir output_fn) file_out); success_ret os ret)
        else (do make_empty os file_out; pure true)

  pub drop_input : Bytes → TempFile → M os (Bool × TempFile)
  unfolding success_ret erase
  drop_input input_fn tf_in = if input_fn =ₛ codes "STDIN" then pure (true, tf_in) else do
    (erased, tf_in') ← erase os tf_in
    ret ← run_os (os.unlink (in_test_dir input_fn))
    fine ← success_ret os ret
    pure (fine, tf_in')

  -- From the run on; the file for the output stays, for the caller.
  run_prepared : Bytes → Bytes → ℤ → ℤ → Bytes → Bytes → TempFile → TempFile → Vars → M os Fio
  unfolding run_limited leave fetch_output drop_input
  run_prepared cmd in_fn timeout memory_limit input_fn output_fn tf_in tf_out vars = do
    let file_out = tf_out.name
    (result, vars') ← run_limited os c cmd in_fn file_out timeout memory_limit false vars
    fetched ← fetch_output output_fn file_out
    if not fetched then leave os c tf_in (detach tf_out) (failed file_out vars') else do
      (dropped, tf_in') ← drop_input input_fn tf_in
      leave os c tf_in' (detach tf_out) (record {
        result = if dropped then result else run_failed;
        file_out = file_out;
        vars = vars';
      })

  -- Behind the temporary file for the output.
  run_created :
      Bytes → Bytes → ℤ → ℤ → Bytes → Bytes → Bytes → TempFile → Vars → Bool × TempFile → M os Fio
  unfolding prepare_output run_prepared leave
  run_created cmd file_out timeout memory_limit input_fn output_fn in_fn tf_in vars (made, tf_out) =
      if not made
      then (do
        log_error (codes "Error: cannot create output temp file!") []
        leave os c tf_in tf_out (failed file_out vars))
      else do
        ready_out ← prepare_output output_fn
        if ready_out
            then run_prepared cmd in_fn timeout memory_limit input_fn output_fn tf_in tf_out vars
            else leave os c tf_in tf_out (failed file_out vars)

  -- Behind the preparation of the input.
  run_ready : Bytes → Bytes → ℤ → ℤ → Bytes → Bytes → Vars → TempFile × Option Bytes → M os Fio
  unfolding run_created leave create
  run_ready cmd file_out timeout memory_limit input_fn output_fn vars (tf_in, none) =
      leave os c tf_in unused (failed file_out vars)
  run_ready cmd file_out timeout memory_limit input_fn output_fn vars (tf_in, some in_fn) = do
    made ← create os c unused []
    run_created cmd file_out timeout memory_limit input_fn output_fn in_fn tf_in vars made

  unfoldable pub run_fio : Bytes → Bytes → Bytes → ℤ → ℤ → Bytes → Bytes → Vars → M os Fio
  unfolding prepare_input run_ready
  run_fio cmd file_in file_out timeout memory_limit input_fn output_fn vars = do
    prepared ← prepare_input file_in input_fn
    run_ready cmd file_out timeout memory_limit input_fn output_fn vars prepared
