-- ===== src/Problem/Init.antt =====
-- The preparation of a problem in src/lib/problem.cpp, and `find_files` of src/lib/util.cpp.
pub mod Tests
pub mod Parts
pub mod Keeps
pub mod Owned
use bacs_legacy.Base.{
  ℕ, Bool, true, false, not, ◌||◌, Option, none, some, List, [], ◌∷◌, ◌++◌, Bytes, codes, ℤ, pos,
  ◌==ℤ◌, ◌=ₛ◌, if◌then◌else◌, find_bytes, keep,
}
use bacs_legacy.Util.{dir_from_filename}
use bacs_legacy.Util.Number.{i2s}
use bacs_legacy.Util.Format.{c_str, format}
use bacs_legacy.Def.{invalid_id}
use bacs_legacy.Double.{Double}
use bacs_legacy.System.{
  Os, M, ◌>>=◌, ◌>>◌, pure, look, run_os, try_os, throwing, log_add, log_error, when,
}
use bacs_legacy.Config.{Settings, CfgEngine, cfg, get}
use bacs_legacy.IoName.{check_iofile_name}
use bacs_legacy.TestFile.{TestFile, new_test, tests_sort_func}
use bacs_legacy.TempFile.{file_exists}
use bacs_legacy.Database.{db_qres0}
use bacs_legacy.Problem.{Problem}

contains : Bytes → Bytes → Bool
contains s t = elim (find_bytes t s) [ none ↦ false | some k ↦ true ]

module _ (os : Os) where
  -- The entries of a directory as full names: those that contain `ext` anywhere, and are files.
  found : Bytes → Bytes → List Bytes → os.World → List Bytes
  unfolding contains file_exists
  found dir ext [] w = []
  found dir ext (name ∷ names) w =
      let rest = found dir ext names w in
      if not (contains (dir ++ name) ext)
      then rest
      else if file_exists os (dir ++ name) w
      then (dir ++ name) ∷ rest
      else rest

  -- `find_files`, which always returns true
  pub find_files : Bytes → Bytes → M os (List Bytes)
  unfolding found
  find_files fn ext = look (λ w.
      let dir = dir_from_filename fn ++ codes "/" in
      elim (os.list_dir dir w) [ none ↦ [] | some names ↦ found dir ext names w ])

module _ (os : Os) (d : Double) (c : Settings) where
  abbrev archive_dir : Bytes → Bytes
  archive_dir id = cfg c (codes "general.problem_archive_dir") ++ (codes "/" ++ id)

  -- The query for the protocol of a test.
  abbrev verbose_query : Bytes → TestFile → Bytes
  verbose_query submit_id t = format (
      codes "select 1 from verbose_test where submit_id = "
      ++ (c_str submit_id
          ++ (codes " AND (test_id = " ++ (i2s t.id ++ codes " OR test_id is NULL)"))))

  abbrev with_protocol : Bytes → Bytes → TestFile → TestFile
  with_protocol verbose_tmpdir wanted t =
      if wanted =ₛ codes "1"
      then record t { verbose = some (verbose_tmpdir ++ (codes "/" ++ i2s t.id)) }
      else t

  -- The loop of `init_tests`: a test with a number is kept, with its protocol if one is wanted.
  pub collect : Bytes → Bytes → List Bytes → M os (List TestFile)
  unfolding new_test db_qres0
  collect submit_id verbose_tmpdir [] = pure []
  collect submit_id verbose_tmpdir (fn ∷ files) = do
    t ← look (λ w. new_test (λ name. os.exists name w) fn)
    if t.id ==ℤ invalid_id then collect submit_id verbose_tmpdir files else do
      wanted ← db_qres0 os (verbose_query submit_id t)
      rest ← collect submit_id verbose_tmpdir files
      pure (with_protocol verbose_tmpdir wanted t ∷ rest)

  unfoldable pub init_tests : Problem d → Bytes → M os (Problem d)
  unfolding collect find_files tests_sort_func
  init_tests p submit_id = do
    let verbose_tmpdir = cfg c (codes "general.temp_dir") ++ (codes "/" ++ submit_id)
    old ← look (os.exists verbose_tmpdir)
    when old (throwing (os.remove_all verbose_tmpdir))
    files ← find_files os (archive_dir p.id ++ codes "/tests/") (codes ".in")
    tests ← collect submit_id verbose_tmpdir (os.sort tests_sort_func files)
    pure (record p { tests = p.tests ++ tests; is_tests_init = true })

  abbrev or_default : Bytes → Bytes → Bytes
  or_default s default_value = if s =ₛ [] then default_value else s

  unfoldable pub init_iofiles : Problem d → M os (Bool × Problem d)
  unfolding check_iofile_name
  init_iofiles p =
      let input_fn = or_default (get p.cf (codes "input")) (codes "STDIN") in
      let output_fn = or_default (get p.cf (codes "output")) (codes "STDOUT") in
      if not (check_iofile_name input_fn)
      then (do
        log_add (codes "Error: input file is incorrect!") ((codes "Input file", input_fn) ∷ [])
        pure (false, record p { input_fn = input_fn }))
      else if not (check_iofile_name output_fn)
      then (do
        log_add (codes "Error: output file is incorrect!") ((codes "Output file", output_fn) ∷ [])
        pure (false, record p { input_fn = input_fn; output_fn = output_fn }))
      else pure (true, record p { input_fn = input_fn; output_fn = output_fn })

  -- The default checker, where none is named and none is in the problem's directory.
  default_checker : Problem d → M os (Bool × Problem d)
  unfolding file_exists
  default_checker p = do
    let checker = cfg c (codes "general.default_checker")
    there ← look (file_exists os checker)
    if there
        then pure (true, record p { checker = checker; checker_return = codes "bacs_legacy" })
        else do
          log_add (codes "Error: default checker does not exist!") []
          pure (false, record p { checker = checker; checker_return = codes "bacs_legacy" })

  named_checker : Problem d → Bytes → M os (Bool × Problem d)
  unfolding file_exists
  named_checker p checker = do
    there ← look (file_exists os checker)
    if there then pure (true, record p { checker = checker }) else do
      log_add (codes "Error: checker does not exist!") ((codes "Checker file", checker) ∷ [])
      pure (false, record p { checker = checker })

  unfoldable pub init_checker : Problem d → M os (Bool × Problem d)
  unfolding default_checker named_checker file_exists
  init_checker p₀ = do
    let checker = get p₀.cf (codes "checker")
    let dir = archive_dir p₀.id ++ codes "/checker/"
    let p = record p₀ { checker = checker; checker_return = get p₀.cf (codes "checker_return") }
    check_there ← look (file_exists os (dir ++ codes "check.exe"))
    checker_there ← look (file_exists os (dir ++ codes "checker.exe"))
    if checker =ₛ []
        then (if check_there
            then pure (true, record p { checker = dir ++ codes "check.exe" })
            else if checker_there
            then pure (true, record p { checker = dir ++ codes "checker.exe" })
            else default_checker p)
        else if checker =ₛ codes "default"
        then default_checker p
        else named_checker p (dir ++ checker)

  -- `s2d`
  s2d : Bytes → d.Carrier → d.Carrier
  s2d s default_value = elim (d.parse s) [ none ↦ default_value | some x ↦ x ]

  limit_of : CfgEngine → Bytes → Bytes → d.Carrier
  unfolding s2d
  limit_of cf key default_key = s2d (get cf key) (s2d (cfg c default_key) d.zero_value)

  -- `init`, behind the limits.
  init_parts : Problem d → Bytes → M os (Bool × Problem d)
  init_parts p submit_id = do
    (named, p₁) ← init_iofiles p
    if not named then pure (false, p₁) else do
      (checked, p₂) ← init_checker p₁
      if not checked then pure (false, p₂) else do p₃ ← init_tests p₂ submit_id; pure (true, p₃)

  -- `init`, behind the reading of `conf.txt`, which is `none` for a failure.
  init_from : Problem d → Bytes → Option (Bytes → Option Bytes) → M os (Bool × Problem d)
  init_from p submit_id none = pure (false, p)
  init_from p submit_id (some table) =
      let cf : CfgEngine = record { table = table } in
      init_parts
        (record p {
          cf = cf;
          time_limit_s = limit_of cf (codes "TL") (codes "general.default_time_limit");
          memory_limit_mib = limit_of cf (codes "ML") (codes "general.default_memory_limit");
        })
        submit_id

  -- `init`, behind the extraction of the package.
  init_unpacked : Problem d → Bytes → Bool → M os (Bool × Problem d)
  init_unpacked p submit_id unpacked =
      if unpacked
      then (do
        conf ← look (os.read_ini (archive_dir p.id ++ codes "/conf.txt"))
        init_from p submit_id conf)
      else do
        what ← look os.what
        log_error (format (codes "Unable to extract package: " ++ c_str what))
            ((codes "Problem ID", p.id) ∷ [])
        pure (false, p)

  unfoldable pub init : Problem d → Bytes → Bytes → M os (Bool × Problem d)
  unfolding init_unpacked init_from init_parts limit_of
  init p₀ id submit_id = do
    let p = record p₀ { id = id }
    let dir = archive_dir id ++ codes "/"
    throwing (os.create_directories dir)
    unpacked ← try_os (
        os.extract
          (cfg c (codes "general.repository_prefix")
            ++ (id ++ cfg c (codes "general.repository_suffix")))
          dir)
    init_unpacked p submit_id unpacked

  -- The destructor.
  unfoldable pub destroy : Problem d → M os (Unit {0})
  destroy p = do
    run_os (
        os.system
          (format (codes "rm -rf \"" ++ (c_str (archive_dir p.id ++ codes "/") ++ codes "\""))))
    pure tt
