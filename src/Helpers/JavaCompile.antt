-- ===== src/Helpers/JavaCompile.antt =====
-- src/bin/java_compile.c: it compiles a Java file in a directory of its own.
use bacs_legacy.Base.{
  ℕ, ◌+◌, Bool, false, not, ◌||◌, none, some, List, [], ◌∷◌, ◌++◌, Bytes, codes, ℤ, pos, ◌==ℤ◌, ltb,
  length, if◌then◌else◌,
}
use bacs_legacy.Process.{succeeded}
use bacs_legacy.System.{Os, M, ◌>>=◌, pure, crash, look, run_os}

-- `MAX_SIZE` and `BUF_SIZE`
abbrev pub max_size : ℕ
max_size = 1024

abbrev pub buf_size : ℕ
buf_size = max_size + 300

abbrev pub dir_name : Bytes → Bytes
dir_name java_file = java_file ++ codes ".dir"

abbrev pub file_name : Bytes → Bytes → Bytes
file_name java_file new_name = java_file ++ (codes ".dir/" ++ new_name)

abbrev pub javac : Bytes → Bytes → Bytes
javac java_file new_name =
    codes "javac -g:none -classpath "
    ++ (java_file ++ (codes ".dir " ++ (java_file ++ (codes ".dir/" ++ new_name))))

module _ (os : Os) where
  -- `file_exists`
  file_exists : Bytes → os.World → Bool
  file_exists fn w = elim (os.stat fn w) [ none ↦ false | some is_directory ↦ not is_directory ]

  -- `sprintf` into a buffer of `BUF_SIZE` bytes, and what follows: a text that does not fit with its
  -- end is written behind the buffer, which is undefined: the program may go on and exit with any
  -- code, and the model stops as at a crash.
  sprintf_then : Bytes → M os ℕ → M os ℕ
  sprintf_then s next = if ltb (length s) buf_size then next else crash

  -- `check_zero(ret)`, and what follows.
  zero_or_exit : ℤ → M os ℕ → M os ℕ
  zero_or_exit ret next = if ret ==ℤ pos 0 then next else pure 1

  -- The end: the link is removed.
  unlink_file : Bytes → Bytes → M os ℕ
  unfolding zero_or_exit
  unlink_file java_file new_name = do
    ret ← run_os (os.unlink (file_name java_file new_name))
    zero_or_exit ret (pure 0)

  -- The call of the compiler, and its status.
  run_javac : Bytes → Bytes → M os ℕ
  unfolding unlink_file
  run_javac java_file new_name = do
    ret ← run_os (os.system (javac java_file new_name))
    if not (succeeded ret) then pure 1 else unlink_file java_file new_name

  -- The link to the file, under its new name.
  link_file : Bytes → Bytes → M os ℕ
  unfolding sprintf_then run_javac zero_or_exit
  link_file java_file new_name = do
    ret ← run_os (os.link java_file (file_name java_file new_name))
    zero_or_exit ret (sprintf_then (javac java_file new_name) (run_javac java_file new_name))

  -- Behind the asserts; the mode is `S_IRWXU | S_IRWXG | S_IROTH | S_IXOTH`.
  make_dir : Bytes → Bytes → M os ℕ
  unfolding link_file sprintf_then zero_or_exit
  make_dir java_file new_name = do
    ret ← run_os (os.mkdir (dir_name java_file) 0o775)
    zero_or_exit ret (sprintf_then (file_name java_file new_name) (link_file java_file new_name))

  too_long : Bytes → Bool
  too_long s = not (ltb (length s) max_size)

  -- Behind the test for the file.
  checked : Bytes → Bytes → M os ℕ
  unfolding make_dir too_long sprintf_then
  checked java_file new_name =
      if too_long java_file || too_long new_name
      then crash
      else sprintf_then (dir_name java_file) (make_dir java_file new_name)

  -- `main`: the exit code. The arguments are those behind the name of the program.
  unfoldable pub main : List Bytes → M os ℕ
  unfolding file_exists checked
  main (java_file ∷ new_name ∷ []) = do
    there ← look (file_exists java_file)
    if not there then pure 1 else checked java_file new_name
  main args = pure 1
