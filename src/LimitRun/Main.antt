-- ===== src/LimitRun/Main.antt =====
-- `main` of src/bin/limit_run.cpp, with the child that it forks. What the two processes ask of the
-- system is the list of their calls; what the system answers is an argument.
use bacs_legacy.Base.{
  ℕ, Bool, false, not, Option, none, some, List, [], ◌∷◌, ◌++◌, Bytes, ℤ, pos, ltb_ℤ, if◌then◌else◌,
}
use bacs_legacy.Process.{WaitStatus}
use bacs_legacy.LimitRun.{Usage, Poll, watch, write_results}
use bacs_legacy.LimitRun.Start.{
  Launch, Start, usage_error, null_executable, launch, start, child_limits,
}

-- `RLIMIT_AS`, `RLIMIT_CPU`, `RLIMIT_FSIZE` and `RLIMIT_STACK`
pub data Resource : Type 0 where
  address_space cpu_time file_size stack : Resource

-- The calls. A limit is the soft and the hard one, and `none` is `RLIM_INFINITY`.
pub data Call : Type 0 where
  unlink_result : Call
  create_file : Bytes → Call
  redirect_stdin : Bytes → Call
  redirect_stdout : Bytes → Call
  redirect_stderr : Bytes → Call
  setrlimit : Resource → Option (ℕ × ℕ) → Call
  chdir : Bytes → Call
  execv : Bytes → List Bytes → Call

-- How the child ends: it becomes the program, it exits, or its behaviour is undefined.
pub data ChildEnd : Type 0 where
  runs_program : ChildEnd
  exits : ℕ → ChildEnd
  undefined : ChildEnd

-- Which calls of the child succeed. The source does not look at the results of open, dup2 and
-- setrlimit: the calls are the same where they fail, and what they ask for is not in force then.
pub record Answers : Type 0 where
  pub can_create : Bool
  pub can_chdir : Bool
  pub can_execv : Bool

optional_limit : Resource → Option (ℕ × ℕ) → List Call
optional_limit r none = []
optional_limit r (some limit) = setrlimit r (some limit) ∷ []

-- Lines 218 to 237.
limit_calls : Launch → List Call
unfolding optional_limit
limit_calls l =
    let limits = child_limits l in
    optional_limit address_space limits.address_space
    ++ (optional_limit cpu_time limits.cpu
        ++ (setrlimit file_size (some limits.file_size) ∷ setrlimit stack none ∷ []))

-- Lines 211 to 216.
redirections : Launch → List Call
redirections l =
    redirect_stdin l.in_fn
    ∷ redirect_stdout l.out_fn
    ∷ (if l.redirect_stderr then redirect_stderr l.out_fn ∷ [] else [])

-- Lines 239 to 247.
execute : Launch → Answers → List Call × ChildEnd
execute l a = if not a.can_chdir then (chdir l.cwd ∷ [], exits 1) else (
  chdir l.cwd ∷ execv l.executable l.argv ∷ [],
  if a.can_execv then runs_program else exits 1,
)

-- The child: its calls, and how it ends. The null pointer of a file that could not be created is
-- closed, which is undefined.
unfoldable pub child : Launch → Answers → List Call × ChildEnd
unfolding limit_calls redirections execute
child l a =
    if not a.can_create
    then (create_file l.out_fn ∷ [], undefined)
    else let (calls, end) = execute l a in
      (create_file l.out_fn ∷ (redirections l ++ (limit_calls l ++ calls)), end)

-- What the parent sees of the child: the seconds of the clock, the polls, and the end.
pub record Seen : Type 0 where
  pub clock : ℕ
  pub polls : List Poll
  pub usage : Option Usage
  pub status : WaitStatus

-- How the launcher ends: with an exit code and perhaps a text in the result file, or undefined.
pub data Exit : Type 0 where
  failed : ℕ → Exit
  wrote : Bytes → Exit
  broken : Exit

parent : Launch → Seen → Exit
parent l s =
    wrote (write_results (watch l.time_limit l.memory_limit s.clock s.polls s.usage s.status))

-- Behind the arguments; `nid` is the result of `fork`.
forked : Launch → ℤ → Seen → Exit
unfolding parent
forked l nid s = if ltb_ℤ nid (pos 0) then failed 1 else parent l s

-- `if (file_exists(RESULT_FILE_NAME)) unlink(RESULT_FILE_NAME);`, where `stat` says whether the file is
-- a directory, or fails.
file_exists : Option Bool → Bool
file_exists none = false
file_exists (some is_directory) = not is_directory

first_calls : Option Bool → List Call
unfolding file_exists
first_calls stat = if file_exists stat then unlink_result ∷ [] else []

-- Behind the arguments; `nid` is the result of `fork`.
behind_start : Start → ℤ → Seen → Exit
unfolding forked
behind_start usage_error nid s = failed 1
behind_start null_executable nid s = broken
behind_start (launch l) nid s = forked l nid s

-- `main` in the parent: the calls before the arguments are read, and the end. The result file is
-- opened for writing without a test: here it opens.
unfoldable pub main : Option Bool → List Bytes → ℤ → Seen → List Call × Exit
unfolding start behind_start first_calls
main stat args nid s = (first_calls stat, behind_start (start args) nid s)
