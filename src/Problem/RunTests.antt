-- ===== src/Problem/RunTests.antt =====
-- `CProblem::run_tests` of src/lib/problem.cpp.

pub mod History
pub mod Owned
use bacs_legacy.Base.{
  ℕ, ◌+◌, Bool, true, false, not, ◌&&◌, Option, none, some, List, [], ◌∷◌, ◌++◌, Bytes, codes, ℤ,
  pos, negsuc, ◌=ₛ◌, if◌then◌else◌,
}
use bacs_legacy.Util.{dir_from_filename, name_from_filename}
use bacs_legacy.Util.Number.{i2s}
use bacs_legacy.Def.{Status, status_code, is_accepted, accepted}
use bacs_legacy.Process.{succeeded}
use bacs_legacy.Double.{Double}
use bacs_legacy.System.{Os, M, ◌>>=◌, ◌>>◌, pure, look, run_os, try_os, throwing, when}
use bacs_legacy.Config.{Settings}
use bacs_legacy.TestFile.{TestFile}
use bacs_legacy.Ping.{ping, running}
use bacs_legacy.Run.{Vars}
use bacs_legacy.Problem.{Problem, TestResult, run_test, verbose_copy, verbose_write}

module _ (d : Double) where
  -- The variables of the loop, and the parameters by reference.
  pub record Progress : Type 0 where
    pub result : Status
    pub first_res : Status
    pub max_time : d.Carrier
    pub max_memory : d.Carrier
    pub test_num_failed : ℤ
    pub test_results : Bytes
    pub info : Option Bytes
    pub verbose_path : Option Bytes

  -- Lines 51 to 56; `result` is what the caller has in it.
  abbrev pub begin : Status → Option Bytes → Progress
  begin result info = record {
    result = result;
    first_res = accepted;
    max_time = d.zero_value;
    max_memory = d.zero_value;
    test_num_failed = negsuc 0;
    test_results = [];
    info = info;
    verbose_path = none;
  }

  -- `if (value > max) max = value;`
  abbrev pub larger : d.Carrier → d.Carrier → d.Carrier
  larger max value = if d.less max value then value else max

  -- The results of `run_test`, before the branch on `acm`.
  unfoldable pub record_usage : TestResult d → Progress → Progress
  record_usage out pr = record pr {
    result = out.result;
    info = out.info;
    max_time = larger pr.max_time out.time_used;
    max_memory = larger pr.max_memory out.memory_used;
  }

  -- The first failure ends an ACM round.
  unfoldable pub record_failure : TestFile → TestResult d → Progress → Progress
  record_failure t out pr = record pr { test_num_failed = t.id; first_res = out.result }

  -- A school round goes on, and writes down every result.
  unfoldable pub record_school : TestResult d → Progress → Progress
  record_school out pr = record pr {
    test_results =
        (if pr.test_results =ₛ [] then [] else pr.test_results ++ codes ",")
        ++ i2s (pos (status_code out.result));
    first_res =
        if not (is_accepted out.result) && is_accepted pr.first_res
        then out.result
        else pr.first_res;
  }

module _ (os : Os) (d : Double) (c : Settings) where
  -- Lines 68 to 77; `parent_path` is the part in front of the last slash.
  enter_verbose : TestFile → Option Bytes → M os (Unit {0})
  unfolding verbose_copy
  enter_verbose t none = pure tt
  enter_verbose t (some dir) = do
    throwing (os.create_directories dir)
    verbose_copy os d c t.verbose t.file_in (codes "input")
    elim t.file_out [ none ↦ pure tt | some out ↦ verbose_copy os d c t.verbose out (codes "hint") ]

  -- The path of the protocol: the parent of the first directory; the others are asserted to agree.
  first_parent : Option Bytes → Option Bytes → Option Bytes
  first_parent none old = old
  first_parent (some dir) (some old) = some old
  first_parent (some dir) none = some (dir_from_filename dir)

  abbrev note_verbose : Option Bytes → Progress d → Progress d
  note_verbose dir pr = record pr { verbose_path = first_parent dir pr.verbose_path }

  -- Lines 99 to 108.
  leave_verbose : TestFile → TestResult d → M os (Unit {0})
  unfolding verbose_write
  leave_verbose t out = verbose_write os d c t.verbose (codes "result") (
      codes "time used = "
      ++ (d.print out.time_used
          ++ (codes "\nmemory used = "
              ++ (d.print out.memory_used
                  ++ (codes "\nresult = "
                      ++ (os.print_status (status_code out.result) ++ codes "\n"))))))

  -- The body of the loop behind `run_test`; `next` is the rest of the loop.
  after_test :
      Bool
      → TestFile
      → Progress d
      → (Progress d → M os (Bool × Progress d))
      → Bool × TestResult d
      → M os (Bool × Progress d)
  unfolding leave_verbose
  after_test acm t pr next (ok, out) =
      if not ok
      then pure (false, record pr { result = out.result; info = out.info })
      else if acm && not (is_accepted out.result)
      then pure (true, record_failure d t out (record_usage d out pr))
      else do
        leave_verbose t out
        next (if acm then record_usage d out pr else record_school d out (record_usage d out pr))

  -- The loop from test number `i` on: false where `run_tests` returns false, and the variables. Of
  -- the variables that `run_test` does not set, the values are arguments.
  run_loop :
      Problem d
      → Bytes
      → Bool
      → Vars
      → Vars
      → List TestFile
      → ℕ
      → Progress d
      → M os (Bool × Progress d)
  unfolding enter_verbose first_parent after_test
  run_loop p run_cmd acm unset dummies [] i pr = pure (true, pr)
  run_loop p run_cmd acm unset dummies (t ∷ tests) i pr = do
    ping os c running [] (pos i) p.id []
    enter_verbose t t.verbose
    played ← run_test os d c p t run_cmd unset dummies pr.info
    after_test acm t (note_verbose t.verbose pr)
        (run_loop p run_cmd acm unset dummies tests (i + 1)) played

  shell : Bytes → M os Bool
  shell cmd = do ret ← run_os (os.system cmd); pure (succeeded ret)

  -- `BOOST_SCOPE_EXIT_ALL`: a failure is swallowed.
  remove_quietly : Bytes → M os (Unit {0})
  remove_quietly path = do
    there ← look (os.exists path)
    when there (do try_os (os.remove_all path); pure tt)

  clean_archive : Bytes → Bool → M os Bool
  clean_archive archive ok = do run_os (os.remove archive); pure ok

  -- Lines 111 to 138: the protocol is packed and copied to a server.
  archive : Bytes → M os Bool
  unfolding shell clean_archive
  archive path = do
    let name = name_from_filename path ++ codes ".tgz"
    let dir = dir_from_filename path
    let file = dir ++ (codes "/" ++ name)
    there ← look (os.exists file)
    when there (throwing (os.remove_all file))
    packed ← shell (
        codes "cd \""
        ++ (dir
            ++ (codes "\" && tar cf \""
                ++ (name ++ (codes "\" \"" ++ (name_from_filename path ++ codes "\""))))))
    if not packed
        then clean_archive file false
        else if c.verbose_tests_server =ₛ []
        then clean_archive file true
        else do
          sent ← shell (
              c.verbose_tests_copy
              ++ (codes " \""
                  ++ (file ++ (codes "\" " ++ (c.verbose_tests_server ++ (codes "/" ++ name))))))
          clean_archive file sent

  -- The end of `run_tests` with a protocol, and its scope's exit.
  finish_verbose : Bytes → Bool × Progress d → M os (Bool × Progress d)
  unfolding archive remove_quietly
  finish_verbose path (false, pr) = do remove_quietly path; pure (false, pr)
  finish_verbose path (true, pr) = do
    packed ← archive path
    remove_quietly path
    pure (packed, record pr { result = pr.first_res })

  finish_by : Option Bytes → Bool × Progress d → M os (Bool × Progress d)
  unfolding finish_verbose
  finish_by none (false, pr) = pure (false, pr)
  finish_by none (true, pr) = pure (true, record pr { result = pr.first_res })
  finish_by (some path) looped = finish_verbose path looped

  finish : Bool × Progress d → M os (Bool × Progress d)
  unfolding finish_by
  finish looped = finish_by looped.1.verbose_path looped

  -- The argument `result` is what the caller's variable holds.
  unfoldable pub run_tests :
      Problem d → Bytes → Status → Option Bytes → Bool → Vars → Vars → M os (Bool × Progress d)
  unfolding run_loop finish
  run_tests p run_cmd result info acm unset dummies = do
    looped ← run_loop p run_cmd acm unset dummies p.tests 0 (begin d result info)
    finish looped
