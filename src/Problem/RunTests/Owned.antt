-- ===== src/Problem/RunTests/Owned.antt =====
-- `run_tests` of src/lib/problem.cpp leaves no temporary file behind.
use bacs_legacy.Base.{
  ℕ, ◌+◌, ◌&&◌, Bool, true, false, not, Option, none, some, List, [], ◌∷◌, ◌++◌, Bytes, codes, ℤ,
  pos, ◌=ₛ◌, if◌then◌else◌, arith,
}
use bacs_legacy.Util.{dir_from_filename, name_from_filename}
use bacs_legacy.Def.{Status, is_accepted}
use bacs_legacy.Double.{Double}
use bacs_legacy.System.{Os, M, ◌>>=◌, pure, look, try_os, throwing, when}
use bacs_legacy.System.Triples.{
  view, bind-Keeps, if-Keeps, when-Keeps, Option-Keeps, try_os-Keeps, throwing-Keeps,
}
use bacs_legacy.Config.{Settings}
use bacs_legacy.TestFile.{TestFile}
use bacs_legacy.System.Facts.{Fact, Stable, Quiet, Elsewhere}
use bacs_legacy.TempFile.Trace.{last}
use bacs_legacy.Ping.{PingType, ping, running}
use bacs_legacy.Run.{Vars}
use bacs_legacy.Run.Fio.Steps.{Apart}
use bacs_legacy.Problem.{Problem, TestResult, run_test, verbose_copy}
use bacs_legacy.Problem.Owned.{verbose_copy-Quiet, verbose_write-Quiet, run_test-Quiet}
use bacs_legacy.Problem.RunTests.{
  Progress, begin, note_verbose, enter_verbose, leave_verbose, after_test, run_loop, shell,
  remove_quietly, clean_archive, archive, finish_verbose, finish_by, finish, run_tests,
}

module _ (os : Os) (d : Double) (c : Settings) (x : Fact os) (stable : Stable os x) where
  pub ping-Quiet :
      (type : PingType) (submit_id : Bytes) (test : ℤ) (problem_id result : Bytes)
      → Quiet os x (ping os c type submit_id test problem_id result)
  unfolding ping
  ping-Quiet type submit_id test problem_id result =
      if-Keeps os {A = Unit {0}} x.holds (c.ping_uri =ₛ []) (pure tt) _ (λ s p. p)
        (λ s p. stable.system_kept _ (view os s) p)

  shell-Quiet : (cmd : Bytes) → Quiet os x (shell os d c cmd)
  unfolding shell
  shell-Quiet cmd s p = stable.system_kept cmd (view os s) p

  remove_quietly-Quiet : (path : Bytes) → Quiet os x (remove_quietly os d c path)
  unfolding remove_quietly
  remove_quietly-Quiet path =
      let removal = try_os (os.remove_all path) in
      bind-Keeps os x.holds (look (os.exists path)) (λ there. when there (removal >>= λ _. pure tt))
        (λ s p. p)
        (λ there. when-Keeps os x.holds there (removal >>= λ _. pure tt) (
          bind-Keeps os x.holds removal (λ _. pure tt)
            (try_os-Keeps os x.holds (os.remove_all path) (stable.remove_all_kept path))
            (λ _ s p. p)))

  clean_archive-Quiet : (file : Bytes) (ok : Bool) → Quiet os x (clean_archive os d c file ok)
  unfolding clean_archive
  clean_archive-Quiet file ok s p = stable.remove_kept file (view os s) p

  archive-Quiet : (path : Bytes) → Quiet os x (archive os d c path)
  unfolding archive
  archive-Quiet path =
      let name = name_from_filename path ++ codes ".tgz" in
      let dir = dir_from_filename path in
      let file = dir ++ (codes "/" ++ name) in
      let tar =
        codes "cd \""
        ++ (dir
            ++ (codes "\" && tar cf \""
                ++ (name ++ (codes "\" \"" ++ (name_from_filename path ++ codes "\""))))) in
      let copy =
        c.verbose_tests_copy
        ++ (codes " \""
            ++ (file ++ (codes "\" " ++ (c.verbose_tests_server ++ (codes "/" ++ name))))) in
      let send : M os Bool = shell os d c copy >>= clean_archive os d c file in
      let packed : Bool → M os Bool = λ ok.
        if not ok
        then clean_archive os d c file false
        else if c.verbose_tests_server =ₛ []
        then clean_archive os d c file true
        else send in
      let removal : M os (Unit {0}) = throwing (os.remove_all file) in
      let pack : M os Bool = shell os d c tar >>= packed in
      bind-Keeps os x.holds (look (os.exists file)) (λ there. when there removal >>= λ _. pack)
        (λ s p. p)
        (λ there.
          bind-Keeps os x.holds (when there removal) (λ _. pack)
            (when-Keeps os x.holds there removal
              (throwing-Keeps os x.holds (os.remove_all file) (stable.remove_all_kept file)))
            (λ _. bind-Keeps os x.holds (shell os d c tar) packed (shell-Quiet tar) (λ ok.
              if-Keeps os x.holds (not ok) (clean_archive os d c file false) _
                (clean_archive-Quiet file false)
                (if-Keeps os x.holds (c.verbose_tests_server =ₛ []) (clean_archive os d c file true)
                  send (clean_archive-Quiet file true)
                  (bind-Keeps os x.holds (shell os d c copy) (clean_archive os d c file)
                    (shell-Quiet copy) (clean_archive-Quiet file))))))

  finish_by-Quiet :
      (path : Option Bytes) (r : Bool × Progress d) → Quiet os x (finish_by os d c path r)
  unfolding finish_by finish_verbose
  finish_by-Quiet none (false, pr) = λ s p. p
  finish_by-Quiet none (true, pr) = λ s p. p
  finish_by-Quiet (some path) (false, pr) =
      bind-Keeps os x.holds (remove_quietly os d c path) (λ _. pure (false, pr))
        (remove_quietly-Quiet path) (λ _ s p. p)
  finish_by-Quiet (some path) (true, pr) =
      let end : Bool → M os (Bool × Progress d) =
        λ packed. pure (packed, record pr { result = pr.first_res }) in
      bind-Keeps os x.holds (archive os d c path)
        (λ packed. remove_quietly os d c path >>= λ _. end packed) (archive-Quiet path)
        (λ packed.
          bind-Keeps os x.holds (remove_quietly os d c path) (λ _. end packed)
            (remove_quietly-Quiet path) (λ _ s p. p))

  finish-Quiet : (r : Bool × Progress d) → Quiet os x (finish os d c r)
  unfolding finish
  finish-Quiet r = finish_by-Quiet r.1.verbose_path r

  module _ (elsewhere : Elsewhere os x last) (apart : Apart os c x) where
    enter_verbose-Quiet :
        (t : TestFile) (dir : Option Bytes) → Quiet os x (enter_verbose os d c t dir)
    unfolding enter_verbose last
    enter_verbose-Quiet t none = λ s p. p
    enter_verbose-Quiet t (some dir) =
        let input = verbose_copy os d c t.verbose t.file_in (codes "input") in
        let hint : Bytes → M os (Unit {0}) =
          λ out. verbose_copy os d c t.verbose out (codes "hint") in
        let copy_hint : M os (Unit {0}) = elim t.file_out [
          | none ↦ pure tt
          | some out ↦ hint out
        ] in
        bind-Keeps os x.holds (throwing (os.create_directories dir)) (λ _. input >>= λ _. copy_hint)
          (throwing-Keeps os x.holds (os.create_directories dir)
            (stable.create_directories_kept dir))
          (λ _.
            bind-Keeps os x.holds input (λ _. copy_hint)
              (verbose_copy-Quiet os d c x stable elsewhere t.verbose t.file_in (codes "input")
                (ground arith))
              (λ _.
                Option-Keeps os x.holds t.file_out (pure tt) hint (λ s p. p)
                  (λ out.
                    verbose_copy-Quiet os d c x stable elsewhere t.verbose out (codes "hint")
                      (ground arith))))

    leave_verbose-Quiet :
        (t : TestFile) (out : TestResult d) → Quiet os x (leave_verbose os d c t out)
    unfolding leave_verbose last
    leave_verbose-Quiet t out =
        verbose_write-Quiet os d c x stable elsewhere t.verbose (codes "result") _ (ground arith)

    after_test-Quiet :
        (acm : Bool) (t : TestFile) (pr : Progress d) (next : Progress d → M os (Bool × Progress d))
        (played : Bool × TestResult d)
        → ((pr' : Progress d) → Quiet os x (next pr'))
        → Quiet os x (after_test os d c acm t pr next played)
    unfolding after_test
    after_test-Quiet acm t pr next (ok, out) h =
        if-Keeps os {A = Bool × Progress d} x.holds (not ok) _ _ (λ s p. p)
          (if-Keeps os {A = Bool × Progress d} x.holds (acm && not (is_accepted out.result)) _ _
            (λ s p. p)
            (bind-Keeps os x.holds (leave_verbose os d c t out) _ (leave_verbose-Quiet t out)
              (λ _. h _)))

    run_loop-Quiet :
        (p : Problem d) (run_cmd : Bytes) (acm : Bool) (unset dummies : Vars)
        (tests : List TestFile) (i : ℕ) (pr : Progress d)
        → Quiet os x (run_loop os d c p run_cmd acm unset dummies tests i pr)
    unfolding run_loop
    run_loop-Quiet p run_cmd acm unset dummies [] i pr = λ s q. q
    run_loop-Quiet p run_cmd acm unset dummies (t ∷ tests) i pr =
        let rest = run_loop os d c p run_cmd acm unset dummies tests (i + 1) in
        let enter = enter_verbose os d c t t.verbose in
        let play = run_test os d c p t run_cmd unset dummies pr.info in
        let after : Bool × TestResult d → M os (Bool × Progress d) =
          after_test os d c acm t (note_verbose os d c t.verbose pr) rest in
        bind-Keeps os x.holds (ping os c running [] (pos i) p.id [])
          (λ _. enter >>= λ _. play >>= after) (ping-Quiet running [] (pos i) p.id [])
          (λ _.
            bind-Keeps os x.holds enter (λ _. play >>= after) (enter_verbose-Quiet t t.verbose)
              (λ _.
                bind-Keeps os x.holds play after
                  (run_test-Quiet os d c x stable elsewhere apart p t run_cmd unset dummies pr.info)
                  (λ played.
                    after_test-Quiet acm t (note_verbose os d c t.verbose pr) rest played
                      (run_loop-Quiet p run_cmd acm unset dummies tests (i + 1)))))

    pub run_tests-Quiet :
        (p : Problem d) (run_cmd : Bytes) (result : Status) (info : Option Bytes) (acm : Bool)
        (unset dummies : Vars)
        → Quiet os x (run_tests os d c p run_cmd result info acm unset dummies)
    unfolding run_tests
    run_tests-Quiet p run_cmd result info acm unset dummies =
        bind-Keeps os x.holds
          (run_loop os d c p run_cmd acm unset dummies p.tests 0 (begin d result info))
          (finish os d c)
          (run_loop-Quiet p run_cmd acm unset dummies p.tests 0 (begin d result info)) finish-Quiet
