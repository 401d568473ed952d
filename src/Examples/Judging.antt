-- ===== src/Examples/Judging.antt =====
-- Runs of tests on the small machine.
use bacs_legacy.Base.{
  ◌≡◌, ◌⊎◌, inl, inr, refl, true, false, Option, none, some, List, [], ◌∷◌, Bytes, codes, pos,
  negsuc, ◌=ₛ◌, if◌then◌else◌,
}
use bacs_legacy.Def.{status_code, server_error, accepted, wrong_answer}
use bacs_legacy.Process.{signaled}
use bacs_legacy.LimitRun.{classify, over}
use bacs_legacy.System.{Server, returned}
use bacs_legacy.Util.Format.{c_str}
use bacs_legacy.Util.Number.{scan_int, i2s, s2i}
use bacs_legacy.Ping.{ping}
use bacs_legacy.Config.{get, get_int}
use bacs_legacy.TempFile.{temp_name}
use bacs_legacy.Run.ResultFile.{scan_results}
use bacs_legacy.Run.Fio.{run_fio}
use bacs_legacy.Problem.{TestResult, run_test, judge, verbose_copy, after_checker, add_output}
use bacs_legacy.Problem.Checker.Outcomes.{test_outcome}
use bacs_legacy.Problem.Judge.{run_test-done}
use bacs_legacy.Problem.Stopped.{after_checker_stopped}
use bacs_legacy.Problem.Checker.Default.{main-status, status_of}
use bacs_legacy.Checkdef.Verdict.{strip_end}
use bacs_legacy.Checkdef.Main.{main}
use bacs_legacy.Problem.RunTests.{Progress, run_tests, record_usage, record_failure, record_school}
use bacs_legacy.Problem.RunTests.History.School.{SchoolRound, run_tests-SchoolRound}
use bacs_legacy.Problem.RunTests.History.Acm.{Passed, Failed, run_tests-AcmRound}
use bacs_legacy.Problem.RunTests.History.Outcomes.{is_outcome, run_tests-outcome}
use bacs_legacy.Examples.Machine.{machine, whole, settings, with_script, test_of, problem, vars}

-- Both files hold the same line, one of them without its end.
abbrev answers : Bytes → Option Bytes
answers name = if name =ₛ codes "out" then some (codes "5") else some (codes "5\n")

-- The first test is passed, and the checker finds a wrong answer in the second.
abbrev script : Server machine
script =
    with_script
      (codes "0 0 2048 15\n" ∷ codes "0 0 1 1\n" ∷ codes "0 0 4096 7\n" ∷ codes "0 1 1 1\n" ∷ [])

abbrev passed : TestResult whole
passed = record { result = accepted; time_used = pos 15; memory_used = pos 2048; info = none }

first_test :
    (run_test machine whole settings problem (test_of 1) (codes "prog") vars vars none script).0
    ≡ returned (true, passed)
unfolding run_test run_fio get get_int c_str scan_results scan_int i2s s2i judge verbose_copy
    temp_name
first_test = refl

run_test-done_example : some true ≡ test_outcome accepted
run_test-done_example =
    run_test-done machine whole settings problem (test_of 1) (codes "prog") vars vars none script
      true passed first_test

abbrev acm_end : Progress whole
acm_end = record {
  result = wrong_answer;
  first_res = wrong_answer;
  max_time = pos 15;
  max_memory = pos 4096;
  test_num_failed = pos 2;
  test_results = [];
  info = none;
  verbose_path = none;
}

acm_round :
    (run_tests machine whole settings problem
      (codes "prog")
      server_error
      none
      true
      vars
      vars
      script).0
    ≡ returned (true, acm_end)
unfolding run_tests run_test run_fio get get_int c_str scan_results scan_int i2s s2i judge
    verbose_copy temp_name ping record_usage record_failure
acm_round = refl

run_tests-AcmRound_example :
    (Passed machine whole settings problem (codes "prog") vars vars problem.tests
      × (pos 2 ≡ negsuc 0)
      × (wrong_answer ≡ accepted))
    ⊎ Failed machine whole settings problem
        (codes "prog")
        vars
        vars
        problem.tests
        (pos 2)
        wrong_answer
run_tests-AcmRound_example =
    run_tests-AcmRound machine whole settings problem (codes "prog") vars vars server_error none
      script acm_end acm_round

abbrev school_end : Progress whole
school_end = record {
  result = wrong_answer;
  first_res = wrong_answer;
  max_time = pos 15;
  max_memory = pos 4096;
  test_num_failed = negsuc 0;
  test_results = codes "1,6";
  info = none;
  verbose_path = none;
}

school_round :
    (run_tests machine whole settings problem
      (codes "prog")
      server_error
      none
      false
      vars
      vars
      script).0
    ≡ returned (true, school_end)
unfolding run_tests run_test run_fio get get_int c_str scan_results scan_int i2s s2i judge
    verbose_copy temp_name ping record_usage record_school status_code
school_round = refl

run_tests-SchoolRound_example :
    (outs : List (TestResult whole)) × SchoolRound machine whole settings problem
      (codes "prog")
      vars
      vars
      outs
      school_end
run_tests-SchoolRound_example =
    run_tests-SchoolRound machine whole settings problem (codes "prog") vars vars server_error none
      script school_end school_round

run_tests-outcome_example : is_outcome wrong_answer ≡ true
run_tests-outcome_example =
    run_tests-outcome machine whole settings problem (codes "prog") server_error none false vars
      vars script true school_end refl school_round

stopped_result : (classify (pos 1000) (pos 0) none (signaled 25)).result ≡ pos 6
unfolding classify over
stopped_result = refl

after_checker_stopped_example :
    after_checker machine whole settings problem
      (test_of 1)
      (codes "check")
      (classify (pos 1000) (pos 0) none (signaled 25)).result
      (classify (pos 1000) (pos 0) none (signaled 25)).exit_code
      []
      none
      script
    ≡ (returned (true, accepted, add_output machine whole settings none []), script)
after_checker_stopped_example =
    after_checker_stopped machine whole settings problem (test_of 1) (codes "check") (pos 1000)
      (pos 0) none 25 [] none script (inr (inl stopped_result)) (inr (inr (inl refl))) refl

main-status_example :
    status_of (main (codes "check" ∷ codes "in" ∷ codes "out" ∷ codes "hint" ∷ []) answers)
    ≡ some accepted
unfolding strip_end
main-status_example = main-status (codes "check") (codes "in") (codes "out") (codes "hint") answers

-- A machine without files: every name for a temporary file is free.
