-- ===== src/Examples/Serving.antt =====
-- The server on the small machine: it tests the submission, until the script has ended.
use bacs_legacy.Base.{
  ℕ, ◌+◌, ◌<◌, ◌*◌, ◌≤◌, ◌≡◌, ◌≢◌, ◌⊎◌, none, All, if_cases, begins, refl, Bool, true, false, some,
  [], ◌∷◌, codes, pos, arith,
}
use bacs_legacy.System.{Server, returned}
use bacs_legacy.Config.{get, get_int}
use bacs_legacy.Def.{status_code}
use bacs_legacy.Problem.{Problem, run_test, judge, verbose_copy, set_no_memory_limit}
use bacs_legacy.TempFile.{create, temp_name}
use bacs_legacy.Submission.{new_submit}
use bacs_legacy.Submit.{compile, compile_and_test, test_submit}
use bacs_legacy.Util.{str_lowercase, dir_from_filename, parse_str, name_from_filename}
use bacs_legacy.Compile.{compile_source}
use bacs_legacy.Util.Replace.{str_replace}
use bacs_legacy.Util.Number.{i2s, scan_int, s2i}
use bacs_legacy.Util.Format.{c_str, format}
use bacs_legacy.Run.ResultFile.{scan_results}
use bacs_legacy.Problem.Init.{init, destroy, init_iofiles, init_checker, init_tests}
use bacs_legacy.Database.Engine.{escape}
use bacs_legacy.TestFile.{parse_id}
use bacs_legacy.Problem.RunTests.{run_tests, record_usage, record_failure}
use bacs_legacy.Run.Fio.{run_fio}
use bacs_legacy.Ping.{ping}
use bacs_legacy.Def.Names.{status_text}
use bacs_legacy.Config.{init_config}
use bacs_legacy.Process.{WaitStatus}
use bacs_legacy.Database.{db_qres0, unlock_table}
use bacs_legacy.Queue.{check_new_submits, capture_new_submit}
use bacs_legacy.Database.Engine.{connect}
use bacs_legacy.Problem.Init.Keeps.{init-Ready}
use bacs_legacy.Problem.Init.Tests.{IsNumbered, InOrder, lower_id}
use bacs_legacy.IoName.{check_iofile_name}
use bacs_legacy.Examples.Sorting.{sort-InOrder}
use bacs_legacy.Database.{db_qres, db_query, lock_table}
use bacs_legacy.Bacsd.{short_wait_term, timespec_of, deadline, wait_cycle}
use bacs_legacy.Bacsd.Deadline.{IsEnd, deadline-IsEnd}
use bacs_legacy.Bacsd.Waiting.{Clock, wait_cycle-Returns}
use bacs_legacy.Bacsd.Patience.{wait_cycle-lasts}
use bacs_legacy.Bacsd.Loop.{Memory, by_signal, check_thread_proc}
use bacs_legacy.Bacsd.Loop.Fatal.{check_thread_proc-EndsBySignal}
use bacs_legacy.Bacsd.Main.{main}
use bacs_legacy.Bacsd.Main.Exit.{main-Ends}
use bacs_legacy.Examples.Machine.{Machine, machine, whole, settings, with_script, problem, vars}

abbrev pub script : Server machine
script = with_script (
    codes "0 0 9 9\n"
    ∷ codes "0 0 2048 15\n"
    ∷ codes "0 0 1 1\n"
    ∷ codes "0 0 4096 7\n"
    ∷ codes "0 5 1 1\n"
    ∷ [])

abbrev unconnected : Server machine
unconnected = record script { connected = false }

deadline-IsEnd_example : IsEnd 1500 10 700000000 (deadline (pos 1500) (timespec_of (10, 700000000)))
deadline-IsEnd_example = deadline-IsEnd 1500 10 700000000 (omega arith)

-- The machine's number is its time in seconds.
machine_clock : Clock machine
machine_clock = record {
  now = λ w. w.number * 1000000000;
  reading_normal = λ w. omega arith;
  reading_from = λ w. omega arith;
  reading_to = λ w. omega arith;
  wait_takes = λ sec nsec w h. omega arith;
  system_takes = λ cmd w.
      if_cases (λ (r : WaitStatus × Machine). w.number * 1000000000 ≤ r.1.number * 1000000000)
        (begins cmd (codes "limit_run")) _ _ (λ _. omega arith) (λ _. omega arith);
}

wait_cycle-Returns_example :
    (stop : Bool) × ((wait_cycle machine settings 11 script).0 ≡ returned (some stop))
wait_cycle-Returns_example =
    wait_cycle-Returns machine settings machine_clock 1000 11 script refl refl (omega arith)

waited : (wait_cycle machine settings 11 script).0 ≡ returned (some false)
unfolding wait_cycle ping
waited = refl

wait_cycle-lasts_example :
    machine_clock.now script.world + 1000 * 1000000
    < machine_clock.now (wait_cycle machine settings 11 script).1.world + 1000000000
wait_cycle-lasts_example =
    wait_cycle-lasts machine settings machine_clock 1000 11 script refl waited

abbrev pub memory : Server machine → Memory whole
memory s = record {
  problem = problem;
  acm = false;
  need_info = false;
  unset = vars;
  dummies = vars;
}

pub served :
    (check_thread_proc machine whole settings memory 3 3 [] script).0 ≡ returned (some by_signal)
unfolding check_thread_proc short_wait_term check_new_submits db_qres0 capture_new_submit lock_table
    unlock_table test_submit db_qres get str_lowercase create compile_source str_replace temp_name
    i2s c_str scan_results scan_int get_int s2i init dir_from_filename parse_id parse_str run_tests
    record_usage record_failure run_test judge verbose_copy run_fio name_from_filename ping
    set_no_memory_limit status_text status_code compile compile_and_test new_submit destroy db_query
    init_iofiles init_checker init_tests escape format
served = refl

check_thread_proc-EndsBySignal_example : by_signal ≡ by_signal
check_thread_proc-EndsBySignal_example =
    check_thread_proc-EndsBySignal machine whole settings memory 3 3 [] script by_signal served

abbrev exit_code : ℕ
exit_code = 0

ended : (main machine whole memory (pos 0) true 20 3 3 [] unconnected).0 ≡ returned (some exit_code)
unfolding main init_config bacs_legacy.Log.init check_thread_proc connect short_wait_term
    check_new_submits db_qres0 capture_new_submit lock_table unlock_table test_submit db_qres get
    str_lowercase create compile_source str_replace temp_name i2s c_str scan_results scan_int
    get_int s2i init dir_from_filename parse_id parse_str run_tests record_usage record_failure
    run_test judge verbose_copy run_fio name_from_filename ping set_no_memory_limit status_text
    status_code compile compile_and_test new_submit destroy db_query init_iofiles init_checker
    init_tests escape format
ended = refl

main-Ends_example :
    ((main machine whole memory (pos 0) true 20 3 3 [] unconnected).1.connected ≡ false)
    × ((exit_code ≤ 1) ⊎ ((exit_code ≡ 2) × (pos 0 ≢ pos 0)))
main-Ends_example =
    main-Ends machine whole memory (pos 0) true 20 3 3 [] unconnected exit_code refl ended

abbrev empty : Problem whole
empty = record problem { tests = [] }

abbrev prepared : Problem whole
prepared = record problem {
  time_limit_s = pos 0;
  memory_limit_mib = pos 0;
  checker_return = codes "bacs_legacy";
  tests =
      record {
        id = pos 1;
        file_in = codes "/p/1/tests/1.in";
        file_out = none;
        verbose = some (codes "/t/1/1");
      }
      ∷ record {
        id = pos 2;
        file_in = codes "/p/1/tests/2.in";
        file_out = none;
        verbose = some (codes "/t/1/2");
      }
      ∷ [];
}

ready :
    (init machine whole settings empty (codes "1") (codes "1") script).0 ≡ returned (true, prepared)
unfolding init get dir_from_filename parse_id parse_str scan_int get_int s2i init_iofiles
    init_checker init_tests i2s c_str format db_qres db_qres0 name_from_filename
ready = refl

init-Ready_example :
    ((check_iofile_name (codes "STDIN") ≡ true) × (check_iofile_name (codes "STDOUT") ≡ true))
    × (All IsNumbered prepared.tests × InOrder lower_id prepared.tests)
init-Ready_example =
    init-Ready machine whole settings empty (codes "1") (codes "1") script prepared sort-InOrder
      refl ready
