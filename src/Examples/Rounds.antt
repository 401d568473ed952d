-- ===== src/Examples/Rounds.antt =====
-- The server on the small machine with a database that writes down its queries.
use bacs_legacy.Base.{◌≡◌, refl, true, false, some, [], Bytes, codes}
use bacs_legacy.Def.{status_code}
use bacs_legacy.Def.Names.{status_text}
use bacs_legacy.Problem.{run_test, judge, verbose_copy, set_no_memory_limit}
use bacs_legacy.Problem.Init.{init, destroy, init_iofiles, init_checker, init_tests}
use bacs_legacy.Problem.RunTests.{run_tests, record_usage, record_failure}
use bacs_legacy.Util.{str_lowercase, dir_from_filename, parse_str, name_from_filename}
use bacs_legacy.Util.Replace.{str_replace}
use bacs_legacy.Util.Number.{i2s, scan_int, s2i}
use bacs_legacy.Util.Format.{c_str, format}
use bacs_legacy.Compile.{compile_source}
use bacs_legacy.Run.ResultFile.{scan_results}
use bacs_legacy.Run.Fio.{run_fio}
use bacs_legacy.TestFile.{parse_id}
use bacs_legacy.TempFile.{create, temp_name}
use bacs_legacy.Config.{get, get_int}
use bacs_legacy.Ping.{ping}
use bacs_legacy.System.{Server, returned}
use bacs_legacy.Database.{db_qres, db_qres0, db_query, lock_table, unlock_table}
use bacs_legacy.Database.Engine.{escape}
use bacs_legacy.Database.Updates.{updates}
use bacs_legacy.Queue.{check_new_submits, capture_new_submit}
use bacs_legacy.Submission.{new_submit}
use bacs_legacy.Submit.{compile, compile_and_test, test_submit}
use bacs_legacy.Bacsd.{short_wait_term}
use bacs_legacy.Bacsd.Loop.{Memory, by_signal, check_thread_proc}
use bacs_legacy.Bacsd.Loop.Served.{Served, check_thread_proc-Served}
use bacs_legacy.Examples.Machine.{whole, settings, problem, vars}
use bacs_legacy.Examples.Recording.{recording, sent, recording-Records}
use bacs_legacy.Examples.Serving.{script}

abbrev start : Server recording
start = record { world = (script.world, [], []); counter = 0; connected = true; events = [] }

abbrev memory : Server recording → Memory whole
memory s = record {
  problem = problem;
  acm = false;
  need_info = false;
  unset = vars;
  dummies = vars;
}

served :
    (check_thread_proc recording whole settings memory 3 3 [] start).0 ≡ returned (some by_signal)
unfolding check_thread_proc short_wait_term check_new_submits db_qres0 capture_new_submit lock_table
    unlock_table test_submit db_qres get str_lowercase create compile_source str_replace temp_name
    i2s c_str scan_results scan_int get_int s2i init dir_from_filename parse_id parse_str run_tests
    record_usage record_failure run_test judge verbose_copy run_fio name_from_filename ping
    set_no_memory_limit status_text status_code compile compile_and_test new_submit destroy db_query
    init_iofiles init_checker init_tests escape format
served = refl

-- One submission is tested, and then a signal ends the loop.
check_thread_proc-Served_example :
    Served recording whole settings sent []
      (updates (sent (check_thread_proc recording whole settings memory 3 3 [] start).1.world))
check_thread_proc-Served_example =
    check_thread_proc-Served recording whole settings memory sent recording-Records 3 3 [] start
      (some by_signal) refl served

-- The name of the first temporary file that the machine makes.
abbrev temp : Bytes
temp = codes "/t/_0000000.tmp"
