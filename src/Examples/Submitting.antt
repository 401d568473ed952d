-- ===== src/Examples/Submitting.antt =====
-- Submissions, the queue and the temporary files on the small machine.
use bacs_legacy.Base.{
  ◌≡◌, ◌≤◌, refl, true, false, some, [], ◌∷◌, ◌++◌, ◌-◌, ◌<◌, Bytes, codes, pos, negsuc, ◌=ₛ◌,
  length, if◌then◌else◌, arith,
}
use bacs_legacy.System.{Os, Server, returned}
use bacs_legacy.Config.{Settings, cfgi, get, get_int}
use bacs_legacy.Def.{compile_ok, wrong_answer, server_error, status_code}
use bacs_legacy.Problem.{run_test, judge, verbose_copy, set_no_memory_limit}
use bacs_legacy.TempFile.{TempFile, unused, assign, detach, create, temp_name}
use bacs_legacy.Database.{db_query, unlock_table, lock_table, db_qres}
use bacs_legacy.Queue.{capture_new_submit}
use bacs_legacy.Queue.Lock.{capture_new_submit-free}
use bacs_legacy.Submission.{Submission, new_submit}
use bacs_legacy.Submit.{compile, compile_and_test, test_submit}
use bacs_legacy.Submit.Compiling.{Compiles}
use bacs_legacy.Submission.{store_query}
use bacs_legacy.Submission.Query.{store_query-names}
use bacs_legacy.Submit.Ends.{Ends, compile-Ends}
use bacs_legacy.Submit.Always.{test_submit-true}
use bacs_legacy.Util.{str_lowercase, dir_from_filename, parse_str, name_from_filename}
use bacs_legacy.Compile.{Compiled, compile_source}
use bacs_legacy.Compile.Fits.{compile_source-LogFits}
use bacs_legacy.Util.Replace.{str_replace}
use bacs_legacy.Util.Number.{i2s, scan_int, s2i}
use bacs_legacy.Util.Format.{c_str, format, max_big_buf}
use bacs_legacy.Run.ResultFile.{scan_results}
use bacs_legacy.Problem.Init.{init, destroy, init_iofiles, init_checker, init_tests}
use bacs_legacy.Database.Engine.{escape}
use bacs_legacy.TestFile.{parse_id}
use bacs_legacy.Problem.RunTests.{run_tests, record_usage, record_failure}
use bacs_legacy.Run.Fio.{run_fio}
use bacs_legacy.Ping.{ping}
use bacs_legacy.Def.Names.{status_text}
use bacs_legacy.Examples.Machine.{
  machine, find, server_config, whole, settings, with_script, problem, vars, Machine,
}

-- The compiler works, and the solution passes the first test and not the second.
abbrev pub script : Server machine
script = with_script (
    codes "0 0 9 9\n"
    ∷ codes "0 0 2048 15\n"
    ∷ codes "0 0 1 1\n"
    ∷ codes "0 0 4096 7\n"
    ∷ codes "0 5 1 1\n"
    ∷ [])

pub submitted :
    (test_submit machine whole settings problem false false (codes "1") vars vars script).0
    ≡ returned true
unfolding test_submit db_qres get str_lowercase create compile_source str_replace temp_name i2s
    c_str scan_results scan_int get_int s2i init dir_from_filename parse_id parse_str run_tests
    record_usage record_failure run_test judge verbose_copy run_fio name_from_filename ping
    set_no_memory_limit status_text status_code compile compile_and_test new_submit destroy db_query
    init_iofiles init_checker init_tests escape
submitted = refl

test_submit-true_example : true ≡ true
test_submit-true_example =
    test_submit-true machine whole settings problem false false (codes "1") vars vars script true
      submitted

abbrev pub first : Submission whole
first = record {
  sid = codes "1";
  pid = codes "1";
  lang = codes "cpp";
  solution = codes "int main() {}";
  test_results = [];
  acm = true;
  need_info = true;
  status = server_error;
  test_num_failed = negsuc 0;
  info = [];
  fatal_error = false;
  not_found = false;
  run_file = unused;
  run_cmd = [];
  max_time = pos 0;
  max_memory = pos 0;
  src_file = unused;
}

abbrev source : TempFile
source = assign (codes "/t/_0000000.tmp")

abbrev compiled : Submission whole
compiled = record first {
  run_file = assign (codes "prog");
  run_cmd = codes "prog";
  src_file = source;
}

first_compiles : (compile machine whole settings first vars script).0 ≡ returned (true, compiled)
unfolding test_submit db_qres get str_lowercase create compile_source str_replace temp_name i2s
    c_str scan_results scan_int get_int s2i init dir_from_filename parse_id parse_str run_tests
    record_usage record_failure run_test judge verbose_copy run_fio name_from_filename ping
    set_no_memory_limit status_text status_code compile compile_and_test new_submit destroy db_query
    init_iofiles init_checker init_tests escape
first_compiles = refl

compile-Ends_example :
    Ends machine whole settings first vars compiled true
    × Compiles machine whole settings first true compiled
compile-Ends_example =
    compile-Ends machine whole settings first vars script true compiled first_compiles

abbrev pub finished : Submission whole
finished = record compiled {
  run_file = detach (assign (codes "prog"));
  status = wrong_answer;
  test_num_failed = pos 2;
  max_time = pos 15;
  max_memory = pos 4096;
}

first_finishes :
    (compile_and_test machine whole settings problem first vars vars script).0
    ≡ returned (true, finished)
unfolding test_submit db_qres get str_lowercase create compile_source str_replace temp_name i2s
    c_str scan_results scan_int get_int s2i init dir_from_filename parse_id parse_str run_tests
    record_usage record_failure run_test judge verbose_copy run_fio name_from_filename ping
    set_no_memory_limit status_text status_code compile compile_and_test new_submit destroy db_query
    init_iofiles init_checker init_tests escape
first_finishes = refl

abbrev Unlocked : Machine → Type 0
Unlocked w = w.locked ≡ false

captured : (capture_new_submit machine settings [] script).0 ≡ returned (codes "1", [])
unfolding capture_new_submit db_qres db_query i2s c_str lock_table unlock_table status_code
captured = refl

took_lock : lock_table machine script ≡ (returned true, (lock_table machine script).1)
unfolding lock_table db_qres
took_lock = refl

capture_new_submit-free_example : Unlocked (capture_new_submit machine settings [] script).1.world
capture_new_submit-free_example =
    capture_new_submit-free machine settings Unlocked [] script (lock_table machine script).1
      (codes "1", []) (λ w. refl) took_lock captured

-- A compiler that writes more than the setting allows.
abbrev chatty : Os
chatty = record machine {
  read_file =
      λ fn w. if fn =ₛ codes "result" then find w.files fn else some (codes "prog.cpp:1: error");
}

abbrev narrow : Settings
narrow = record settings {
  config = record {
    table = λ key.
        if key =ₛ codes "general.max_run_out_size" then some (codes "8") else server_config key;
  };
}

abbrev chat : Server chatty
chat = record { world = script.world; counter = 0; connected = true; events = [] }

abbrev cut_log : Compiled chatty narrow
cut_log = record {
  result = compile_ok;
  run_file = assign (codes "prog");
  run_cmd = codes "prog";
  error_log = codes "prog.cpp";
}

cut :
    (compile_source chatty narrow (codes "a.cpp") (codes "cpp") unused [] [] vars chat).0
    ≡ returned cut_log
unfolding compile_source create get get_int str_lowercase str_replace temp_name i2s c_str s2i
    scan_results scan_int name_from_filename dir_from_filename
cut = refl

narrow_size : cfgi narrow (codes "general.max_run_out_size") ≡ pos 8
unfolding get get_int s2i scan_int
narrow_size = refl

compile_source-LogFits_example : length cut_log.error_log ≤ 8
compile_source-LogFits_example =
    compile_source-LogFits chatty narrow 8 (codes "a.cpp") (codes "cpp") unused [] [] vars chat
      cut_log (omega arith) narrow_size (omega arith) cut

-- The query for the submission that failed on its second test fits.
finished_fits : length (store_query machine whole settings finished []) < max_big_buf - 1
unfolding store_query i2s c_str format status_code
finished_fits = omega arith

store_query-names_example :
    (more : Bytes) × (store_query machine whole settings finished []
      ≡ codes "update submit set result = "
        ++ (i2s (pos (status_code finished.status))
            ++ (codes ", " ++ (more ++ (codes " where submit_id = " ++ c_str finished.sid)))))
store_query-names_example = store_query-names machine whole settings finished [] finished_fits
