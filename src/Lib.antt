-- ===== src/Lib.antt =====
-- The judge server of this repository: it takes submissions from a database, compiles them, runs
-- them on the tests of a problem under limits, has the outputs judged by a checker, and stores the
-- verdict.
--
-- The parts, and the files that model them (paths from the repository's root):
--
--   src/bin/checkdef.cpp        Checkdef, Checkdef/Main. The default checker on lists of bytes. A
--     stream is what is unread and the end-of-file mark; the loop runs on fuel, one more than the
--     length of the output, which Checkdef/Verdict shows to be enough for every two texts.
--   src/bin/limit_run.cpp       LimitRun (the loop of the parent, the classification of the end,
--     the result file), LimitRun/Start (the arguments, and the limits that the child sets) and
--     LimitRun/Main (the calls of the child, and main). The polls of the parent are a list, what
--     the system answers is an argument, and how a child ended is Process.WaitStatus.
--   src/bin/java_compile.c, java_run.c, wipe.c    Helpers, Helpers/JavaCompile and Helpers/Wipe. The
--     entries that `nftw` visits are an argument.
--   include/bacs/legacy/def.hpp, src/lib/helper.cpp    Def and Def/Names (the statuses, their numbers
--     and texts), Compile (lang_str), Database (lock).
--   src/lib/util.cpp            Util (strings), Util/Number (int and its decimal text, with `%d` of
--     scanf), Util/Format (the buffer of `format`), Util/Replace (str_replace on fuel: the number
--     of rounds, as the C++ loop need not end). Its functions on files are in TempFile, Run/Fio and
--     Problem/Init.
--   src/lib/config.cpp, src/lib/common.cpp    Config (the settings and init_config), IoName
--     (check_iofile_name), TestFile (tests_sort_func), Compile (compile_source), Queue
--     (check_new_submits, capture_new_submit).
--   src/lib/log.cpp             Log. The other parts do not run the engine; they record their calls
--     of the log in order.
--   src/lib/tempfiles.cpp       TempFile. The loop of gen_unique_filename is bounded by the field
--     `attempts` of Config.Settings, which is no variable of the program.
--   src/lib/run.cpp             Run, Run/ResultFile, Run/Fio.
--   src/lib/test.cpp            TestFile.
--   src/lib/problem.cpp         Problem (run_test), Problem/Checker (get_checker_result),
--     Problem/RunTests (run_tests), Problem/Init (init and its parts, find_files).
--   src/lib/submit.cpp          Submission (the data of CSubmit, its constructor and store_result)
--     and Submit (the other members, and test_submit).
--   src/lib/db.cpp              Database/Engine (CDBEngine and CDBQuery; of the handle of the
--     connection the state holds whether it is null) and Database (the queries).
--   src/bin/bacsd.cpp           Bacsd (the waits for signals), Bacsd/Loop (check_thread_proc) and
--     Bacsd/Main (main). Its three endless loops run on fuel, with the result `none` where it is
--     not enough; Bacsd/Waiting shows how much the loop of wait_cycle needs.
--   include/bacs/legacy/common.hpp   Ping (ping), and the classes of the parts above.
--
-- How the parts interact. What the server calls and does not implement is the record System.Os:
-- the file system, `system`, the clock and the signals, the database client, the random numbers,
-- boost and the package repository. Its fields are parameters: a theorem that needs a promise of
-- one of them has it as a hypothesis (TempFile.Trace.Traces and Database.Updates.Records, which
-- are records of calls, Run.Fio.Steps.Apart, Bacsd.Waiting.Clock, Problem.Init.Parts.Sorts). A
-- function of the server is an action System.M on the state System.Server, which holds the world,
-- the counter of the file names, whether there is a connection to the database, and the calls of
-- the log; an action returns a value or crashes, by an exception that nothing catches or by
-- undefined behaviour, of which nothing is said then. System/Triples is about what holds before
-- and after an action, and System/Facts about what the calls of the system leave true. The
-- launcher is reached by `system` in Run.run_limited and through its result file; the default
-- checker is a program that the launcher runs, and Problem/Checker/Default joins the two ends, as
-- Problem/Deserved does for the launcher and the verdict on a solution. Variables that C++ passes
-- by reference are arguments and results, and variables that are read without having been set are
-- arguments (`unset`, `dummies`), so that the theorems hold for all of their values. `double` is
-- the record Double.Double, whose arithmetic is a parameter.
--
-- Strings are lists of bytes, an `int` is an integer of Base/Int with IsInt for its range, and
-- `codes` gives the bytes of a literal. The positions in a string that the C++ code casts to `int` in
-- str_replace and check_iofile_name are natural numbers: strings are shorter than 2^31 bytes there.
-- A call that writes a file may write any part of the text, as `create` does not look at the
-- results of fwrite and fclose.
--
-- Not modelled: the Python helper in src/bin, what the programs print on the console, init_env of
-- the server, the copies of testlib, failures of open, dup2 and setrlimit in the child of the
-- launcher (their results are not looked at), a failed mysql_init or mysql_store_result, and a read
-- error of a stream in checkdef.cpp other than the end of the file.
--
-- Examples has tests on a small machine, Examples/Machine, and the theorems at concrete inputs.

pub mod Bacsd
pub mod Base
pub mod Checkdef
pub mod Def
pub mod Util
pub mod IoName
pub mod TestFile
pub mod Process
pub mod LimitRun
pub mod Run
pub mod System
pub mod Config
pub mod TempFile
pub mod Log
pub mod Double
pub mod Ping
pub mod Database
pub mod Compile
pub mod Problem
pub mod Submission
pub mod Submit
pub mod Queue
pub mod Helpers
pub mod Examples
