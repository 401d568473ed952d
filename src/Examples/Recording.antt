-- ===== src/Examples/Recording.antt =====
-- The small machine with a record of its queries, and of the calls that make and remove files.
use bacs_legacy.Base.{
  ◌≡◌, refl, sym, ap, true, inl, inr, Option-cases, arith, Option, none, some, List, [], ◌∷◌, ◌++◌,
  Bytes,
}
use bacs_legacy.Def.{status_code}
use bacs_legacy.Problem.{run_test, judge, verbose_copy, set_no_memory_limit}
use bacs_legacy.Util.{str_lowercase, dir_from_filename, parse_str, name_from_filename}
use bacs_legacy.Compile.{compile_source}
use bacs_legacy.Util.Replace.{str_replace}
use bacs_legacy.Util.Number.{i2s, scan_int, s2i}
use bacs_legacy.Util.Format.{c_str}
use bacs_legacy.Run.ResultFile.{scan_results}
use bacs_legacy.Problem.Init.{init, destroy, init_iofiles, init_checker, init_tests}
use bacs_legacy.TestFile.{parse_id}
use bacs_legacy.Problem.RunTests.{run_tests, record_usage, record_failure}
use bacs_legacy.Run.Fio.{run_fio}
use bacs_legacy.Ping.{ping}
use bacs_legacy.Def.Names.{status_text}
use bacs_legacy.System.{Os, Server, returned}
use bacs_legacy.Config.{get, get_int}
use bacs_legacy.TempFile.{create, temp_name}
use bacs_legacy.Database.{db_qres, db_query}
use bacs_legacy.Database.Engine.{escape}
use bacs_legacy.TempFile.Trace.{FileCall, wrote, removed, Traces}
use bacs_legacy.Database.Updates.{updates, Records}
use bacs_legacy.Submission.{store_query}
use bacs_legacy.Submit.{compile, compile_and_test}
use bacs_legacy.Submit.Final.{is_final}
use bacs_legacy.Submit.Stores.{compile_and_test-stores}
use bacs_legacy.Examples.Machine.{machine, Machine, whole, settings, problem, vars}
use bacs_legacy.Examples.Submitting.{script, first, finished}

abbrev Recorded : Type 0
Recorded = Machine × List Bytes × List FileCall

abbrev lift : {A : Type 0} → (Machine → A × Machine) → Recorded → A × Recorded
lift f r = ((f r.0).0, ((f r.0).1, r.1, r.2))

abbrev lift_some : (Machine → Option Machine) → Recorded → Option Recorded
lift_some f r = elim (f r.0) [ none ↦ none | some w ↦ some (w, r.1, r.2) ]

abbrev note : FileCall → Recorded → Recorded
note call r = (r.0, r.1, call ∷ r.2)

abbrev noting : FileCall → (Machine → Option Machine) → Recorded → Option Recorded
noting call f r = lift_some f (note call r)

abbrev pub recording : Os
recording = record {
  World = Recorded;
  system = λ cmd. lift (machine.system cmd);
  stat = λ fn r. machine.stat fn r.0;
  read_file = λ fn r. machine.read_file fn r.0;
  write_file = λ fn text. noting (wrote fn) (machine.write_file fn text);
  remove = λ fn r. lift (machine.remove fn) (note (removed fn) r);
  rename = λ from to r. lift (machine.rename from to) (note (wrote to) r);
  chmod = λ fn mode. lift (machine.chmod fn mode);
  unlink = λ fn r. lift (machine.unlink fn) (note (removed fn) r);
  mkdir = λ fn mode. lift (machine.mkdir fn mode);
  rmdir = λ fn. lift (machine.rmdir fn);
  link = λ from to. lift (machine.link from to);
  clock = lift machine.clock;
  wait_signal = λ sec nsec. lift (machine.wait_signal sec nsec);
  read_ini = λ fn r. machine.read_ini fn r.0;
  sort = machine.sort;
  strerror = machine.strerror;
  print_status = machine.print_status;
  random = lift machine.random;
  rand = lift machine.rand;
  create_directories = λ fn. lift_some (machine.create_directories fn);
  remove_all = λ fn. lift_some (machine.remove_all fn);
  copy_file = λ from to. noting (wrote to) (machine.copy_file from to);
  exists = λ fn r. machine.exists fn r.0;
  list_dir = λ fn r. machine.list_dir fn r.0;
  query = λ q r. let (rows, w) = machine.query q r.0 in (rows, (w, r.1 ++ q ∷ [], r.2));
  mysql_real_connect = λ reconnect host user pass database port.
      lift (machine.mysql_real_connect reconnect host user pass database port);
  mysql_close = λ r. r;
  mysql_errno = λ r. machine.mysql_errno r.0;
  mysql_error = λ r. [];
  what = λ r. [];
  escape = machine.escape;
  extract = λ archive dir. lift_some (machine.extract archive dir);
}

abbrev pub sent : Recorded → List Bytes
sent r = r.1

abbrev pub calls : Recorded → List FileCall
calls r = r.2

lift_some-kept :
    (f : Machine → Option Machine) (r r' : Recorded)
    → lift_some f r ≡ some r'
    → (sent r' ≡ sent r) × (calls r' ≡ calls r)
lift_some-kept f r r' e = elim (Option-cases (f r.0)) [
  | inl none_made ↦ absurd (ground arith)
  | inr (w, made) ↦
      let same : (w, r.1, r.2) ≡ r' = ground arith in (sym (ap sent same), sym (ap calls same))
]

pub recording-Records : Records recording sent
recording-Records = record {
  query = λ q w. refl;
  remove = λ fn w. refl;
  write_file =
      λ fn text w w' e. (lift_some-kept (machine.write_file fn text) (note (wrote fn) w) w' e).0;
  copy_file =
      λ from to w w' e. (lift_some-kept (machine.copy_file from to) (note (wrote to) w) w' e).0;
  rename = λ from to w. refl;
  system = λ cmd w. refl;
  chmod = λ fn mode w. refl;
  unlink = λ fn w. refl;
  random = λ w. refl;
  rand = λ w. refl;
  clock = λ w. refl;
  wait_signal = λ sec nsec w. refl;
  create_directories = λ fn w w' e. (lift_some-kept (machine.create_directories fn) w w' e).0;
  remove_all = λ fn w w' e. (lift_some-kept (machine.remove_all fn) w w' e).0;
  extract = λ archive dir w w' e. (lift_some-kept (machine.extract archive dir) w w' e).0;
}

pub recording-Traces : Traces recording calls
recording-Traces = record {
  write_file =
      λ fn text w w' e. (lift_some-kept (machine.write_file fn text) (note (wrote fn) w) w' e).1;
  copy_file =
      λ from to w w' e. (lift_some-kept (machine.copy_file from to) (note (wrote to) w) w' e).1;
  rename = λ from to w. refl;
  remove = λ fn w. refl;
  unlink = λ fn w. refl;
  system = λ cmd w. refl;
  chmod = λ fn mode w. refl;
  random = λ w. refl;
  rand = λ w. refl;
  clock = λ w. refl;
  wait_signal = λ sec nsec w. refl;
  query = λ q w. refl;
  create_directories = λ fn w w' e. (lift_some-kept (machine.create_directories fn) w w' e).1;
  remove_all = λ fn w w' e. (lift_some-kept (machine.remove_all fn) w w' e).1;
  extract = λ archive dir w w' e. (lift_some-kept (machine.extract archive dir) w w' e).1;
}

abbrev start : Server recording
start = record { world = (script.world, [], []); counter = 0; connected = true; events = [] }

recorded :
    (compile_and_test recording whole settings problem first vars vars start).0
    ≡ returned (true, finished)
unfolding db_qres get str_lowercase create compile_source str_replace temp_name i2s c_str
    scan_results scan_int get_int s2i init dir_from_filename parse_id parse_str run_tests
    record_usage record_failure run_test judge verbose_copy run_fio name_from_filename ping
    set_no_memory_limit status_text status_code compile compile_and_test destroy db_query
    init_iofiles init_checker init_tests escape
recorded = refl

compile_and_test-stores_example :
    (escaped : Bytes) × (updates
        (sent (compile_and_test recording whole settings problem first vars vars start).1.world)
      ≡ updates [] ++ store_query recording whole settings finished escaped ∷ [])
    × (is_final finished.status ≡ true)
    × (finished.sid ≡ first.sid)
compile_and_test-stores_example =
    compile_and_test-stores recording whole settings sent recording-Records problem first vars vars
      start true finished refl refl recorded
