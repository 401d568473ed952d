-- ===== src/Examples/Machine.antt =====
-- A small machine, to run the server on: files in a list, a database with one row and one lock, and a
-- launcher that writes the results of a script.
use bacs_legacy.Base.{
  ℕ, ◌+◌, Bool, true, false, Option, none, some, List, [], ◌∷◌, ◌++◌, Bytes, codes, ℤ, pos, ◌=ₛ◌,
  ltb_ℤ, if◌then◌else◌, begins,
}
use bacs_legacy.Util.Number.{i2s, s2i}
use bacs_legacy.Process.{WaitStatus, exited}
use bacs_legacy.Double.{Double}
use bacs_legacy.System.{Os, Server}
use bacs_legacy.Config.{Settings, order_random}
use bacs_legacy.TestFile.{TestFile}
use bacs_legacy.Run.{Vars}
use bacs_legacy.Problem.{Problem}
use bacs_legacy.Examples.Sorting.{sort}

abbrev pub Table : Type 0
Table = List (Bytes × Bytes)

abbrev pub find : Table → Bytes → Option Bytes
find [] key = none
find ((k, v) ∷ rest) key = if k =ₛ key then some v else find rest key

abbrev pub forget : Table → Bytes → Table
forget [] key = []
forget ((k, v) ∷ rest) key = if k =ₛ key then forget rest key else (k, v) ∷ forget rest key

pub record Machine : Type 0 where
  pub files : Table
  pub number : ℕ
  pub script : List Bytes
  pub locked : Bool

abbrev launched : List Bytes → Bytes
launched [] = codes "1 0 0 0"
launched (r ∷ rest) = r

abbrev next : List Bytes → List Bytes
next [] = []
next (r ∷ rest) = rest

-- The launcher takes the next result of the script; every other command does nothing.
abbrev machine_system : Bytes → Machine → WaitStatus × Machine
machine_system cmd w =
    if begins cmd (codes "limit_run")
    then (
      exited 0,
      record w { files = (codes "result", launched w.script) ∷ w.files; script = next w.script },
    )
    else (exited 0, w)

abbrev pub machine_stat : Bytes → Machine → Option Bool
machine_stat fn w = elim (find w.files fn) [ none ↦ none | some text ↦ some false ]

abbrev machine_remove : Bytes → Machine → ℤ × Machine
machine_remove fn w = (pos 0, record w { files = forget w.files fn })

abbrev row : List (Option Bytes)
row =
    some (codes "1")
    ∷ some (codes "cpp")
    ∷ some (codes "int main() {}")
    ∷ some (codes "1")
    ∷ some (codes "1")
    ∷ []

abbrev machine_query : Bytes → Machine → Option (List (List (Option Bytes))) × Machine
machine_query q w =
    let locks = begins q (codes "select get_lock") in
    let frees = begins q (codes "select release_lock") in
    (
      some (row ∷ []),
      record w { locked = if locks then true else if frees then false else w.locked },
    )

abbrev pub server_config : Bytes → Option Bytes
server_config = find (
    (codes "general.temp_dir", codes "/t")
    ∷ (codes "general.test_dir", codes "/d")
    ∷ (codes "general.limit_run_exe", codes "limit_run")
    ∷ (codes "general.limit_run_result_file", codes "result")
    ∷ (codes "general.problem_archive_dir", codes "/p")
    ∷ (codes "general.default_checker", codes "check")
    ∷ (codes "general.order", codes "rand")
    ∷ (codes "log.output", codes "none")
    ∷ (codes "langs.config", codes "langs.conf")
    ∷ [])

abbrev pub langs_config : Bytes → Option Bytes
langs_config = find (
    (codes "cpp.name", codes "C++")
    ∷ (codes "cpp.compile", codes "g++ {src}")
    ∷ (codes "cpp.exefile", codes "prog")
    ∷ (codes "cpp.run", codes "prog")
    ∷ [])

-- A signal comes when the script has ended.
abbrev is_empty : List Bytes → Bool
is_empty [] = true
is_empty (r ∷ rest) = false

abbrev pub machine : Os
machine = record {
  World = Machine;
  system = machine_system;
  stat = machine_stat;
  read_file = λ fn w. find w.files fn;
  write_file = λ fn text w. some (record w { files = (fn, text) ∷ w.files });
  remove = machine_remove;
  rename = λ from to w. (pos 0, w);
  chmod = λ fn mode w. (pos 0, w);
  unlink = machine_remove;
  mkdir = λ fn mode w. (pos 0, w);
  rmdir = machine_remove;
  link = λ from to w. (pos 0, w);
  clock = λ w. ((w.number, 0), record w { number = w.number + 1 });
  wait_signal = λ sec nsec w. (is_empty w.script, record w { number = w.number + (sec + nsec) });
  read_ini = λ fn w. some (
      if fn =ₛ codes "bacs2.conf"
      then server_config
      else if fn =ₛ codes "langs.conf"
      then langs_config
      else (λ key. none));
  sort = sort;
  strerror = λ e. codes "error";
  print_status = λ n. i2s (pos n);
  random = λ w. (w.number, record w { number = w.number + 1 });
  rand = λ w. (w.number, record w { number = w.number + 1 });
  create_directories = λ fn w. some w;
  remove_all = λ fn w. some w;
  copy_file = λ from to w. some w;
  exists = λ fn w. false;
  list_dir = λ fn w. some (codes "2.in" ∷ codes "1.in" ∷ []);
  query = machine_query;
  mysql_real_connect = λ reconnect host user pass database port w. (true, w);
  mysql_close = λ w. w;
  mysql_errno = λ w. pos 0;
  mysql_error = λ w. [];
  what = λ w. [];
  escape = λ s. s;
  extract = λ archive dir w. some w;
}

-- Times in milliseconds and sizes in bytes, in place of `double`.
abbrev pub whole : Double
whole = record {
  Carrier = ℤ;
  zero_value = pos 0;
  less = ltb_ℤ;
  of_ms = λ t. t;
  of_bytes = λ m. m;
  to_ms = λ t. t;
  to_bytes = λ m. m;
  parse = λ s. some (s2i s (pos 0));
  print = i2s;
  print_lf = i2s;
  print_3lf = i2s;
}

abbrev pub settings : Settings
settings = record {
  config = record { table = server_config };
  langs = record { table = langs_config };
  submits_delay = pos 1000;
  compiler_timeout = pos 10000;
  compiler_memoryout = pos 0;
  checker_timeout = pos 10000;
  max_idle_time = pos 0;
  ping_period = pos 10;
  ping_uri = [];
  order = order_random;
  verbose_tests_copy = [];
  verbose_tests_server = [];
  langs_config = codes "langs.conf";
  uid = pos 1;
  gid = pos 1;
  attempts = 20;
}

-- A machine that has the files of a problem and of a compiled program.
abbrev pub with_script : List Bytes → Server machine
with_script script = record {
  world = record {
    files =
        (codes "prog", [])
        ∷ (codes "check", [])
        ∷ (codes "/p/1/tests/1.in", [])
        ∷ (codes "/p/1/tests/2.in", [])
        ∷ [];
    number = 5;
    script = script;
    locked = false;
  };
  counter = 0;
  connected = true;
  events = [];
}

abbrev pub test_of : ℕ → TestFile
test_of n = record {
  id = pos n;
  file_in = i2s (pos n) ++ codes ".in";
  file_out = none;
  verbose = none;
}

abbrev pub problem : Problem whole
problem = record {
  fatal_error = false;
  is_tests_init = true;
  time_limit_s = pos 1000;
  memory_limit_mib = pos 65536;
  id = codes "1";
  input_fn = codes "STDIN";
  output_fn = codes "STDOUT";
  tests = test_of 1 ∷ test_of 2 ∷ [];
  checker = codes "check";
  checker_return = codes "testlib";
  cf = record { table = λ key. none };
}

abbrev pub vars : Vars
vars = record { ex_code = pos 0; memory_used = pos 0; time_used = pos 0 }
