-- ===== src/Examples/Launcher.antt =====
-- Runs of the launcher, and the log.
use bacs_legacy.Base.{
  ℕ, ◌+◌, ◌*◌, ◌≤◌, ◌<◌, ◌≡◌, ◌≢◌, ◌↔◌, refl, true, false, none, some, List, [], ◌∷◌, Bytes, codes,
  pos, All, arith,
}
use bacs_legacy.Process.{exited}
use bacs_legacy.Def.{run_ok, run_out_of_memory}
use bacs_legacy.Util.{name_from_filename}
use bacs_legacy.Util.Number.{s2i, i2s}
use bacs_legacy.LimitRun.{Results, Poll, classify, watch, write_results}
use bacs_legacy.LimitRun.Watch.{InTime, EndsWell, watch_ok_iff}
use bacs_legacy.LimitRun.Start.{Launch, launch, start, child_limits}
use bacs_legacy.LimitRun.Start.Java.{child_limits_cpu, java_memory}
use bacs_legacy.Run.ResultFile.{scan_results, scan_results-write_results}
use bacs_legacy.Log.{LogEngine, new_log, init, opened}

abbrev two_polls : List Poll
two_polls = record { usage = none; now = 101 } ∷ record { usage = none; now = 131 } ∷ []

watch_ok_iff_example :
    ((watch (pos 1000) (pos 0) 100 two_polls none (exited 0)).result ≡ run_ok) ↔ (
      All (InTime (pos 1000) (pos 0) 100 none (exited 0)) two_polls
      × EndsWell (pos 1000) (pos 0) 100 none (exited 0))
watch_ok_iff_example = watch_ok_iff (pos 1000) (pos 0) 100 none (exited 0) two_polls

abbrev args : List Bytes
args =
    codes "limit_run"
    ∷ codes "/d"
    ∷ codes "in"
    ∷ codes "out"
    ∷ codes "1500"
    ∷ codes "65536"
    ∷ codes "no"
    ∷ codes "/opt/java_run"
    ∷ codes "Main"
    ∷ []

abbrev java : Launch
java = record {
  cwd = codes "/d";
  in_fn = codes "in";
  out_fn = codes "out";
  time_limit = pos 1500;
  memory_limit = pos 0;
  redirect_stderr = false;
  executable = codes "/opt/java_run";
  argv = codes "/opt/java_run" ∷ codes "-Xmx65536" ∷ codes "-Xss65536" ∷ codes "Main" ∷ [];
}

starts : start args ≡ launch java
unfolding start s2i i2s name_from_filename
starts = refl

child_limits_cpu_example :
    (soft : ℕ) × ((child_limits java).cpu ≡ some (soft, soft + 1))
    × (1500 < soft * 1000)
    × (soft * 1000 ≤ 2500)
child_limits_cpu_example = child_limits_cpu java 1499 refl (omega arith)

java_memory_example :
    ((child_limits java).address_space ≡ none)
    × ((classify (pos 1500) (pos 0) none (exited 0)).result ≢ run_out_of_memory)
unfolding name_from_filename
java_memory_example = java_memory args java none (exited 0) starts refl

abbrev results : Results
results = record { result = pos 2; exit_code = pos 1; memory_used = pos 4096; time_used = pos 1501 }

scan_results-write_results_example : scan_results (pos 0) (pos 0) (write_results results) ≡ record {
  res = pos 2;
  ex_code = pos 1;
  memory_used = pos 4096;
  time_used = pos 1501;
  conversions = 4;
}
scan_results-write_results_example =
    scan_results-write_results results (pos 0) (pos 0) (omega arith) (omega arith) (omega arith)
      (omega arith)

abbrev both : LogEngine
both = record new_log { is_init = true; is_cout = true; is_fout = true; f = opened }

both_start : init (codes "both") true new_log ≡ some (true, both)
unfolding init
both_start = refl
