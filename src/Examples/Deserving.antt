-- ===== src/Examples/Deserving.antt =====
-- A run of a program that ends with an exit code, from the launcher to the verdict.
use bacs_legacy.Base.{ℤ, ◌≡◌, refl, false, some, List, [], ◌∷◌, codes, pos, arith}
use bacs_legacy.System.{Server, returned}
use bacs_legacy.Process.{exited}
use bacs_legacy.Config.{get}
use bacs_legacy.Util.Number.{i2s, scan_int}
use bacs_legacy.Util.Format.{c_str}
use bacs_legacy.LimitRun.{Usage, Poll, watch, classify, over, write_results}
use bacs_legacy.Run.{Vars, run_limited, run_command}
use bacs_legacy.Run.ResultFile.{scan_results}
use bacs_legacy.Problem.Deserved.{Deserves, Launched, judged, run_limited-Deserves}
use bacs_legacy.Examples.Machine.{machine, settings, with_script, vars}

abbrev ran : Server machine
ran = with_script (codes "0 3 2048 15\n" ∷ [])

abbrev used : Usage
used = record { utime_sec = 0; utime_usec = 15000; maxrss = 2 }

abbrev polled : List Poll
polled = record { usage = some used; now = 8 } ∷ []

launched :
    Launched machine settings
      (c_str (
        run_command machine settings
          (codes "prog")
          (codes "1.in")
          (codes "out")
          (pos 1000)
          (pos 0)
          false))
      ran.world
      (watch (pos 1000) (pos 0) 7 polled (some used) (exited 3))
unfolding run_command get i2s c_str watch classify over write_results
launched = record { ends_well = refl; writes = refl }

run_limited-Deserves_example :
    (res : ℤ) × (vars' : Vars) × ((run_limited machine settings
        (codes "prog")
        (codes "1.in")
        (codes "out")
        (pos 1000)
        (pos 0)
        false
        vars
        ran).0
      ≡ returned (res, vars'))
    × Deserves (pos 1000) (pos 0) 7 polled (some used) (exited 3) (judged res vars'.ex_code)
run_limited-Deserves_example =
    run_limited-Deserves machine settings (codes "prog") (codes "1.in") (codes "out") (pos 1000)
      (pos 0) false vars ran 7 polled (some used) (exited 3) (omega arith) launched

-- The server sees the exit code.
abbrev seen : Vars
seen = record { ex_code = pos 3; memory_used = pos 2048; time_used = pos 15 }

returns :
    (run_limited machine settings
      (codes "prog")
      (codes "1.in")
      (codes "out")
      (pos 1000)
      (pos 0)
      false
      vars
      ran).0
    ≡ returned (pos 0, seen)
unfolding run_limited run_command get i2s c_str scan_results scan_int
returns = refl
