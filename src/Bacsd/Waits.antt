-- ===== src/Bacsd/Waits.antt =====
-- The waits of src/bin/bacsd.cpp leave true what the calls of the system leave true.
use bacs_legacy.Base.{
  ℕ, zero, suc, Bool, true, false, Option, some, [], pos, negsuc, ◌==ℤ◌, ◌==◌, ◌%◌, ◌+◌,
  if◌then◌else◌,
}
use bacs_legacy.Double.{Double}
use bacs_legacy.System.{Os, M, ◌>>=◌, ◌>>◌, pure, crash, run_os, when}
use bacs_legacy.System.Triples.{bind-Keeps, if-Keeps, when-Keeps, run_os-Keeps}
use bacs_legacy.System.Facts.{Fact, Stable, Quiet}
use bacs_legacy.Config.{Settings}
use bacs_legacy.Ping.{waiting, userterm}
use bacs_legacy.Problem.RunTests.Owned.{ping-Quiet}
use bacs_legacy.Bacsd.{
  Timespec, timespec_of, deadline, passed, to_size, ping_only, wait_term, short_wait_term,
  ping_waiting, wait_rounds, wait_cycle,
}

module _ (os : Os) (d : Double) (c : Settings) (x : Fact os) (stable : Stable os x) where
  ping_waiting-Quiet : (counter : ℕ) → Quiet os x (ping_waiting os c counter)
  unfolding ping_waiting
  ping_waiting-Quiet counter =
      let due = counter % to_size c.ping_period == 0 in
      if-Keeps os x.holds (c.ping_period ==ℤ pos 0) crash (when due (ping_only os c waiting))
        (λ s p. tt)
        (when-Keeps os x.holds due (ping_only os c waiting)
          (ping-Quiet os d c x stable waiting [] (negsuc 0) [] []))

  wait_term-Quiet : (sec nsec : ℕ) → Quiet os x (wait_term os c sec nsec)
  unfolding wait_term
  wait_term-Quiet sec nsec =
      let wait = os.wait_signal sec nsec in
      let tell : Bool → M os (Unit {0}) = λ came. when came (ping_only os c userterm) in
      bind-Keeps os x.holds (run_os wait) (λ came. tell came >> pure came)
        (run_os-Keeps os x.holds wait (stable.wait_signal_kept sec nsec))
        (λ came.
          bind-Keeps os x.holds (tell came) (λ _. pure came)
            (when-Keeps os x.holds came (ping_only os c userterm)
              (ping-Quiet os d c x stable userterm [] (negsuc 0) [] []))
            (λ _ s p. p))

  pub short_wait_term-Quiet : Quiet os x (short_wait_term os c)
  unfolding short_wait_term
  short_wait_term-Quiet = wait_term-Quiet 0 1000000

  wait_rounds-Quiet :
      (fuel counter : ℕ) (end : Timespec) → Quiet os x (wait_rounds os c fuel counter end)
  unfolding wait_rounds
  wait_rounds-Quiet zero counter end = λ s p. p
  wait_rounds-Quiet (suc fuel) counter end =
      let next : M os (Option Bool) = wait_rounds os c fuel ((counter + 1) % 1000) end in
      let late : ℕ × ℕ → M os (Option Bool) =
        λ cur. if passed (timespec_of cur) end then pure (some false) else next in
      let read : M os (Option Bool) = run_os os.clock >>= late in
      let after : Bool → M os (Option Bool) = λ came. if came then pure (some true) else read in
      bind-Keeps os x.holds (ping_waiting os c counter) (λ _. wait_term os c 0 100000000 >>= after)
        (ping_waiting-Quiet counter)
        (λ _.
          bind-Keeps os x.holds (wait_term os c 0 100000000) after (wait_term-Quiet 0 100000000)
            (λ came.
              if-Keeps os x.holds came (pure (some true)) read (λ s p. p)
                (bind-Keeps os x.holds (run_os os.clock) late
                  (run_os-Keeps os x.holds os.clock stable.clock_kept)
                  (λ cur.
                    if-Keeps os x.holds (passed (timespec_of cur) end) (pure (some false)) next
                      (λ s p. p) (wait_rounds-Quiet fuel ((counter + 1) % 1000) end)))))

  pub wait_cycle-Quiet : (fuel : ℕ) → Quiet os x (wait_cycle os c fuel)
  unfolding wait_cycle
  wait_cycle-Quiet fuel =
      bind-Keeps os x.holds (run_os os.clock)
        (λ cur. wait_rounds os c fuel 0 (deadline c.submits_delay (timespec_of cur)))
        (run_os-Keeps os x.holds os.clock stable.clock_kept)
        (λ cur. wait_rounds-Quiet fuel 0 (deadline c.submits_delay (timespec_of cur)))
