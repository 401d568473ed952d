-- ===== src/Bacsd/Kept.antt =====
-- The waits of the server leave the connection to the database as it was.
use bacs_legacy.Base.{
  ℕ, zero, suc, refl, Bool, true, false, Option, some, [], pos, ◌==ℤ◌, ◌==◌, ◌=ₛ◌, ◌%◌, ◌+◌,
  if◌then◌else◌, if_cases,
}
use bacs_legacy.System.{Os, M, ◌>>=◌, ◌>>◌, pure, run_os, when}
use bacs_legacy.Config.{Settings}
use bacs_legacy.Ping.{PingType, ping, waiting, userterm}
use bacs_legacy.Database.Connected.{KeepsConnected, bind-KeepsConnected}
use bacs_legacy.Bacsd.{
  Timespec, timespec_of, deadline, passed, to_size, ping_only, wait_term, ping_waiting, wait_rounds,
  wait_cycle,
}

module _ (os : Os) (c : Settings) where
  ping_only-KeepsConnected : (type : PingType) → KeepsConnected (ping_only os c type)
  unfolding ping
  ping_only-KeepsConnected type =
      if_cases KeepsConnected (c.ping_uri =ₛ []) _ _ (λ _ s. refl) (λ _ s. refl)

  when-KeepsConnected : (b : Bool) (type : PingType) → KeepsConnected (when b (ping_only os c type))
  when-KeepsConnected true type = ping_only-KeepsConnected type
  when-KeepsConnected false type = λ s. refl

  ping_waiting-KeepsConnected : (counter : ℕ) → KeepsConnected (ping_waiting os c counter)
  unfolding ping_waiting
  ping_waiting-KeepsConnected counter =
      if_cases KeepsConnected (c.ping_period ==ℤ pos 0) _ _ (λ _ s. refl)
        (λ _. when-KeepsConnected (counter % to_size c.ping_period == 0) waiting)

  wait_term-KeepsConnected : (sec nsec : ℕ) → KeepsConnected (wait_term os c sec nsec)
  unfolding wait_term
  wait_term-KeepsConnected sec nsec =
      bind-KeepsConnected (run_os (os.wait_signal sec nsec))
        (λ came. when came (ping_only os c userterm) >> pure came) (λ s. refl)
        (λ came.
          bind-KeepsConnected (when came (ping_only os c userterm)) (λ _. pure came)
            (when-KeepsConnected came userterm) (λ _ s. refl))

  wait_rounds-KeepsConnected :
      (fuel counter : ℕ) (end : Timespec) → KeepsConnected (wait_rounds os c fuel counter end)
  unfolding wait_rounds
  wait_rounds-KeepsConnected zero counter end = λ s. refl
  wait_rounds-KeepsConnected (suc fuel) counter end =
      let next : M os (Option Bool) = wait_rounds os c fuel ((counter + 1) % 1000) end in
      let late : ℕ × ℕ → M os (Option Bool) =
        λ cur. if passed (timespec_of cur) end then pure (some false) else next in
      let read : M os (Option Bool) = run_os os.clock >>= late in
      let after : Bool → M os (Option Bool) = λ came. if came then pure (some true) else read in
      bind-KeepsConnected (ping_waiting os c counter) (λ _. wait_term os c 0 100000000 >>= after)
        (ping_waiting-KeepsConnected counter)
        (λ _.
          bind-KeepsConnected (wait_term os c 0 100000000) after
            (wait_term-KeepsConnected 0 100000000)
            (λ came.
              if_cases (KeepsConnected {A = Option Bool}) came (pure (some true)) read (λ _ s. refl)
                (λ _.
                  bind-KeepsConnected (run_os os.clock) late (λ s. refl)
                    (λ cur.
                      if_cases (KeepsConnected {A = Option Bool}) (passed (timespec_of cur) end)
                        (pure (some false)) next (λ _ s. refl)
                        (λ _. wait_rounds-KeepsConnected fuel ((counter + 1) % 1000) end)))))

  pub wait_cycle-KeepsConnected : (fuel : ℕ) → KeepsConnected (wait_cycle os c fuel)
  unfolding wait_cycle
  wait_cycle-KeepsConnected fuel =
      bind-KeepsConnected (run_os os.clock)
        (λ cur. wait_rounds os c fuel 0 (deadline c.submits_delay (timespec_of cur))) (λ s. refl)
        (λ cur. wait_rounds-KeepsConnected fuel 0 (deadline c.submits_delay (timespec_of cur)))
