-- ===== src/Bacsd/Waiting.antt =====
-- How long the server waits for new submissions.
use bacs_legacy.Base.{
  ℕ, zero, suc, ◌+◌, ◌*◌, ◌/◌, ◌%◌, ◌<◌, ◌≤◌, ◌≡◌, refl, ◌∙◌, sym, subst, Bool, true, false, Option,
  some, [], pos, ◌==ℤ◌, Bytes, ltb, ◌=ₛ◌, ◌⊎◌, inl, inr, ◌==◌, if◌then◌else◌, if_cases, arith,
}
use bacs_legacy.System.{Os, Server, M, Outcome, returned, ◌>>=◌, ◌>>◌, pure, run_os, when}
use bacs_legacy.System.Rules.{bind_returned}
use bacs_legacy.Config.{Settings}
use bacs_legacy.Ping.{PingType, ping, waiting, userterm}
use bacs_legacy.Bacsd.Deadline.{nanoseconds, passed_iff, deadline-IsEnd}
use bacs_legacy.Bacsd.{
  Timespec, timespec_of, deadline, passed, to_size, ping_only, wait_term, ping_waiting, wait_rounds,
  wait_cycle,
}

in_time :
    (end lost start n fuel now : ℕ)
    → end + lost ≡ start + n * 1000000
    → start ≤ now
    → n / 100 < suc fuel
    → end < now + suc fuel * 100000000
in_time end lost start n fuel now e h k = omega arith

not_below : (a b : ℕ) → ltb a b ≡ false → b ≤ a
not_below a b h = ground arith

-- What the clock does: its readings lie between the times before and after the call, a wait without a
-- signal takes its time, and no command sets the clock back.
pub record Clock (os : Os) : Type 0 where
  pub now : os.World → ℕ
  pub reading_normal : (w : os.World) → (os.clock w).0.1 < 1000000000
  pub reading_from : (w : os.World) → now w ≤ nanoseconds (os.clock w).0.0 (os.clock w).0.1
  pub reading_to :
      (w : os.World) → nanoseconds (os.clock w).0.0 (os.clock w).0.1 ≤ now (os.clock w).1
  pub wait_takes :
      (sec nsec : ℕ) (w : os.World)
      → (os.wait_signal sec nsec w).0 ≡ false
      → now w + nanoseconds sec nsec ≤ now (os.wait_signal sec nsec w).1
  pub system_takes : (cmd : Bytes) (w : os.World) → now w ≤ now (os.system cmd w).1

module _ (os : Os) (c : Settings) (k : Clock os) where
  -- The action returns, and does not set the clock back.
  abbrev Later : M os (Unit {0}) → Type 0
  Later m = (s : Server os) → ((m s).0 ≡ returned tt) × (k.now s.world ≤ k.now (m s).1.world)

  idle-Later : Later (pure tt)
  idle-Later s = (refl, omega arith)

  ping_only-Later : (type : PingType) → Later (ping_only os c type)
  unfolding ping
  ping_only-Later type =
      if_cases Later (c.ping_uri =ₛ []) _ _ (λ _. idle-Later)
        (λ _ s. (refl, k.system_takes _ s.world))

  ping_waiting-Later :
      (counter : ℕ) → (c.ping_period ==ℤ pos 0) ≡ false → Later (ping_waiting os c counter)
  unfolding ping_waiting
  ping_waiting-Later counter h =
      if_cases Later (c.ping_period ==ℤ pos 0) _ _ (λ e. absurd (ground arith))
        (λ _. when-Later (counter % to_size c.ping_period == 0))
    where
      when-Later : (b : Bool) → Later (when b (ping_only os c waiting))
      when-Later true = ping_only-Later waiting
      when-Later false = idle-Later

  -- What `wait_term` returns, behind the wait for a signal.
  abbrev Waited : ℕ → Server os → Outcome Bool × Server os → Type 0
  Waited least s r =
      (r.0 ≡ returned true) ⊎ ((r.0 ≡ returned false) × (k.now s.world + least ≤ k.now r.1.world))

  after_signal :
      (b : Bool) (least : ℕ) (s s' : Server os)
      → (b ≡ false → k.now s.world + least ≤ k.now s'.world)
      → Waited least s ((when b (ping_only os c userterm) >> pure b) s')
  after_signal true least s s' h = inl (
      bind_returned (λ r. r.0 ≡ returned true) (ping_only os c userterm) (λ _. pure true) s' tt
        (ping_only-Later userterm s').0 refl)
  after_signal false least s s' h = inr (refl, h refl)

  wait_term-Waited :
      (sec nsec : ℕ) (s : Server os) → Waited (nanoseconds sec nsec) s (wait_term os c sec nsec s)
  unfolding wait_term
  wait_term-Waited sec nsec s =
      after_signal (os.wait_signal sec nsec s.world).0 (nanoseconds sec nsec) s
        (record s { world = (os.wait_signal sec nsec s.world).1 }) (k.wait_takes sec nsec s.world)

  abbrev Returns : Outcome (Option Bool) × Server os → Type 0
  Returns r = (stop : Bool) × (r.0 ≡ returned (some stop))

  -- One round of the loop, behind the wait.
  abbrev behind_wait : ℕ → ℕ → Timespec → Bool → M os (Option Bool)
  behind_wait fuel counter end came =
      if came
      then pure (some true)
      else run_os os.clock >>= λ cur.
          if passed (timespec_of cur) end
          then pure (some false)
          else wait_rounds os c fuel ((counter + 1) % 1000) end

  -- One round returns if the next one does, which starts a tenth of a second later and not behind the
  -- end.
  round-Returns :
      (fuel counter end_sec end_nsec : ℕ) (s : Server os)
      → (c.ping_period ==ℤ pos 0) ≡ false
      → end_nsec < 1000000000
      → ((s' : Server os)
          → k.now s.world + 100000000 ≤ nanoseconds end_sec end_nsec
          → k.now s.world + 100000000 ≤ k.now s'.world
          → Returns
              (wait_rounds os c fuel ((counter + 1) % 1000) (timespec_of (end_sec, end_nsec)) s'))
      → Returns (wait_rounds os c (suc fuel) counter (timespec_of (end_sec, end_nsec)) s)
  unfolding wait_rounds
  round-Returns fuel counter end_sec end_nsec s period normal next =
      let end : Timespec = timespec_of (end_sec, end_nsec) in
      let (pinged, later) = ping_waiting-Later counter period s in
      let s₁ : Server os = (ping_waiting os c counter s).1 in
      let s₂ : Server os = (wait_term os c 0 100000000 s₁).1 in
      let w = s₂.world in
      bind_returned Returns (ping_waiting os c counter)
        (λ _. wait_term os c 0 100000000 >>= behind_wait fuel counter end) s tt pinged
        (elim (wait_term-Waited 0 100000000 s₁) [
          | inl e ↦
              bind_returned Returns (wait_term os c 0 100000000) (behind_wait fuel counter end) s₁
                true e (true, refl)
          | inr (e, slept) ↦
              bind_returned Returns (wait_term os c 0 100000000) (behind_wait fuel counter end) s₁
                false e
                (if_cases
                  (λ (m : M os (Option Bool)). Returns (m (record s₂ { world = (os.clock w).1 })))
                  (passed (timespec_of (os.clock w).0) end) _ _ (λ _. (false, refl))
                  (λ f.
                    let reading =
                      passed_iff (os.clock w).0.0 (os.clock w).0.1 end_sec end_nsec
                        (k.reading_normal w) normal in
                    let late =
                      not_below (nanoseconds end_sec end_nsec)
                        (nanoseconds (os.clock w).0.0 (os.clock w).0.1) (sym reading ∙ f) in
                    let from = k.reading_from w in
                    let to = k.reading_to w in
                    next (record s₂ { world = (os.clock w).1 }) (omega arith) (omega arith)))
        ])

  wait_rounds-Returns :
      (fuel counter end_sec end_nsec : ℕ) (s : Server os)
      → (c.ping_period ==ℤ pos 0) ≡ false
      → end_nsec < 1000000000
      → nanoseconds end_sec end_nsec < k.now s.world + suc fuel * 100000000
      → Returns (wait_rounds os c (suc fuel) counter (timespec_of (end_sec, end_nsec)) s)
  wait_rounds-Returns zero counter end_sec end_nsec s period normal enough =
      round-Returns zero counter end_sec end_nsec s period normal
        (λ s' early later. absurd (omega arith))
  wait_rounds-Returns (suc fuel) counter end_sec end_nsec s period normal enough =
      round-Returns (suc fuel) counter end_sec end_nsec s period normal (λ s' early later.
        wait_rounds-Returns fuel ((counter + 1) % 1000) end_sec end_nsec s' period normal
          (omega arith))

  -- `wait_cycle` returns: for a delay of `n` milliseconds it needs no more than one round of its loop
  -- for each tenth of a second, and one. The clock keeps its documented behaviour, and the period of
  -- the pings is not 0.
  pub wait_cycle-Returns :
      (n fuel : ℕ) (s : Server os)
      → (c.ping_period ==ℤ pos 0) ≡ false
      → c.submits_delay ≡ pos n
      → n / 100 < fuel
      → Returns (wait_cycle os c fuel s)
  unfolding wait_cycle
  wait_cycle-Returns n zero s period delay enough = absurd (omega arith)
  wait_cycle-Returns n (suc fuel) s period delay enough =
      let (sec, nsec) = (os.clock s.world).0 in
      let end = deadline-IsEnd n sec nsec (k.reading_normal s.world) in
      let s₁ : Server os = record s { world = (os.clock s.world).1 } in
      let at : deadline c.submits_delay (timespec_of (os.clock s.world).0)
          ≡ timespec_of (end.end_sec, end.end_nsec) =
        rw delay end.is_end in
      subst (λ e. Returns (wait_rounds os c (suc fuel) 0 e s₁)) (sym at)
        (wait_rounds-Returns fuel 0 end.end_sec end.end_nsec s₁ period end.is_normal (
          in_time (nanoseconds end.end_sec end.end_nsec) _ (nanoseconds sec nsec) n fuel
            (k.now s₁.world) end.is_exact (k.reading_to s.world) enough))
