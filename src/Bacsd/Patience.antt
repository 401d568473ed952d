-- ===== src/Bacsd/Patience.antt =====
-- How long `wait_cycle` of src/bin/bacsd.cpp waits at least.
use bacs_legacy.Base.{
  ℕ, zero, suc, ◌+◌, ◌*◌, ◌%◌, ◌<◌, ◌≡◌, ◌∙◌, sym, subst, Bool, true, false, Option, some, pos, ltb,
  if◌then◌else◌, if_cases, arith,
}
use bacs_legacy.System.{Os, Server, M, Outcome, returned, ◌>>=◌, pure, run_os}
use bacs_legacy.System.Rules.{bind_cases}
use bacs_legacy.Config.{Settings}
use bacs_legacy.Bacsd.Deadline.{nanoseconds, passed_iff, deadline-IsEnd}
use bacs_legacy.Bacsd.Waiting.{Clock}
use bacs_legacy.Bacsd.{
  Timespec, timespec_of, deadline, passed, wait_term, ping_waiting, wait_rounds, wait_cycle,
}

below : (a b : ℕ) → ltb a b ≡ true → a < b
below a b h = ground arith

module _ (os : Os) (c : Settings) (k : Clock os) where
  -- Where no signal came, it is later than `least`.
  abbrev After : ℕ → Outcome (Option Bool) × Server os → Type 0
  After least r = r.0 ≡ returned (some false) → least < k.now r.1.world

  module _ (end_sec end_nsec : ℕ) (normal : end_nsec < 1000000000) where
    abbrev end : Timespec
    end = timespec_of (end_sec, end_nsec)

    -- The reading behind a wait, and what follows.
    read-After :
        (next : M os (Option Bool)) (s : Server os)
        → ((s' : Server os) → After (nanoseconds end_sec end_nsec) (next s'))
        → After (nanoseconds end_sec end_nsec) (
            (run_os os.clock >>= λ cur.
            if passed (timespec_of cur) end then pure (some false) else next)
              s)
    read-After next s h =
        let w = s.world in
        let s' : Server os = record s { world = (os.clock w).1 } in
        if_cases (λ (m : M os (Option Bool)). After (nanoseconds end_sec end_nsec) (m s'))
          (passed (timespec_of (os.clock w).0) end) (pure (some false)) next
          (λ e _.
            let reading =
              passed_iff (os.clock w).0.0 (os.clock w).0.1 end_sec end_nsec (k.reading_normal w)
                normal in
            let late =
              below (nanoseconds end_sec end_nsec) (nanoseconds (os.clock w).0.0 (os.clock w).0.1)
                (sym reading ∙ e) in
            let to = k.reading_to w in omega arith)
          (λ _. h s')

    wait_rounds-After :
        (fuel counter : ℕ) (s : Server os)
        → After (nanoseconds end_sec end_nsec) (wait_rounds os c fuel counter end s)
    unfolding wait_rounds
    wait_rounds-After zero counter s = λ h. absurd (cc)
    wait_rounds-After (suc fuel) counter s =
        let P = After (nanoseconds end_sec end_nsec) in
        let next : M os (Option Bool) = wait_rounds os c fuel ((counter + 1) % 1000) end in
        let late : M os (Option Bool) = run_os os.clock >>= λ cur.
        if passed (timespec_of cur) end then pure (some false) else next in
        let after : Bool → M os (Option Bool) = λ came. if came then pure (some true) else late in
        bind_cases P (ping_waiting os c counter) (λ _. wait_term os c 0 100000000 >>= after) s
          (λ _ s₁ _.
            bind_cases P (wait_term os c 0 100000000) after s₁
              (λ came s₂ _.
                if_cases (λ (m : M os (Option Bool)). P (m s₂)) came (pure (some true)) late
                  (λ _ h. absurd (cc))
                  (λ _. read-After next s₂ (wait_rounds-After fuel ((counter + 1) % 1000))))
              (λ s₂ _ h. absurd (cc)))
          (λ s₁ _ h. absurd (cc))

  -- A wait of `wait_cycle` that no signal has ended lasts longer than the delay less one second: the
  -- second is what the lost carry of the end may take away. The clock keeps its documented behaviour,
  -- and the delay is `n` milliseconds.
  pub wait_cycle-lasts :
      (n fuel : ℕ) (s : Server os)
      → c.submits_delay ≡ pos n
      → (wait_cycle os c fuel s).0 ≡ returned (some false)
      → k.now s.world + n * 1000000 < k.now (wait_cycle os c fuel s).1.world + 1000000000
  unfolding wait_cycle
  wait_cycle-lasts n fuel s delay h =
      let (sec, nsec) = (os.clock s.world).0 in
      let end = deadline-IsEnd n sec nsec (k.reading_normal s.world) in
      let s₁ : Server os = record s { world = (os.clock s.world).1 } in
      let at : deadline c.submits_delay (timespec_of (os.clock s.world).0)
          ≡ timespec_of (end.end_sec, end.end_nsec) =
        rw delay end.is_end in
      let late =
        subst (λ e. After (nanoseconds end.end_sec end.end_nsec) (wait_rounds os c fuel 0 e s₁))
          (sym at) (wait_rounds-After end.end_sec end.end_nsec end.is_normal fuel 0 s₁) h in
      let exact = end.is_exact in let from = k.reading_from s.world in ground arith
