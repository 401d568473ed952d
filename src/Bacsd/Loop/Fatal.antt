-- ===== src/Bacsd/Loop/Fatal.antt =====
-- The loop over the submissions never ends because of a submission.
use bacs_legacy.Base.{
  ℕ, zero, suc, ◌≡◌, ap, ◌∙◌, Bool, true, false, Option, none, some, [], Bytes, ◌=ₛ◌, if_cases,
  if◌then◌else◌, arith,
}
use bacs_legacy.Double.{Double}
use bacs_legacy.System.{Os, Server, M, Outcome, returned, ◌>>=◌, pure}
use bacs_legacy.System.Rules.{bind_cases}
use bacs_legacy.Config.{Settings}
use bacs_legacy.Ping.{running, completed}
use bacs_legacy.Queue.{check_new_submits, capture_new_submit}
use bacs_legacy.Submit.Always.{test_submit-true}
use bacs_legacy.Bacsd.{short_wait_term, wait_cycle}
use bacs_legacy.Bacsd.Loop.{
  Memory, Ending, by_signal, LoopState, Next, goes_on, ends, out_of_fuel, test_sid, ping_sid,
  behind_test, test_captured, announce, behind_found, found_round, next_of, idle_round,
  behind_signal, check_round, check_loop, check_thread_proc,
}

module _ (os : Os) (d : Double) (c : Settings) (memory : Server os → Memory d) where
  abbrev ReturnsTrue : Outcome Bool × Server os → Type 0
  ReturnsTrue r = (b : Bool) → r.0 ≡ returned b → b ≡ true

  behind_test-ReturnsTrue :
      (sid : Bytes) (fine : Bool) (s : Server os)
      → fine ≡ true
      → ReturnsTrue (behind_test os d c memory sid fine s)
  unfolding behind_test
  behind_test-ReturnsTrue sid false s h b k = absurd (ground arith)
  behind_test-ReturnsTrue sid true s h b k =
      bind_cases ReturnsTrue (ping_sid os d c memory completed sid) (λ _. pure true) s
        (λ _ s₁ e b k. cc) (λ s₁ e b k. cc) b k

  test_captured-ReturnsTrue :
      (sid : Bytes) (s : Server os) → ReturnsTrue (test_captured os d c memory sid s)
  unfolding test_captured
  test_captured-ReturnsTrue sid s =
      if_cases (λ (m : M os Bool). ReturnsTrue (m s)) (sid =ₛ []) _ _ (λ _ b k. cc)
        (λ _.
          bind_cases ReturnsTrue (ping_sid os d c memory running sid)
            (λ _. test_sid os d c memory sid >>= behind_test os d c memory sid) s
            (λ _ s₁ _.
              let m = memory s₁ in
              bind_cases ReturnsTrue (test_sid os d c memory sid) (behind_test os d c memory sid) s₁
                (λ fine s₂ e. behind_test-ReturnsTrue sid fine s₂ (
                  test_submit-true os d c m.problem m.acm m.need_info sid m.unset m.dummies s₁ fine
                    (ap (λ r. r.0) e)))
                (λ s₂ e b k. cc))
            (λ s₁ e b k. cc))

  -- A round does not end because of an error.
  abbrev NoError : Outcome Next × Server os → Type 0
  NoError r = (e : Ending) → r.0 ≡ returned (ends e) → e ≡ by_signal

  -- The rest of a round with a submission.
  behind_found-NoError :
      (dbg_submit_id : Bytes) (fine : Bool) (s : Server os)
      → fine ≡ true
      → NoError (behind_found os d c memory dbg_submit_id fine s)
  unfolding behind_found announce
  behind_found-NoError dbg_submit_id false s h e k = absurd (ground arith)
  behind_found-NoError dbg_submit_id true s h e k = absurd (ground arith)

  found_round-NoError :
      (dbg_submit_id : Bytes) (s : Server os) → NoError (found_round os d c memory dbg_submit_id s)
  unfolding found_round
  found_round-NoError dbg_submit_id s =
      bind_cases NoError (capture_new_submit os c dbg_submit_id)
        (λ r. test_captured os d c memory r.0 >>= behind_found os d c memory r.1) s
        (λ r s₁ _.
          bind_cases NoError (test_captured os d c memory r.0) (behind_found os d c memory r.1) s₁
            (λ fine s₂ e.
              behind_found-NoError r.1 fine s₂
                (test_captured-ReturnsTrue r.0 s₁ fine (ap (λ r. r.0) e)))
            (λ s₂ e b k. cc))
        (λ s₁ e b k. cc)

  next_of-by_signal :
      (l : LoopState) (stop : Option Bool) (e : Ending)
      → next_of os d c memory l stop ≡ ends e
      → e ≡ by_signal
  unfolding next_of
  next_of-by_signal l none e h = absurd (ground arith)
  next_of-by_signal l (some true) e h = ground arith
  next_of-by_signal l (some false) e h = absurd (ground arith)

  idle_round-NoError :
      (fuel : ℕ) (l : LoopState) (s : Server os) → NoError (idle_round os d c memory fuel l s)
  unfolding idle_round
  idle_round-NoError fuel l s =
      bind_cases NoError (announce os d c memory l.need_announce)
        (λ _. wait_cycle os c fuel >>= λ stop. pure (next_of os d c memory l stop)) s
        (λ _ s₁ _.
          bind_cases NoError (wait_cycle os c fuel) (λ stop. pure (next_of os d c memory l stop)) s₁
            (λ stop s₂ _ e k. next_of-by_signal l stop e (ground arith)) (λ s₂ _ e k. cc))
        (λ s₁ _ e k. cc)

  behind_signal-NoError :
      (fuel : ℕ) (l : LoopState) (came : Bool) (s : Server os)
      → NoError (behind_signal os d c memory fuel l came s)
  unfolding behind_signal
  behind_signal-NoError fuel l true s = λ e k. ground arith
  behind_signal-NoError fuel l false s =
      bind_cases NoError (check_new_submits os c l.dbg_submit_id)
        (λ new.
          if new
          then found_round os d c memory l.dbg_submit_id
          else idle_round os d c memory fuel l)
        s
        (λ new s₁ _.
          if_cases (λ (m : M os Next). NoError (m s₁)) new _ _
            (λ _. found_round-NoError l.dbg_submit_id s₁) (λ _. idle_round-NoError fuel l s₁))
        (λ s₁ _ e k. cc)

  check_round-NoError :
      (fuel : ℕ) (l : LoopState) (s : Server os) → NoError (check_round os d c memory fuel l s)
  unfolding check_round
  check_round-NoError fuel l s =
      bind_cases NoError (short_wait_term os c) (behind_signal os d c memory fuel l) s
        (λ came s₁ _. behind_signal-NoError fuel l came s₁) (λ s₁ _ e k. cc)

  abbrev EndsBySignal : Outcome (Option Ending) × Server os → Type 0
  EndsBySignal r = (e : Ending) → r.0 ≡ returned (some e) → e ≡ by_signal

  abbrev behind_round : ℕ → ℕ → Next → M os (Option Ending)
  behind_round rounds fuel next = elim next [
    | goes_on l' ↦ check_loop os d c memory rounds fuel l'
    | ends e ↦ pure (some e)
    | out_of_fuel ↦ pure none
  ]

  behind_round-EndsBySignal :
      (rounds fuel : ℕ) (next : Next) (s : Server os)
      → ((l : LoopState) → EndsBySignal (check_loop os d c memory rounds fuel l s))
      → ((e : Ending) → next ≡ ends e → e ≡ by_signal)
      → EndsBySignal (behind_round rounds fuel next s)
  behind_round-EndsBySignal rounds fuel (goes_on l) s rest h = rest l
  behind_round-EndsBySignal rounds fuel (ends e) s rest h =
      λ e' k. let same : e ≡ e' = cc in h e' (ap (λ x. ends x) same)
  behind_round-EndsBySignal rounds fuel out_of_fuel s rest h = λ e k. absurd (ground arith)

  check_loop-EndsBySignal :
      (rounds fuel : ℕ) (l : LoopState) (s : Server os)
      → EndsBySignal (check_loop os d c memory rounds fuel l s)
  unfolding check_loop
  check_loop-EndsBySignal zero fuel l s = λ e h. absurd (ground arith)
  check_loop-EndsBySignal (suc rounds) fuel l s =
      bind_cases EndsBySignal (check_round os d c memory fuel l) (behind_round rounds fuel) s
        (λ next s₁ e.
          behind_round-EndsBySignal rounds fuel next s₁
            (λ l'. check_loop-EndsBySignal rounds fuel l' s₁)
            (λ e' k. check_round-NoError fuel l s e' (ap (λ r. r.0) e ∙ ap (λ n. returned n) k)))
        (λ s₁ _ e k. cc)

  -- However long the loop over the submissions runs, whatever the database, the compilers, the
  -- problems and the solutions do: where it ends, it ends because of a signal.
  pub check_thread_proc-EndsBySignal :
      (rounds fuel : ℕ) (dbg_submit_id : Bytes) (s : Server os) (e : Ending)
      → (check_thread_proc os d c memory rounds fuel dbg_submit_id s).0 ≡ returned (some e)
      → e ≡ by_signal
  unfolding check_thread_proc
  check_thread_proc-EndsBySignal rounds fuel dbg_submit_id s e h =
      check_loop-EndsBySignal rounds fuel
        (record { need_announce = true; dbg_submit_id = dbg_submit_id }) s e h
