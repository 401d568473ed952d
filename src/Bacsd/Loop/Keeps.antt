-- ===== src/Bacsd/Loop/Keeps.antt =====
-- What a round of the loop of src/bin/bacsd.cpp keeps, around the test of a submission.
use bacs_legacy.Base.{
  ℕ, zero, suc, Bool, true, false, not, Option, none, some, [], Bytes, negsuc, if◌then◌else◌,
}
use bacs_legacy.Double.{Double}
use bacs_legacy.System.{Os, Server, M, ◌>>=◌, pure, log_working}
use bacs_legacy.System.Triples.{View, Keeps, bind-Keeps, if-Keeps}
use bacs_legacy.System.Facts.{Lasting}
use bacs_legacy.Config.{Settings}
use bacs_legacy.Ping.{PingType, completed, error}
use bacs_legacy.Problem.RunTests.Owned.{ping-Quiet}
use bacs_legacy.Queue.{check_new_submits}
use bacs_legacy.Queue.Marks.{check_new_submits-Quiet}
use bacs_legacy.Bacsd.{short_wait_term, wait_cycle}
use bacs_legacy.Bacsd.Waits.{short_wait_term-Quiet, wait_cycle-Quiet}
use bacs_legacy.Bacsd.Loop.{
  Memory, Ending, by_signal, LoopState, Next, goes_on, ends, out_of_fuel, ping_sid, log_fatal,
  behind_test, announce, behind_found, found_round, next_of, idle_round, behind_signal, check_round,
  check_loop,
}

module _ (os : Os) (d : Double) (c : Settings) (memory : Server os → Memory d)
    (P : View os → Type 0) (lasting : Lasting os P) where
  pub ping_sid-Keeps :
      (type : PingType) (sid : Bytes) → Keeps os P (ping_sid os d c memory type sid)
  ping_sid-Keeps type sid =
      lasting _ (ping_sid os d c memory type sid)
        (λ x stable. ping-Quiet os d c x stable type sid (negsuc 0) [] [])

  pub behind_test-Keeps :
      (sid : Bytes) (fine : Bool) → Keeps os P (behind_test os d c memory sid fine)
  unfolding behind_test log_fatal
  behind_test-Keeps sid fine =
      let tell = ping_sid os d c memory in
      let bad : M os Bool = log_fatal os d c memory >>= λ _. pure false in
      if-Keeps os P (not fine) (tell error sid >>= λ _. bad) (tell completed sid >>= λ _. pure true)
        (bind-Keeps os P (tell error sid) (λ _. bad) (ping_sid-Keeps error sid) (λ _ s p. p))
        (bind-Keeps os P (tell completed sid) (λ _. pure true) (ping_sid-Keeps completed sid)
          (λ _ s p. p))

  pub behind_found-Keeps :
      (dbg : Bytes) (fine : Bool) → Keeps os P (behind_found os d c memory dbg fine)
  unfolding behind_found announce
  behind_found-Keeps dbg true s p = p
  behind_found-Keeps dbg false s p = p

  idle_round-Keeps : (fuel : ℕ) (l : LoopState) → Keeps os P (idle_round os d c memory fuel l)
  unfolding idle_round announce
  idle_round-Keeps fuel l =
      let said = announce os d c memory l.need_announce in
      let rest : M os Next = wait_cycle os c fuel >>= λ stop. pure (next_of os d c memory l stop) in
      bind-Keeps os P said (λ _. rest)
        (if-Keeps os {A = Unit {0}} P l.need_announce _ log_working (λ s p. p) (λ s p. p))
        (λ _.
          bind-Keeps os P (wait_cycle os c fuel) (λ stop. pure (next_of os d c memory l stop))
            (lasting _ (wait_cycle os c fuel) (λ x stable. wait_cycle-Quiet os d c x stable fuel))
            (λ stop s p. p))

  -- A property that the rounds with a submission keep is kept by the whole loop.
  module _ (round : (dbg : Bytes) → Keeps os P (found_round os d c memory dbg)) where
    check_round-Keeps : (fuel : ℕ) (l : LoopState) → Keeps os P (check_round os d c memory fuel l)
    unfolding check_round behind_signal
    check_round-Keeps fuel l =
        let found = found_round os d c memory l.dbg_submit_id in
        let idle = idle_round os d c memory fuel l in
        let next : Bool → M os Next = λ new. if new then found else idle in
        bind-Keeps os P (short_wait_term os c) (behind_signal os d c memory fuel l)
          (lasting _ (short_wait_term os c) (λ x stable. short_wait_term-Quiet os d c x stable))
          (λ came.
            if-Keeps os P came (pure (ends by_signal)) _ (λ s p. p)
              (bind-Keeps os P (check_new_submits os c l.dbg_submit_id) next
                (lasting _ (check_new_submits os c l.dbg_submit_id)
                  (λ x stable. check_new_submits-Quiet os c x stable l.dbg_submit_id))
                (λ new.
                  if-Keeps os P new found idle (round l.dbg_submit_id) (idle_round-Keeps fuel l))))

    pub check_loop-Keeps :
        (rounds fuel : ℕ) (l : LoopState) → Keeps os P (check_loop os d c memory rounds fuel l)
    unfolding check_loop
    check_loop-Keeps zero fuel l = λ s p. p
    check_loop-Keeps (suc rounds) fuel l =
        bind-Keeps os P (check_round os d c memory fuel l) _ (check_round-Keeps fuel l)
          (go (check_loop-Keeps rounds fuel))
      where
        go :
            ((l' : LoopState) → Keeps os P (check_loop os d c memory rounds fuel l'))
            → (next : Next)
            → Keeps os {A = Option Ending} P (elim next [
              | goes_on l' ↦ check_loop os d c memory rounds fuel l'
              | ends e ↦ pure (some e)
              | out_of_fuel ↦ pure none
            ])
        go again (goes_on l') = again l'
        go again (ends e) = λ s p. p
        go again out_of_fuel = λ s p. p
