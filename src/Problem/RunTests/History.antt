-- ===== src/Problem/RunTests/History.antt =====
-- What the loop of `run_tests` computes, from the results of the tests that it has run.

pub mod School
pub mod Acm
pub mod Outcomes
use bacs_legacy.Base.{
  some, none, refl, ℕ, ◌+◌, pos, Option, ℕ, Bool, true, false, ◌≡◌, List, [], ◌∷◌, ◌++◌, Bytes,
}
use bacs_legacy.Def.{Status, is_accepted}
use bacs_legacy.Double.{Double}
use bacs_legacy.System.{Os, Server, M, Outcome, returned, crashed, ◌>>=◌, pure}
use bacs_legacy.System.Rules.{bind_cases}
use bacs_legacy.Ping.{ping, running}
use bacs_legacy.Problem.RunTests.{
  Progress, run_loop, enter_verbose, note_verbose, after_test, finish, finish_by, remove_quietly,
  archive,
}
use bacs_legacy.Config.{Settings}
use bacs_legacy.TestFile.{TestFile}
use bacs_legacy.Run.{Vars}
use bacs_legacy.Problem.{Problem, TestResult, run_test}

module _ (os : Os) (d : Double) (c : Settings) (p : Problem d) (run_cmd : Bytes)
    (unset dummies : Vars) where
  -- A run of a test, in some state, that was done and gave this result.
  pub data Plays (t : TestFile) (out : TestResult d) : Type 0 where
    plays :
        (info : Option Bytes) (s s' : Server os)
        → run_test os d c p t run_cmd unset dummies info s ≡ (returned (true, out), s')
        → Plays t out

  -- Every test of a list was run, in its order, with these results.
  pub data History : List TestFile → List (TestResult d) → Type 0 where
    nothing : History [] []
    played :
        {t : TestFile} {out : TestResult d} {tests : List TestFile} {outs : List (TestResult d)}
        → Plays t out
        → History tests outs
        → History (t ∷ tests) (out ∷ outs)

  -- The body behind `run_test` in a round of the loop.
  abbrev after :
      Bool
      → TestFile
      → List TestFile
      → ℕ
      → Progress d
      → Bool × TestResult d
      → M os (Bool × Progress d)
  after acm t tests i pr =
      after_test os d c acm t (note_verbose os d c t.verbose pr)
        (run_loop os d c p run_cmd acm unset dummies tests (i + 1))

  -- A property of a round follows from the body behind `run_test`, if it holds of a crash.
  round_cases :
      (P : Outcome (Bool × Progress d) × Server os → Type 0) (acm : Bool) (t : TestFile)
      (tests : List TestFile) (i : ℕ) (pr : Progress d) (s : Server os)
      → ((s' : Server os) → P (crashed, s'))
      → ((o : Bool × TestResult d) (s₁ s₂ : Server os)
          → run_test os d c p t run_cmd unset dummies pr.info s₁ ≡ (returned o, s₂)
          → P (after acm t tests i pr o s₂))
      → P (run_loop os d c p run_cmd acm unset dummies (t ∷ tests) i pr s)
  unfolding run_loop
  round_cases P acm t tests i pr s bad step =
      bind_cases P (ping os c running [] (pos i) p.id [])
        (λ _. enter_verbose os d c t t.verbose >>= λ _.
          run_test os d c p t run_cmd unset dummies pr.info >>= after acm t tests i pr)
        s
        (λ _ s₁ _.
          bind_cases P (enter_verbose os d c t t.verbose)
            (λ _. run_test os d c p t run_cmd unset dummies pr.info >>= after acm t tests i pr) s₁
            (λ _ s₂ _.
              bind_cases P (run_test os d c p t run_cmd unset dummies pr.info)
                (after acm t tests i pr) s₂ (λ o s₃ e. step o s₂ s₃ e) (λ s₃ e. bad s₃))
            (λ s₂ e. bad s₂))
        (λ s₁ e. bad s₁)

module _ (os : Os) (d : Double) (c : Settings) where
  -- What a true result of `run_tests` says of the loop before.
  abbrev LoopDone : Bool × Progress d → Outcome (Bool × Progress d) × Server os → Type 0
  LoopDone looped r =
      (pr' : Progress d)
      → r.0 ≡ returned (true, pr')
      → (looped.0 ≡ true) × (pr' ≡ record looped.1 { result = looped.1.first_res })

  finish_by-LoopDone :
      (path : Option Bytes) (looped : Bool × Progress d) (s : Server os)
      → LoopDone looped (finish_by os d c path looped s)
  unfolding finish_by
  finish_by-LoopDone none (false, pr) s = λ pr' h. cc
  finish_by-LoopDone none (true, pr) s = λ pr' h. (refl, cc)
  finish_by-LoopDone (some path) (false, pr) s =
      bind_cases (LoopDone (false, pr)) (remove_quietly os d c path) (λ _. pure (false, pr)) s
        (λ _ s₁ _ pr' h. cc) (λ s₁ _ pr' h. cc)
  finish_by-LoopDone (some path) (true, pr) s =
      bind_cases (LoopDone (true, pr)) (archive os d c path)
        (λ packed.
          remove_quietly os d c path >>= λ _. pure (packed, record pr { result = pr.first_res }))
        s
        (λ packed s₁ _.
          bind_cases (LoopDone (true, pr)) (remove_quietly os d c path)
            (λ _. pure (packed, record pr { result = pr.first_res })) s₁
            (λ _ s₂ _ pr' h. (refl, cc)) (λ s₂ _ pr' h. cc))
        (λ s₁ _ pr' h. cc)

  -- Where `run_tests` returns true the loop has not failed, and the verdict is the loop's `first_res`.
  finish-LoopDone :
      (looped : Bool × Progress d) (s : Server os) → LoopDone looped (finish os d c looped s)
  unfolding finish
  finish-LoopDone looped s = finish_by-LoopDone looped.1.verbose_path looped s
