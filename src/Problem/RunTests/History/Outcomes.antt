-- ===== src/Problem/RunTests/History/Outcomes.antt =====
-- The statuses that a round of tests may end with.
use bacs_legacy.Base.{
  ℕ, ◌+◌, ◌≡◌, refl, Bool, true, false, not, ◌&&◌, Option, some, none, List, [], ◌∷◌, Bytes,
  if◌then◌else◌, if_cases, ap, subst, arith,
}
use bacs_legacy.Def.{Status, is_accepted}
use bacs_legacy.Double.{Double}
use bacs_legacy.System.{Os, Server, M, Outcome, returned, ◌>>=◌, pure}
use bacs_legacy.System.Rules.{bind_cases}
use bacs_legacy.Config.{Settings}
use bacs_legacy.TestFile.{TestFile}
use bacs_legacy.Run.{Vars}
use bacs_legacy.Problem.{Problem, TestResult, run_test}
use bacs_legacy.Problem.Checker.Outcomes.{test_outcome}
use bacs_legacy.Problem.Judge.{run_test-done}
use bacs_legacy.Problem.RunTests.{
  Progress, begin, record_usage, record_failure, record_school, run_loop, run_tests, note_verbose,
  leave_verbose, after_test, finish, finish_by, archive, remove_quietly,
}
use bacs_legacy.Problem.RunTests.History.{after, round_cases}

-- An outcome of a test.
abbrev pub is_outcome : Status → Bool
is_outcome s = elim (test_outcome s) [ none ↦ false | some ok ↦ true ]

module _ (os : Os) (d : Double) (c : Settings) where
  abbrev Fine : Progress d → Type 0
  Fine pr = (is_outcome pr.result ≡ true) × (is_outcome pr.first_res ≡ true)

  abbrev FineEnd : Outcome (Bool × Progress d) × Server os → Type 0
  FineEnd r = (ok : Bool) (pr' : Progress d) → r.0 ≡ returned (ok, pr') → Fine pr'

  module _ (p : Problem d) (run_cmd : Bytes) (acm : Bool) (unset dummies : Vars) where
    body-Fine :
        (t : TestFile) (tests : List TestFile) (i : ℕ) (pr : Progress d) (o : Bool × TestResult d)
        (s : Server os)
        → is_outcome o.1.result ≡ true
        → Fine pr
        → ((pr : Progress d) (s : Server os)
            → Fine pr
            → FineEnd (run_loop os d c p run_cmd acm unset dummies tests (i + 1) pr s))
        → FineEnd (after os d c p run_cmd unset dummies acm t tests i pr o s)
    unfolding after_test record_failure record_school record_usage
    body-Fine t tests i pr (false, out) s r k rest = λ ok pr' h. ground arith
    body-Fine t tests i pr (true, out) s r k rest =
        if_cases (λ (m : M os (Bool × Progress d)). FineEnd (m s))
          (acm && not (is_accepted out.result)) _ _ (λ _ ok pr' h. ground arith)
          (λ _.
            bind_cases FineEnd (leave_verbose os d c t out)
              (λ _. run_loop os d c p run_cmd acm unset dummies tests (i + 1) next) s
              (λ _ s₁ _. rest next s₁ (ground arith)) (λ s₁ e ok pr' h. cc))
      where
        next : Progress d
        next =
            let used = record_usage d out (note_verbose os d c t.verbose pr) in
            if acm then used else record_school d out used

    outcome :
        (t : TestFile) (info : Option Bytes) (o : Bool × TestResult d) (s s' : Server os)
        → run_test os d c p t run_cmd unset dummies info s ≡ (returned o, s')
        → is_outcome o.1.result ≡ true
    outcome t info o s s' e =
        let q : some (o.0) ≡ test_outcome o.1.result =
          run_test-done os d c p t run_cmd unset dummies info s o.0 o.1
            (cc (ap (λ (r : Outcome (Bool × TestResult d) × Server os). r.0) e)) in
        subst (λ x. (elim x [ none ↦ false | some ok ↦ true ]) ≡ true) q refl

    run_loop-Fine :
        (tests : List TestFile) (i : ℕ) (pr : Progress d) (s : Server os)
        → Fine pr
        → FineEnd (run_loop os d c p run_cmd acm unset dummies tests i pr s)
    unfolding run_loop
    run_loop-Fine [] i pr s k = λ ok pr' h. ground arith
    run_loop-Fine (t ∷ tests) i pr s k =
        round_cases os d c p run_cmd unset dummies FineEnd acm t tests i pr s (λ s' ok pr' h. cc)
          (λ o s₁ s₂ e.
            body-Fine t tests i pr o s₂ (outcome t pr.info o s₁ s₂ e) k
              (run_loop-Fine tests (i + 1)))

  finish_by-Fine :
      (path : Option Bytes) (looped : Bool × Progress d) (s : Server os)
      → Fine looped.1
      → FineEnd (finish_by os d c path looped s)
  unfolding finish_by
  finish_by-Fine none (false, pr) s k = λ ok pr' h. ground arith
  finish_by-Fine none (true, pr) s k = λ ok pr' h. ground arith
  finish_by-Fine (some path) (false, pr) s k =
      bind_cases FineEnd (remove_quietly os d c path) (λ _. pure (false, pr)) s
        (λ _ s₁ _ ok pr' h. ground arith) (λ s₁ e ok pr' h. cc)
  finish_by-Fine (some path) (true, pr) s k =
      bind_cases FineEnd (archive os d c path)
        (λ packed.
          remove_quietly os d c path >>= λ _. pure (packed, record pr { result = pr.first_res }))
        s
        (λ packed s₁ _.
          bind_cases FineEnd (remove_quietly os d c path)
            (λ _. pure (packed, record pr { result = pr.first_res })) s₁
            (λ _ s₂ _ ok pr' h. ground arith) (λ s₂ e ok pr' h. cc))
        (λ s₁ e ok pr' h. cc)

  finish-Fine :
      (looped : Bool × Progress d) (s : Server os)
      → Fine looped.1
      → FineEnd (finish os d c looped s)
  unfolding finish
  finish-Fine looped s k = finish_by-Fine looped.1.verbose_path looped s k

  -- However `run_tests` ends, with true or with false, the status that it sets is an outcome of a
  -- test, if the caller's variable held one before: never a status of the queue or of a compilation.
  pub run_tests-outcome :
      (p : Problem d) (run_cmd : Bytes) (result : Status) (info : Option Bytes) (acm : Bool)
      (unset dummies : Vars) (s : Server os) (ok : Bool) (pr' : Progress d)
      → is_outcome result ≡ true
      → (run_tests os d c p run_cmd result info acm unset dummies s).0 ≡ returned (ok, pr')
      → is_outcome pr'.result ≡ true
  unfolding run_tests
  run_tests-outcome p run_cmd result info acm unset dummies s ok pr' k h =
      (bind_cases FineEnd
        (run_loop os d c p run_cmd acm unset dummies p.tests 0 (begin d result info))
        (finish os d c) s
        (λ looped s₁ e. finish-Fine looped s₁ (
          run_loop-Fine p run_cmd acm unset dummies p.tests 0 (begin d result info) s (k, refl)
            looped.0 looped.1 (cc)))
        (λ s₁ e ok pr' h. cc) ok pr' h).0
