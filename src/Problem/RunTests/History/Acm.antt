-- ===== src/Problem/RunTests/History/Acm.antt =====
-- An ACM round stops at the first test that is not passed.
use bacs_legacy.Base.{
  ℕ, ◌+◌, ◌≡◌, ◌⊎◌, inl, inr, refl, Bool, Bool-cases, true, false, Option, List, [], ◌∷◌, ◌++◌,
  Bytes, ℤ, negsuc, ap, All,
}
use bacs_legacy.Def.{Status, is_accepted, accepted}
use bacs_legacy.Double.{Double}
use bacs_legacy.System.{Os, Server, Outcome, returned}
use bacs_legacy.System.Rules.{bind_cases}
use bacs_legacy.Config.{Settings}
use bacs_legacy.TestFile.{TestFile}
use bacs_legacy.Run.{Vars}
use bacs_legacy.Problem.{Problem, TestResult, run_test}
use bacs_legacy.Problem.RunTests.{
  Progress, begin, record_usage, record_failure, run_loop, run_tests, note_verbose, leave_verbose,
  after_test, finish,
}
use bacs_legacy.Problem.RunTests.History.{
  Plays, plays, History, nothing, played, after, round_cases, finish-LoopDone,
}

abbrev pub Accepted : {d : Double} → TestResult d → Type 0
Accepted out = is_accepted out.result ≡ true

module _ (os : Os) (d : Double) (c : Settings) (p : Problem d) (run_cmd : Bytes)
    (unset dummies : Vars) where
  -- The tests were passed, all of them.
  pub record Passed (tests : List TestFile) : Type 0 where
    pub outs : List (TestResult d)
    pub history : History os d c p run_cmd unset dummies tests outs
    pub accepted_all : All Accepted outs

  -- A test was not passed, and all before it were.
  pub record Failed (tests : List TestFile) (number : ℤ) (status : Status) : Type 0 where
    pub before : List TestFile
    pub test : TestFile
    pub behind : List TestFile
    pub split : tests ≡ before ++ test ∷ behind
    pub passed : Passed before
    pub out : TestResult d
    pub play : Plays os d c p run_cmd unset dummies test out
    pub not_accepted : is_accepted out.result ≡ false
    pub its_number : number ≡ test.id
    pub its_status : status ≡ out.result

  -- How the loop may end.
  abbrev AcmEnd : List TestFile → Progress d → Progress d → Type 0
  AcmEnd tests pr pr' =
      (Passed tests × (pr'.test_num_failed ≡ pr.test_num_failed) × (pr'.first_res ≡ pr.first_res))
      ⊎ Failed tests pr'.test_num_failed pr'.first_res

  abbrev Ran : List TestFile → Progress d → Outcome (Bool × Progress d) × Server os → Type 0
  Ran tests pr r = (pr' : Progress d) → r.0 ≡ returned (true, pr') → AcmEnd tests pr pr'

  Passed-nil : Passed []
  Passed-nil = record { outs = []; history = nothing; accepted_all = tt }

  Passed-cons :
      (t : TestFile) (tests : List TestFile) (out : TestResult d)
      → Plays os d c p run_cmd unset dummies t out
      → Accepted out
      → Passed tests
      → Passed (t ∷ tests)
  Passed-cons t tests out play a h = record {
    outs = out ∷ h.outs;
    history = played play h.history;
    accepted_all = (a, h.accepted_all);
  }

  Failed-here :
      (t : TestFile) (tests : List TestFile) (out : TestResult d)
      → Plays os d c p run_cmd unset dummies t out
      → is_accepted out.result ≡ false
      → Failed (t ∷ tests) t.id out.result
  Failed-here t tests out play n = record {
    before = [];
    test = t;
    behind = tests;
    split = refl;
    passed = Passed-nil;
    out = out;
    play = play;
    not_accepted = n;
    its_number = refl;
    its_status = refl;
  }

  Failed-later :
      (t : TestFile) (tests : List TestFile) (out : TestResult d) (number : ℤ) (status : Status)
      → Plays os d c p run_cmd unset dummies t out
      → Accepted out
      → Failed tests number status
      → Failed (t ∷ tests) number status
  Failed-later t tests out number status play a h = record {
    before = t ∷ h.before;
    test = h.test;
    behind = h.behind;
    split = ap (λ r. t ∷ r) h.split;
    passed = Passed-cons t h.before out play a h.passed;
    out = h.out;
    play = h.play;
    not_accepted = h.not_accepted;
    its_number = h.its_number;
    its_status = h.its_status;
  }

  -- A round whose test is passed hands on what the rest of the loop says.
  AcmEnd-cons :
      (t : TestFile) (tests : List TestFile) (out : TestResult d) (pr pr' : Progress d)
      (path : Option Bytes)
      → Plays os d c p run_cmd unset dummies t out
      → Accepted out
      → AcmEnd tests (record_usage d out (record pr { verbose_path = path })) pr'
      → AcmEnd (t ∷ tests) pr pr'
  unfolding record_usage
  AcmEnd-cons t tests out pr pr' path play a (inl (h, n, f)) =
      inl (Passed-cons t tests out play a h, n, f)
  AcmEnd-cons t tests out pr pr' path play a (inr h) = inr (Failed-later t tests out _ _ play a h)

  body :
      (t : TestFile) (tests : List TestFile) (i : ℕ) (pr : Progress d) (o : Bool × TestResult d)
      (s₁ s₂ : Server os)
      → run_test os d c p t run_cmd unset dummies pr.info s₁ ≡ (returned o, s₂)
      → ((i : ℕ) (pr : Progress d) (s : Server os)
          → Ran tests pr (run_loop os d c p run_cmd true unset dummies tests i pr s))
      → Ran (t ∷ tests) pr (after os d c p run_cmd unset dummies true t tests i pr o s₂)
  unfolding after_test record_failure
  body t tests i pr (false, out) s₁ s₂ e rest = λ pr' h. cc
  body t tests i pr (true, out) s₁ s₂ e rest = elim (Bool-cases (is_accepted out.result)) [
    | inl a ↦ rw a (
        bind_cases (Ran (t ∷ tests) pr) (leave_verbose os d c t out)
          (λ _.
            run_loop os d c p run_cmd true unset dummies tests (i + 1)
              (record_usage d out (note_verbose os d c t.verbose pr)))
          s₂
          (λ _ s₃ _ pr' h.
            AcmEnd-cons t tests out pr pr' _ (plays pr.info s₁ s₂ e) a (rest (i + 1) _ s₃ pr' h))
          (λ s₃ e' pr' h. cc))
    | inr n ↦ rw n (λ pr' h.
        let e' : record_failure d t out (record_usage d out (note_verbose os d c t.verbose pr))
            ≡ pr' =
          cc in
        rw (← e') (inr (Failed-here t tests out (plays pr.info s₁ s₂ e) n)))
  ]

  run_loop-Ran :
      (tests : List TestFile) (i : ℕ) (pr : Progress d) (s : Server os)
      → Ran tests pr (run_loop os d c p run_cmd true unset dummies tests i pr s)
  unfolding run_loop
  run_loop-Ran [] i pr s = λ pr' h. let e : pr ≡ pr' = cc in rw (← e) (inl (Passed-nil, refl, refl))
  run_loop-Ran (t ∷ tests) i pr s =
      round_cases os d c p run_cmd unset dummies (Ran (t ∷ tests) pr) true t tests i pr s
        (λ s' pr' h. cc) (λ o s₁ s₂ e. body t tests i pr o s₁ s₂ e (run_loop-Ran tests))

  -- An ACM round that returns true has either passed every test, in their order, with the verdict
  -- "accepted" and no number of a failed test; or it has passed the tests in front of one that it
  -- ran and that was not passed, whose verdict and number it gives.
  pub run_tests-AcmRound :
      (result : Status) (info : Option Bytes) (s : Server os) (pr' : Progress d)
      → (run_tests os d c p run_cmd result info true unset dummies s).0 ≡ returned (true, pr')
      → (Passed p.tests × (pr'.test_num_failed ≡ negsuc 0) × (pr'.result ≡ accepted))
        ⊎ Failed p.tests pr'.test_num_failed pr'.result
  unfolding run_tests
  run_tests-AcmRound result info s =
      bind_cases
        (λ r.
          (pr' : Progress d)
          → r.0 ≡ returned (true, pr')
          → (Passed p.tests × (pr'.test_num_failed ≡ negsuc 0) × (pr'.result ≡ accepted))
            ⊎ Failed p.tests pr'.test_num_failed pr'.result)
        (run_loop os d c p run_cmd true unset dummies p.tests 0 (begin d result info))
        (finish os d c) s
        (λ looped s₁ e pr' h.
          let (ok, same) = finish-LoopDone os d c looped s₁ pr' h in
          rw same (
            run_loop-Ran p.tests 0 (begin d result info) s looped.1
              (cc (ap (λ (r : Outcome (Bool × Progress d) × Server os). r.0) e))))
        (λ s₁ e pr' h. cc)
