-- ===== src/Problem/RunTests/History/School.antt =====
-- A school round runs every test, and writes down every result.
use mathlib.Core.List.{foldl}
use bacs_legacy.Base.{
  Bool-cases, inl, inr, append-nil, append_assoc, arith, ℕ, ◌+◌, ◌≡◌, refl, Bool, true, false,
  Option, List, [], ◌∷◌, ◌++◌, Bytes, codes, pos, negsuc, ◌=ₛ◌, if◌then◌else◌, ap, ◌∙◌,
}
use bacs_legacy.Util.Number.{i2s}
use bacs_legacy.Util.Number.RoundTrip.{append-i2s_nonempty}
use bacs_legacy.Def.{Status, status_code, is_accepted, accepted}
use bacs_legacy.Double.{Double}
use bacs_legacy.System.{Os, Server, Outcome, returned}
use bacs_legacy.System.Rules.{bind_cases}
use bacs_legacy.Config.{Settings}
use bacs_legacy.TestFile.{TestFile}
use bacs_legacy.Run.{Vars}
use bacs_legacy.Problem.{Problem, TestResult, run_test}
use bacs_legacy.Problem.RunTests.{
  Progress, begin, larger, record_usage, record_school, run_loop, run_tests, note_verbose,
  leave_verbose, after_test, finish,
}
use bacs_legacy.Problem.RunTests.History.{
  plays, History, nothing, played, after, round_cases, finish-LoopDone,
}

regroup : (a b c : Bytes) → ((a ++ codes ",") ++ b) ++ c ≡ a ++ (codes "," ++ (b ++ c))
regroup a b c = simp append_assoc

module _ (d : Double) where
  -- The first result that is not "accepted".
  pub first_failure : List (TestResult d) → Status
  first_failure [] = accepted
  first_failure (out ∷ outs) = if is_accepted out.result then first_failure outs else out.result

  abbrev code : TestResult d → Bytes
  code out = i2s (pos (status_code out.result))

  after_commas : List (TestResult d) → Bytes
  after_commas [] = []
  after_commas (out ∷ outs) = codes "," ++ (code out ++ after_commas outs)

  -- The numbers of the results, with commas between them.
  pub joined : List (TestResult d) → Bytes
  unfolding after_commas
  joined [] = []
  joined (out ∷ outs) = code out ++ after_commas outs

  pub longest : d.Carrier → List (TestResult d) → d.Carrier
  longest = foldl (λ m out. larger d m out.time_used)

  pub largest : d.Carrier → List (TestResult d) → d.Carrier
  largest = foldl (λ m out. larger d m out.memory_used)

  -- What the loop adds to the variables.
  record Adds (pr : Progress d) (outs : List (TestResult d)) (pr' : Progress d) : Type 0 where
    time_added : pr'.max_time ≡ longest pr.max_time outs
    memory_added : pr'.max_memory ≡ largest pr.max_memory outs
    number_kept : pr'.test_num_failed ≡ pr.test_num_failed
    first_added :
        pr'.first_res ≡ (if is_accepted pr.first_res then first_failure outs else pr.first_res)
    results_added :
        pr'.test_results
        ≡ (if pr.test_results =ₛ [] then joined outs else pr.test_results ++ after_commas outs)

  Adds-nil : (pr : Progress d) → Adds pr [] pr
  unfolding longest largest first_failure joined
  Adds-nil pr = record {
    time_added = refl;
    memory_added = refl;
    number_kept = refl;
    first_added = ground arith;
    results_added = ground (arith, append-nil pr.test_results);
  }

  results_step :
      (old word more new fresh : Bytes)
      → (((if old =ₛ [] then [] else old ++ codes ",") ++ word) =ₛ []) ≡ false
      → new ≡ (
          if ((if old =ₛ [] then [] else old ++ codes ",") ++ word) =ₛ []
          then fresh
          else ((if old =ₛ [] then [] else old ++ codes ",") ++ word) ++ more)
      → new ≡ (if old =ₛ [] then word ++ more else old ++ (codes "," ++ (word ++ more)))
  results_step old word more new fresh n h = elim (Bool-cases (old =ₛ [])) [
    | inl e ↦ rw e (rw e at (rw n at h))
    | inr e ↦ rw e ((rw e at (rw n at h)) ∙ regroup old word more)
  ]

  Adds-cons :
      (pr pr' : Progress d) (out : TestResult d) (outs : List (TestResult d)) (path : Option Bytes)
      → Adds (record_school d out (record_usage d out (record pr { verbose_path = path }))) outs pr'
      → Adds pr (out ∷ outs) pr'
  unfolding longest largest first_failure joined record_school record_usage
  Adds-cons pr pr' out outs path h = record {
    time_added = h.time_added;
    memory_added = h.memory_added;
    number_kept = h.number_kept;
    first_added = ground (arith, h.first_added);
    results_added =
        results_step pr.test_results (code out) (after_commas outs) pr'.test_results (joined outs)
          (append-i2s_nonempty _ _) h.results_added;
  }

module _ (os : Os) (d : Double) (c : Settings) (p : Problem d) (run_cmd : Bytes)
    (unset dummies : Vars) where
  abbrev Ran : List TestFile → Progress d → Outcome (Bool × Progress d) × Server os → Type 0
  Ran tests pr r =
      (pr' : Progress d)
      → r.0 ≡ returned (true, pr')
      → (outs : List (TestResult d)) × History os d c p run_cmd unset dummies tests outs
        × Adds d pr outs pr'

  body :
      (t : TestFile) (tests : List TestFile) (i : ℕ) (pr : Progress d) (o : Bool × TestResult d)
      (s₁ s₂ : Server os)
      → run_test os d c p t run_cmd unset dummies pr.info s₁ ≡ (returned o, s₂)
      → ((i : ℕ) (pr : Progress d) (s : Server os)
          → Ran tests pr (run_loop os d c p run_cmd false unset dummies tests i pr s))
      → Ran (t ∷ tests) pr (after os d c p run_cmd unset dummies false t tests i pr o s₂)
  unfolding after_test
  body t tests i pr (false, out) s₁ s₂ e rest = λ pr' h. cc
  body t tests i pr (true, out) s₁ s₂ e rest =
      bind_cases (Ran (t ∷ tests) pr) (leave_verbose os d c t out)
        (λ _. run_loop os d c p run_cmd false unset dummies tests (i + 1) next) s₂
        (λ _ s₃ _ pr' h.
          let (outs, hist, adds) = rest (i + 1) next s₃ pr' h in
          (out ∷ outs, played (plays pr.info s₁ s₂ e) hist, Adds-cons d pr pr' out outs _ adds))
        (λ s₃ e' pr' h. cc)
    where
      next : Progress d
      next = record_school d out (record_usage d out (note_verbose os d c t.verbose pr))

  run_loop-Ran :
      (tests : List TestFile) (i : ℕ) (pr : Progress d) (s : Server os)
      → Ran tests pr (run_loop os d c p run_cmd false unset dummies tests i pr s)
  unfolding run_loop
  run_loop-Ran [] i pr s = λ pr' h. let e : pr ≡ pr' = cc in rw (← e) ([], nothing, Adds-nil d pr)
  run_loop-Ran (t ∷ tests) i pr s =
      round_cases os d c p run_cmd unset dummies (Ran (t ∷ tests) pr) false t tests i pr s
        (λ s' pr' h. cc) (λ o s₁ s₂ e. body t tests i pr o s₁ s₂ e (run_loop-Ran tests))

  -- What a school round says of the problem's tests when it returns true.
  pub record SchoolRound (outs : List (TestResult d)) (pr : Progress d) : Type 0 where
    pub history : History os d c p run_cmd unset dummies p.tests outs
    pub verdict : pr.result ≡ first_failure d outs
    pub results : pr.test_results ≡ joined d outs
    pub time : pr.max_time ≡ longest d d.zero_value outs
    pub memory : pr.max_memory ≡ largest d d.zero_value outs
    pub number : pr.test_num_failed ≡ negsuc 0

  Adds-SchoolRound :
      (result : Status) (info : Option Bytes) (outs : List (TestResult d)) (pr pr' : Progress d)
      → History os d c p run_cmd unset dummies p.tests outs
      → Adds d (begin d result info) outs pr
      → pr' ≡ record pr { result = pr.first_res }
      → SchoolRound outs pr'
  Adds-SchoolRound result info outs pr pr' hist adds e = rw e (record {
    history = hist;
    verdict = adds.first_added;
    results = adds.results_added;
    time = adds.time_added;
    memory = adds.memory_added;
    number = adds.number_kept;
  })

  -- A school round that returns true has run every test, once and in the order of the problem. The
  -- verdict is the first one that is not "accepted", the results are the numbers of all verdicts
  -- with commas between them, the time and the memory are the largest of all tests, and no test is
  -- named as the failed one.
  pub run_tests-SchoolRound :
      (result : Status) (info : Option Bytes) (s : Server os) (pr' : Progress d)
      → (run_tests os d c p run_cmd result info false unset dummies s).0 ≡ returned (true, pr')
      → (outs : List (TestResult d)) × SchoolRound outs pr'
  unfolding run_tests
  run_tests-SchoolRound result info s =
      bind_cases
        (λ r.
          (pr' : Progress d)
          → r.0 ≡ returned (true, pr')
          → (outs : List (TestResult d)) × SchoolRound outs pr')
        (run_loop os d c p run_cmd false unset dummies p.tests 0 (begin d result info))
        (finish os d c) s
        (λ looped s₁ e pr' h.
          let (ok, same) = finish-LoopDone os d c looped s₁ pr' h in
          let (outs, hist, adds) =
            run_loop-Ran p.tests 0 (begin d result info) s looped.1
              (cc (ap (λ (r : Outcome (Bool × Progress d) × Server os). r.0) e)) in
          (outs, Adds-SchoolRound result info outs looped.1 pr' hist adds same))
        (λ s₁ e pr' h. cc)
