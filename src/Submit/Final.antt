-- ===== src/Submit/Final.antt =====
-- The status that a submission is stored with takes it out of the queue.
use bacs_legacy.Base.{◌≡◌, refl, Bool, true, false, [], ◌∷◌, ◌++◌, arith, if_cases, codes}
use bacs_legacy.Def.{Status, pending, running, server_error}
use bacs_legacy.Double.{Double}
use bacs_legacy.System.{Os, Server, M, Outcome, returned, ◌>>=◌, pure, logged}
use bacs_legacy.System.Rules.{bind_cases}
use bacs_legacy.Util.Format.{c_str, format}
use bacs_legacy.Config.{Settings}
use bacs_legacy.Run.{Vars}
use bacs_legacy.TempFile.{erase}
use bacs_legacy.Problem.{Problem}
use bacs_legacy.Problem.Init.{init, destroy}
use bacs_legacy.Problem.RunTests.{run_tests}
use bacs_legacy.Problem.RunTests.History.Outcomes.{is_outcome, run_tests-outcome}
use bacs_legacy.Submission.{Submission}
use bacs_legacy.Submit.{
  compile, test, test_problem, test_compiled, conclude, tested, compile_and_test, wanted_info,
  without_limit, with_progress,
}
use bacs_legacy.Submit.Compiling.{compile-Compiles, is_refusal}

-- Not a status of the queue.
abbrev pub is_final : Status → Bool
is_final pending = false
is_final running = false
is_final _ = true

outcome-final : (status : Status) → is_outcome status ≡ true → is_final status ≡ true
outcome-final status h = ground arith

refusal-final : (status : Status) → is_refusal status ≡ true → is_final status ≡ true
refusal-final status h = ground arith

module _ (os : Os) (d : Double) (c : Settings) where
  abbrev Final : Outcome (Bool × Submission d) × Server os → Type 0
  Final r = (ok : Bool) (s' : Submission d) → r.0 ≡ returned (ok, s') → is_final s'.status ≡ true

  test_problem-Final :
      (s : Submission d) (unset dummies : Vars) (ready : Bool × Problem d) (st : Server os)
      → Final (test_problem os d c s unset dummies ready st)
  unfolding test_problem
  test_problem-Final s unset dummies (false, p) st = λ ok s' h. ground arith
  test_problem-Final s unset dummies (true, p₀) st =
      let p : Problem d = without_limit os d c s p₀ in
      bind_cases Final
        (run_tests os d c p s.run_cmd server_error (wanted_info os d c s) s.acm unset dummies)
        (λ r. destroy os d c p >>= λ _. pure (r.0, with_progress os d c s p r.1)) st
        (λ r st₁ e ok s' h.
          let k = outcome-final r.1.result (
            run_tests-outcome os d c p s.run_cmd server_error (wanted_info os d c s) s.acm unset
              dummies st r.0 r.1 refl (cc)) in
          ground arith)
        (λ st₁ e ok s' h. cc)

  test-Final :
      (p : Problem d) (s : Submission d) (unset dummies : Vars) (st : Server os)
      → Final (test os d c p s unset dummies st)
  unfolding test
  test-Final p s unset dummies st =
      let fresh : Problem d = record p { fatal_error = false; tests = [] } in
      bind_cases Final (init os d c fresh s.pid s.sid) (test_problem os d c s unset dummies) st
        (λ ready st₁ e. test_problem-Final s unset dummies ready st₁) (λ st₁ e ok s' h. cc)

  abbrev FinalAfter : Outcome (Submission d) × Server os → Type 0
  FinalAfter r = (s' : Submission d) → r.0 ≡ returned s' → is_final s'.status ≡ true

  test_compiled-Final :
      (p : Problem d) (unset dummies : Vars) (t : Bool × Submission d) (st : Server os)
      → (t.0 ≡ false → is_refusal t.1.status ≡ true)
      → FinalAfter (test_compiled os d c p unset dummies t st)
  unfolding test_compiled
  test_compiled-Final p unset dummies (false, s) st k =
      let f = refusal-final s.status (k refl) in λ s' h. ground arith
  test_compiled-Final p unset dummies (true, s) st k =
      bind_cases FinalAfter (test os d c p s unset dummies)
        (λ t. erase os t.1.run_file >>= λ e. pure (record t.1 { run_file = e.1 })) st
        (λ t st₁ e s' h. let f = test-Final p s unset dummies st t.0 t.1 (cc) in ground arith)
        (λ st₁ e s' h. cc)

  conclude-Final :
      (s : Submission d) (unset : Vars) (st : Server os)
      → is_final s.status ≡ true
      → Final (conclude os d c s unset st)
  unfolding conclude
  conclude-Final s unset st k = λ ok s' h. ground arith

  tested-Final :
      (p : Problem d) (unset dummies : Vars) (t : Bool × Submission d) (st : Server os)
      → (t.0 ≡ false → is_refusal t.1.status ≡ true)
      → Final (tested os d c p unset dummies t st)
  unfolding tested
  tested-Final p unset dummies t st k =
      bind_cases Final (test_compiled os d c p unset dummies t) (λ s₁. conclude os d c s₁ unset) st
        (λ s₁ st₁ e.
          conclude-Final s₁ unset st₁ (test_compiled-Final p unset dummies t st k s₁ (cc)))
        (λ st₁ e ok s' h. cc)

  -- A submission that was found in the database ends with a status that is neither "pending" nor
  -- "running", on every branch of the compilation, of the preparation of the problem and of the tests.
  pub compile_and_test-final :
      (p : Problem d) (s : Submission d) (unset dummies : Vars) (st : Server os) (ok : Bool)
      (s' : Submission d)
      → s.not_found ≡ false
      → (compile_and_test os d c p s unset dummies st).0 ≡ returned (ok, s')
      → is_final s'.status ≡ true
  unfolding compile_and_test
  compile_and_test-final p s unset dummies st ok s' found =
      let text = format (codes "Testing submission [" ++ (c_str s.sid ++ codes "]")) in
      let st₀ : Server os = record st { events = st.events ++ logged text [] ∷ [] } in
      if_cases
        (λ (m : M os (Bool × Submission d)).
          (m st₀).0 ≡ returned (ok, s') → is_final s'.status ≡ true)
        s.not_found _ _ (λ gone h. absurd (cc))
        (λ _.
          bind_cases Final (compile os d c s unset) (tested os d c p unset dummies) st₀
            (λ t st₁ e.
              tested-Final p unset dummies t st₁
                ((compile-Compiles os d c s unset st₀ t.0 t.1 (cc)).refused))
            (λ st₁ e ok s' h. cc) ok s')
