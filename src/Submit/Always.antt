-- ===== src/Submit/Always.antt =====
-- `test_submit` never asks the server to stop.
use bacs_legacy.Base.{
  ◌≡◌, refl, ap, Bool, true, false, [], ◌∷◌, ◌++◌, Bytes, arith, if_cases, codes, ◌∙◌,
}
use bacs_legacy.Double.{Double}
use bacs_legacy.System.{Os, Server, M, Outcome, returned, ◌>>=◌, pure, logged}
use bacs_legacy.System.Rules.{bind_cases}
use bacs_legacy.Util.Format.{c_str, format}
use bacs_legacy.Config.{Settings}
use bacs_legacy.Run.{Vars}
use bacs_legacy.TempFile.{erase}
use bacs_legacy.Problem.{Problem}
use bacs_legacy.Problem.Init.{init}
use bacs_legacy.Problem.Init.Keeps.{init-Prepares}
use bacs_legacy.Submission.{Submission, new_submit}
use bacs_legacy.Submit.{
  compile, test, test_problem, test_compiled, conclude, tested, compile_and_test, test_submit,
}
use bacs_legacy.Submit.Compiling.{compile-Compiles}

module _ (os : Os) (d : Double) (c : Settings) where
  test_problem-fatal :
      (s : Submission d) (unset dummies : Vars) (ready : Bool × Problem d) (st : Server os)
      (ok : Bool) (s' : Submission d)
      → ready.1.fatal_error ≡ false
      → (test_problem os d c s unset dummies ready st).0 ≡ returned (ok, s')
      → s'.fatal_error ≡ s.fatal_error
  unfolding test_problem
  test_problem-fatal s unset dummies (false, p) st = λ ok s' k h. ground arith
  test_problem-fatal s unset dummies (true, p) st = λ ok s' k h. ground arith

  test-fatal :
      (p : Problem d) (s : Submission d) (unset dummies : Vars) (st : Server os) (ok : Bool)
      (s' : Submission d)
      → (test os d c p s unset dummies st).0 ≡ returned (ok, s')
      → s'.fatal_error ≡ s.fatal_error
  unfolding test
  test-fatal p s unset dummies st =
      let fresh : Problem d = record p { fatal_error = false; tests = [] } in
      bind_cases
        (λ r.
          (ok : Bool) (s' : Submission d)
          → r.0 ≡ returned (ok, s')
          → s'.fatal_error ≡ s.fatal_error)
        (init os d c fresh s.pid s.sid) (test_problem os d c s unset dummies) st
        (λ ready s₁ e ok s'. test_problem-fatal s unset dummies ready s₁ ok s' (
          (init-Prepares os d c fresh s.pid s.sid st ready.0 ready.1 refl
            (ap (λ r. r.0) e)).fatal_kept))
        (λ s₁ e ok s' h. cc)

  abbrev NotFatal : Outcome (Submission d) × Server os → Type 0
  NotFatal r = (s' : Submission d) → r.0 ≡ returned s' → s'.fatal_error ≡ false

  test_compiled-NotFatal :
      (p : Problem d) (unset dummies : Vars) (t : Bool × Submission d) (st : Server os)
      → t.1.fatal_error ≡ false
      → NotFatal (test_compiled os d c p unset dummies t st)
  unfolding test_compiled
  test_compiled-NotFatal p unset dummies (false, s) st k = λ s' h. cc
  test_compiled-NotFatal p unset dummies (true, s) st k =
      bind_cases NotFatal (test os d c p s unset dummies)
        (λ t. erase os t.1.run_file >>= λ e. pure (record t.1 { run_file = e.1 })) st
        (λ t s₁ e. let f = test-fatal p s unset dummies st t.0 t.1 (cc) in λ s' h. ground arith)
        (λ s₁ e s' h. cc)

  abbrev AlwaysTrue : {A : Type 0} → Outcome (Bool × A) × Server os → Type 0
  AlwaysTrue {A} r = (ok : Bool) (a : A) → r.0 ≡ returned (ok, a) → ok ≡ true

  conclude-AlwaysTrue :
      (s : Submission d) (unset : Vars) (st : Server os)
      → s.fatal_error ≡ false
      → AlwaysTrue (conclude os d c s unset st)
  unfolding conclude
  conclude-AlwaysTrue s unset st k = λ ok s' h. ground arith

  tested-AlwaysTrue :
      (p : Problem d) (unset dummies : Vars) (t : Bool × Submission d) (st : Server os)
      → t.1.fatal_error ≡ false
      → AlwaysTrue (tested os d c p unset dummies t st)
  unfolding tested
  tested-AlwaysTrue p unset dummies t st k =
      bind_cases AlwaysTrue (test_compiled os d c p unset dummies t)
        (λ s₁. conclude os d c s₁ unset) st
        (λ s₁ st₁ e.
          conclude-AlwaysTrue s₁ unset st₁ (test_compiled-NotFatal p unset dummies t st k s₁ (cc)))
        (λ st₁ e ok s' h. cc)

  -- `compile_and_test` returns true for every submission that is not marked as fatal.
  compile_and_test-AlwaysTrue :
      (p : Problem d) (s : Submission d) (unset dummies : Vars) (st : Server os)
      → s.fatal_error ≡ false
      → AlwaysTrue (compile_and_test os d c p s unset dummies st)
  unfolding compile_and_test
  compile_and_test-AlwaysTrue p s unset dummies st k =
      let text = format (codes "Testing submission [" ++ (c_str s.sid ++ codes "]")) in
      let st₀ : Server os = record st { events = st.events ++ logged text [] ∷ [] } in
      if_cases (λ (m : M os (Bool × Submission d)). AlwaysTrue (m st₀)) s.not_found _ _
        (λ _ ok s' h. cc)
        (λ _.
          bind_cases AlwaysTrue (compile os d c s unset) (tested os d c p unset dummies) st₀
            (λ t st₁ e.
              tested-AlwaysTrue p unset dummies t st₁
                ((compile-Compiles os d c s unset st₀ t.0 t.1 (cc)).not_fatal ∙ k))
            (λ st₁ e ok s' h. cc))

  -- A new submission is not marked.
  new_submit-NotFatal :
      (sid : Bytes) (acm need_info : Bool) (st : Server os)
      → NotFatal (new_submit os d c sid acm need_info st)
  unfolding new_submit
  new_submit-NotFatal sid acm need_info st = λ s' h. ground arith

  abbrev ReturnsTrue : Outcome Bool × Server os → Type 0
  ReturnsTrue r = (ok : Bool) → r.0 ≡ returned ok → ok ≡ true

  -- `test_submit` behind the constructor.
  finished : Problem d → Vars → Vars → Submission d → M os Bool
  finished p unset dummies s = compile_and_test os d c p s unset dummies >>= λ r.
      erase os r.1.src_file >>= λ _. erase os r.1.run_file >>= λ _. pure r.0

  finished-ReturnsTrue :
      (p : Problem d) (s : Submission d) (unset dummies : Vars) (st : Server os)
      → s.fatal_error ≡ false
      → ReturnsTrue (finished p unset dummies s st)
  unfolding finished
  finished-ReturnsTrue p s unset dummies st k =
      bind_cases ReturnsTrue (compile_and_test os d c p s unset dummies)
        (λ r. erase os r.1.src_file >>= λ _. erase os r.1.run_file >>= λ _. pure r.0) st
        (λ r st₁ e ok h.
          let t = compile_and_test-AlwaysTrue p s unset dummies st k r.0 r.1 (cc) in ground arith)
        (λ st₁ e ok h. cc)

  -- `test_submit` returns true whenever it returns: the server never stops because of a submission,
  -- whatever the database, the compiler and the problem do.
  pub test_submit-true :
      (p : Problem d) (acm need_info : Bool) (sid : Bytes) (unset dummies : Vars) (st : Server os)
      (ok : Bool)
      → (test_submit os d c p acm need_info sid unset dummies st).0 ≡ returned ok
      → ok ≡ true
  unfolding test_submit finished
  test_submit-true p acm need_info sid unset dummies st ok =
      bind_cases ReturnsTrue (new_submit os d c sid acm need_info) (finished p unset dummies) st
        (λ s st₁ e.
          finished-ReturnsTrue p s unset dummies st₁
            (new_submit-NotFatal sid acm need_info st s (cc)))
        (λ st₁ e ok h. cc) ok
