-- ===== src/Submit/Owned.antt =====
-- `compile_and_test` of src/lib/submit.cpp: its source file is owned, and its result stored.
use bacs_legacy.Base.{◌≡◌, Bool, true, false, [], ◌∷◌, Bytes}
use bacs_legacy.Def.{server_error, invalid_problem}
use bacs_legacy.Double.{Double}
use bacs_legacy.TempFile.Trace.{last}
use bacs_legacy.System.{Os, M, ◌>>=◌, pure}
use bacs_legacy.System.Triples.{View, Triple, bind-Triple, if-Triple}
use bacs_legacy.Config.{Settings}
use bacs_legacy.TempFile.{TempFile, erase}
use bacs_legacy.System.Facts.{Fact, Stable, Elsewhere}
use bacs_legacy.TempFile.Owned.{Owned-framed, erase-Quiet}
use bacs_legacy.Run.{Vars}
use bacs_legacy.Run.Fio.Steps.{Apart}
use bacs_legacy.Problem.{Problem}
use bacs_legacy.Problem.Init.{init, destroy}
use bacs_legacy.Problem.Init.Owned.{init-Quiet, destroy-Quiet}
use bacs_legacy.Problem.RunTests.{Progress, run_tests}
use bacs_legacy.Problem.RunTests.Owned.{run_tests-Quiet}
use bacs_legacy.Submission.{Submission}
use bacs_legacy.Submit.Source.{Source, SourceOf, compile-Source}
use bacs_legacy.Submit.Concluded.{Stores, StoredOf, conclude-Stored}
use bacs_legacy.Submit.{
  compile, wanted_info, with_progress, without_limit, test_problem, test, conclude, test_compiled,
  tested, compile_and_test,
}

module _ (os : Os) (d : Double) (c : Settings) (x : Fact os) (stable : Stable os x)
    (elsewhere : Elsewhere os x last) (apart : Apart os c x) where
  test_problem-Source :
      (s : Submission d) (unset dummies : Vars) (ready : Bool × Problem d)
      → Triple os (Source os d x s) (test_problem os d c s unset dummies ready) (SourceOf os d x)
  unfolding test_problem
  test_problem-Source s unset dummies (false, p) =
      let end : M os (Bool × Submission d) = pure (false, record s { status = invalid_problem }) in
      λ st q.
        bind-Triple os (Source os d x s) (λ _. Source os d x s) (SourceOf os d x) (destroy os d c p)
          (λ _. end)
          (Owned-framed os x (s.src_file ∷ []) (destroy os d c p) (destroy-Quiet os d c x stable p))
          (λ _ st p. p) _ q
  test_problem-Source s unset dummies (true, p₀) =
      let p = without_limit os d c s p₀ in
      let ran =
        run_tests os d c p s.run_cmd server_error (wanted_info os d c s) s.acm unset dummies in
      let end : Bool × Progress d → M os (Bool × Submission d) =
        λ r. pure (r.0, with_progress os d c s p r.1) in
      bind-Triple os (Source os d x s) (λ _. Source os d x s) (SourceOf os d x) ran
        (λ r. destroy os d c p >>= λ _. end r)
        (Owned-framed os x (s.src_file ∷ []) ran (
          run_tests-Quiet os d c x stable elsewhere apart p s.run_cmd server_error
            (wanted_info os d c s) s.acm unset dummies))
        (λ r.
          bind-Triple os (Source os d x s) (λ _. Source os d x s) (SourceOf os d x)
            (destroy os d c p) (λ _. end r)
            (Owned-framed os x (s.src_file ∷ []) (destroy os d c p)
              (destroy-Quiet os d c x stable p))
            (λ _ st q. q))

  test-Source :
      (p : Problem d) (s : Submission d) (unset dummies : Vars)
      → Triple os (Source os d x s) (test os d c p s unset dummies) (SourceOf os d x)
  unfolding test
  test-Source p s unset dummies =
      let prepared = init os d c (record p { fatal_error = false; tests = [] }) s.pid s.sid in
      bind-Triple os (Source os d x s) (λ _. Source os d x s) (SourceOf os d x) prepared
        (test_problem os d c s unset dummies)
        (Owned-framed os x (s.src_file ∷ []) prepared (init-Quiet os d c x stable _ s.pid s.sid))
        (test_problem-Source s unset dummies)

  test_compiled-Source :
      (p : Problem d) (unset dummies : Vars) (r : Bool × Submission d)
      → Triple os (Source os d x r.1) (test_compiled os d c p unset dummies r) (Source os d x)
  unfolding test_compiled
  test_compiled-Source p unset dummies (false, s) = λ st q. q
  test_compiled-Source p unset dummies (true, s) =
      let end : Submission d → Bool × TempFile → M os (Submission d) =
        λ s₁ e. pure (record s₁ { run_file = e.1 }) in
      bind-Triple os (Source os d x s) (SourceOf os d x) (Source os d x)
        (test os d c p s unset dummies) (λ r. erase os r.1.run_file >>= end r.1)
        (test-Source p s unset dummies)
        (λ r.
          bind-Triple os (Source os d x r.1) (λ _. Source os d x r.1) (Source os d x)
            (erase os r.1.run_file) (end r.1)
            (Owned-framed os x (r.1.src_file ∷ []) (erase os r.1.run_file)
              (erase-Quiet os c x stable r.1.run_file))
            (λ e st q. q))

module _ (os : Os) (d : Double) (c : Settings) (x : Fact os) (stable : Stable os x)
    (elsewhere : Elsewhere os x last) (apart : Apart os c x) (after : Bytes → View os → Type 0)
    (stores : Stores os x after) where
  tested-Stored :
      (p : Problem d) (unset dummies : Vars) (r : Bool × Submission d)
      → Triple os
          (Source os d x r.1)
          (tested os d c p unset dummies r)
          (StoredOf os d c x stable after stores)
  unfolding tested
  tested-Stored p unset dummies r =
      bind-Triple os (Source os d x r.1) (Source os d x) (StoredOf os d c x stable after stores)
        (test_compiled os d c p unset dummies r) (λ s₁. conclude os d c s₁ unset)
        (test_compiled-Source os d c x stable elsewhere apart p unset dummies r)
        (λ s₁. conclude-Stored os d c x stable after stores s₁ unset)

  -- A submission that was found has its result stored once, as the last change of the database.
  pub compile_and_test-Stored :
      (p : Problem d) (s : Submission d) (unset dummies : Vars)
      → s.not_found ≡ false
      → Triple os x.holds
          (compile_and_test os d c p s unset dummies)
          (StoredOf os d c x stable after stores)
  unfolding compile_and_test
  compile_and_test-Stored p s unset dummies found st q =
      let compiled = compile os d c s unset in
      if-Triple os {A = Bool × Submission d} x.holds (StoredOf os d c x stable after stores)
        s.not_found _ (compiled >>= tested os d c p unset dummies) (λ e. absurd (cc))
        (λ _.
          bind-Triple os x.holds (SourceOf os d x) (StoredOf os d c x stable after stores) compiled
            (tested os d c p unset dummies) (compile-Source os d c x stable s unset)
            (tested-Stored p unset dummies))
        _ q

module _ (os : Os) (d : Double) (c : Settings) (x : Fact os) where
  -- For one that was not found nothing is done.
  pub compile_and_test-unfound :
      (p : Problem d) (s : Submission d) (unset dummies : Vars)
      → s.not_found ≡ true
      → Triple os x.holds (compile_and_test os d c p s unset dummies) (SourceOf os d x)
  unfolding compile_and_test
  compile_and_test-unfound p s unset dummies none_found st q =
      if-Triple os {A = Bool × Submission d} x.holds (SourceOf os d x) s.not_found _
        (compile os d c s unset >>= tested os d c p unset dummies) (λ _ st q f. q)
        (λ e. absurd (cc)) _ q
