-- ===== src/Submit/Gone.antt =====
-- `test_submit` of src/lib/submit.cpp leaves no temporary file behind.
use bacs_legacy.Base.{Bool, Bool-cases, inl, inr, List, Bytes}
use bacs_legacy.Double.{Double}
use bacs_legacy.System.{Os, M, ◌>>=◌, pure}
use bacs_legacy.System.Triples.{Triple, After-weaken, bind-Triple, bind-Keeps}
use bacs_legacy.System.Facts.{Quiet}
use bacs_legacy.Config.{Settings}
use bacs_legacy.TempFile.{erase}
use bacs_legacy.TempFile.Trace.{IsTempName, FileCall, Traces}
use bacs_legacy.TempFile.Gone.{gone, kept, gone-Stable, gone-Elsewhere}
use bacs_legacy.TempFile.Owned.{erase-holds, erase-Quiet}
use bacs_legacy.Run.{Vars}
use bacs_legacy.Run.Fio.Steps.{Apart}
use bacs_legacy.Problem.{Problem}
use bacs_legacy.Submission.{Submission, new_submit}
use bacs_legacy.Submit.{compile_and_test, test_submit}
use bacs_legacy.Submit.Source.{SourceOf, new_submit-Quiet}
use bacs_legacy.Submit.Concluded.{Stores, StoredOf}
use bacs_legacy.Submit.Owned.{compile_and_test-Stored, compile_and_test-unfound}

module _ (os : Os) (d : Double) (c : Settings) (calls : os.World → List FileCall)
    (traces : Traces os calls) (x : Bytes) (temp : IsTempName os c x)
    (apart : Apart os c (gone os calls x)) where
  still_gone : Stores os (gone os calls x) (λ q. (gone os calls x).holds)
  still_gone = record {
    after-Stable = λ q. gone-Stable os calls x traces;
    sent = λ q v e p. kept os calls x v _ (traces.query q v.1) p;
    lost = λ q v e p. p;
  }

  compile_and_test-Source :
      (p : Problem d) (s : Submission d) (unset dummies : Vars)
      → Triple os
          (gone os calls x).holds
          (compile_and_test os d c p s unset dummies)
          (SourceOf os d (gone os calls x))
  compile_and_test-Source p s unset dummies st q = elim (Bool-cases s.not_found) [
    | inl e ↦ compile_and_test-unfound os d c (gone os calls x) p s unset dummies e st q
    | inr e ↦
        let stored =
          compile_and_test-Stored os d c (gone os calls x) (gone-Stable os calls x traces)
            (gone-Elsewhere os calls x c temp) apart (λ q. (gone os calls x).holds) still_gone p s
            unset dummies e st q in
        After-weaken os
          (StoredOf os d c (gone os calls x) (gone-Stable os calls x traces)
            (λ q. (gone os calls x).holds) still_gone)
          (SourceOf os d (gone os calls x)) (compile_and_test os d c p s unset dummies st)
          (λ r v owned. owned.1) stored
  ]

  -- Whatever the compiler, the runs, the checker and the database do, every temporary file that the
  -- submission, its compilation and its tests have made is erased, on every path.
  pub test_submit-Quiet :
      (p : Problem d) (acm need_info : Bool) (sid : Bytes) (unset dummies : Vars)
      → Quiet os (gone os calls x) (test_submit os d c p acm need_info sid unset dummies)
  unfolding test_submit
  test_submit-Quiet p acm need_info sid unset dummies =
      let x_gone = (gone os calls x).holds in
      let stable = gone-Stable os calls x traces in
      let drop_run : Bool × Submission d → M os Bool =
        λ r. erase os r.1.run_file >>= λ _. pure r.0 in
      let drop : Bool × Submission d → M os Bool = λ r. erase os r.1.src_file >>= λ _. drop_run r in
      bind-Keeps os x_gone (new_submit os d c sid acm need_info)
        (λ s. compile_and_test os d c p s unset dummies >>= drop)
        (new_submit-Quiet os d c (gone os calls x) stable sid acm need_info)
        (λ s.
          bind-Triple os x_gone (SourceOf os d (gone os calls x)) (λ _. x_gone)
            (compile_and_test os d c p s unset dummies) drop
            (compile_and_test-Source p s unset dummies)
            (λ r.
              bind-Triple os (SourceOf os d (gone os calls x) r) (λ _. x_gone) (λ _. x_gone)
                (erase os r.1.src_file) (λ _. drop_run r)
                (erase-holds os c (gone os calls x) stable r.1.src_file)
                (λ _.
                  bind-Keeps os x_gone (erase os r.1.run_file) (λ _. pure r.0)
                    (erase-Quiet os c (gone os calls x) stable r.1.run_file) (λ _ st q. q))))
