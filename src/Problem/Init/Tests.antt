-- ===== src/Problem/Init/Tests.antt =====
-- The tests that `init_tests` collects are numbered, and stand in the order of the files.
use bacs_legacy.Base.{
  ◌≡◌, Bool, false, List, [], ◌∷◌, Bytes, ℤ, ◌==ℤ◌, ltb_ℤ, ap, subst, if_cases, All, arith,
}
use bacs_legacy.Def.{invalid_id}
use bacs_legacy.Double.{Double}
use bacs_legacy.System.{Os, Server, M, Outcome, returned, ◌>>=◌, pure}
use bacs_legacy.System.Rules.{bind_cases}
use bacs_legacy.Config.{Settings}
use bacs_legacy.Database.{db_qres0}
use bacs_legacy.TestFile.{TestFile, new_test, parse_id, tests_sort_func}
use bacs_legacy.Problem.Init.{collect, verbose_query, with_protocol}

-- A test with a number.
abbrev pub IsNumbered : TestFile → Type 0
IsNumbered t = (t.id ==ℤ invalid_id) ≡ false

-- No element is less than one that stands in front of it.
abbrev pub InOrder : {A : Type 0} → (A → A → Bool) → List A → Type 0
InOrder less [] = Unit
InOrder less (x ∷ xs) = All (λ y. less y x ≡ false) xs × InOrder less xs

abbrev pub lower_id : TestFile → TestFile → Bool
lower_id t u = ltb_ℤ t.id u.id

-- What the tests have to do with the files that they are made from.
pub record Collected (files : List Bytes) (tests : List TestFile) : Type 0 where
  pub numbered : All IsNumbered tests
  pub ordered : InOrder tests_sort_func files → InOrder lower_id tests
  pub bounded :
      (x : ℤ)
      → All (λ fn. ltb_ℤ (parse_id fn) x ≡ false) files
      → All (λ (t : TestFile). ltb_ℤ t.id x ≡ false) tests

skipped :
    (fn : Bytes) (files : List Bytes) (tests : List TestFile)
    → Collected files tests
    → Collected (fn ∷ files) tests
skipped fn files tests k = record {
  numbered = k.numbered;
  ordered = λ h. k.ordered h.1;
  bounded = λ x h. k.bounded x h.1;
}

taken :
    (fn : Bytes) (files : List Bytes) (t : TestFile) (tests : List TestFile)
    → t.id ≡ parse_id fn
    → IsNumbered t
    → Collected files tests
    → Collected (fn ∷ files) (t ∷ tests)
unfolding tests_sort_func
taken fn files t tests e n k = record {
  numbered = (n, k.numbered);
  ordered = λ h. (rw e (k.bounded (parse_id fn) h.0), k.ordered h.1);
  bounded = λ x h. (rw e h.0, k.bounded x h.1);
}

module _ (os : Os) (d : Double) (c : Settings) (submit_id dir : Bytes) where
  abbrev CollectedAll : List Bytes → Outcome (List TestFile) × Server os → Type 0
  CollectedAll files r = (tests : List TestFile) → r.0 ≡ returned tests → Collected files tests

  with_protocol-id : (wanted : Bytes) (t : TestFile) → (with_protocol os d c dir wanted t).id ≡ t.id
  with_protocol-id wanted t = ground arith

  pub collect-Collected :
      (files : List Bytes) (s : Server os)
      → CollectedAll files (collect os d c submit_id dir files s)
  unfolding collect
  collect-Collected [] s = λ tests h.
      let e : [] ≡ tests = cc in
      subst (Collected []) e (record { numbered = tt; ordered = λ _. tt; bounded = λ _ _. tt })
  collect-Collected (fn ∷ files) s =
      let t : TestFile = new_test (λ name. os.exists name s.world) fn in
      if_cases (λ (m : M os (List TestFile)). CollectedAll (fn ∷ files) (m s)) (t.id ==ℤ invalid_id)
        _ _ (λ _ tests h. skipped fn files tests (collect-Collected files s tests h))
        (λ n.
          bind_cases (CollectedAll (fn ∷ files)) (db_qres0 os (verbose_query os d c submit_id t))
            (λ wanted. collect os d c submit_id dir files >>= λ rest.
              pure (with_protocol os d c dir wanted t ∷ rest))
            s
            (λ wanted s₁ _.
              bind_cases (CollectedAll (fn ∷ files)) (collect os d c submit_id dir files)
                (λ rest. pure (with_protocol os d c dir wanted t ∷ rest)) s₁
                (λ rest s₂ e tests h.
                  let k = collect-Collected files s₁ rest (ap (λ r. r.0) e) in
                  let u : TestFile = with_protocol os d c dir wanted t in
                  let i : u.id ≡ t.id = with_protocol-id wanted t in
                  let same : u ∷ rest ≡ tests = cc in
                  subst (Collected (fn ∷ files)) same (taken fn files u rest i (rw i n) k))
                (λ s₂ e tests h. cc))
            (λ s₁ e tests h. cc))
