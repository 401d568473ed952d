-- ===== src/Problem/Init/Parts.antt =====
-- What the parts of `init` make of a problem: the names of its files, its checker and its tests.
use bacs_legacy.Base.{◌≡◌, refl, Bool, true, List, [], ◌++◌, Bytes, codes, ap, subst, All, arith}
use bacs_legacy.Double.{Double}
use bacs_legacy.System.{Os, Server, M, Outcome, returned, ◌>>=◌, pure, throwing, when}
use bacs_legacy.System.Rules.{bind_cases}
use bacs_legacy.Config.{Settings, cfg}
use bacs_legacy.IoName.{check_iofile_name}
use bacs_legacy.TestFile.{tests_sort_func}
use bacs_legacy.Problem.{Problem}
use bacs_legacy.Problem.Init.{
  init_iofiles, init_checker, init_tests, collect, find_files, archive_dir, default_checker,
  named_checker,
}
use bacs_legacy.Problem.Init.Tests.{IsNumbered, InOrder, lower_id, collect-Collected}

-- `std::sort` leaves no element in front of a smaller one.
abbrev pub Sorts : Os → Type 0
Sorts os = (files : List Bytes) → InOrder tests_sort_func (os.sort tests_sort_func files)

module _ {d : Double} where
  -- What a part leaves alone.
  pub record Same (p p' : Problem d) : Type 0 where
    pub fatal_same : p'.fatal_error ≡ p.fatal_error
    pub tests_same : p'.tests ≡ p.tests

  pub record SafeNames (p : Problem d) : Type 0 where
    pub input_safe : check_iofile_name p.input_fn ≡ true
    pub output_safe : check_iofile_name p.output_fn ≡ true

  pub record Sorted (sorts : Type 0) (p : Problem d) : Type 0 where
    pub numbered : All IsNumbered p.tests
    pub ordered : sorts → InOrder lower_id p.tests

  -- A problem that is ready to be used.
  pub record Ready (sorts : Type 0) (p : Problem d) : Type 0 where
    pub names : SafeNames p
    pub sorted : Sorted sorts p

  -- What `init` makes of a problem with the mark `fatal`. `ok` is what it returns.
  pub record Prepares (sorts : Type 0) (fatal ok : Bool) (p' : Problem d) : Type 0 where
    pub fatal_kept : p'.fatal_error ≡ fatal
    pub ready : ok ≡ true → Ready sorts p'

module _ (os : Os) (d : Double) (c : Settings) where
  pub init_iofiles-SafeNames :
      (p : Problem d) (s : Server os) (ok : Bool) (p' : Problem d)
      → (init_iofiles os d c p s).0 ≡ returned (ok, p')
      → Same p p' × (ok ≡ true → SafeNames p')
  unfolding init_iofiles
  init_iofiles-SafeNames p s ok p' h = ground arith

  pub init_checker-Same :
      (p : Problem d) (s : Server os) (ok : Bool) (p' : Problem d)
      → (init_checker os d c p s).0 ≡ returned (ok, p')
      → Same p p' × ((p'.input_fn ≡ p.input_fn) × (p'.output_fn ≡ p.output_fn))
  unfolding init_checker default_checker named_checker
  init_checker-Same p s ok p' h = ground arith

  -- What `init_tests` makes of a problem without tests.
  pub record KeptSorted (p p' : Problem d) : Type 0 where
    pub fatal_same : p'.fatal_error ≡ p.fatal_error
    pub input_same : p'.input_fn ≡ p.input_fn
    pub output_same : p'.output_fn ≡ p.output_fn
    pub sorted : Sorted (Sorts os) p'

  abbrev pub Sorting : Problem d → Outcome (Problem d) × Server os → Type 0
  Sorting p r = (p' : Problem d) → r.0 ≡ returned p' → KeptSorted p p'

  collected-Sorting :
      (p : Problem d) (files : List Bytes) (submit_id dir : Bytes) (s : Server os)
      → p.tests ≡ []
      → Sorting p (
          (collect os d c submit_id dir (os.sort tests_sort_func files) >>= λ tests.
          pure (record p { tests = p.tests ++ tests; is_tests_init = true }))
            s)
  collected-Sorting p files submit_id dir s e =
      bind_cases (Sorting p) (collect os d c submit_id dir (os.sort tests_sort_func files))
        (λ tests. pure (record p { tests = p.tests ++ tests; is_tests_init = true })) s
        (λ tests s₁ k p' h.
          let all =
            collect-Collected os d c submit_id dir (os.sort tests_sort_func files) s tests
              (ap (λ r. r.0) k) in
          let same : record p { tests = p.tests ++ tests; is_tests_init = true } ≡ p' = cc in
          let only : tests ≡ p.tests ++ tests = rw e refl in
          subst (KeptSorted p) same (record {
            fatal_same = refl;
            input_same = refl;
            output_same = refl;
            sorted = record {
              numbered = subst (All IsNumbered) only all.numbered;
              ordered = λ sorts. subst (InOrder lower_id) only (all.ordered (sorts files));
            };
          }))
        (λ s₁ k p' h. cc)

  pub init_tests-Sorting :
      (p : Problem d) (submit_id : Bytes) (s : Server os)
      → p.tests ≡ []
      → Sorting p (init_tests os d c p submit_id s)
  unfolding init_tests
  init_tests-Sorting p submit_id s e =
      let dir : Bytes = cfg c (codes "general.temp_dir") ++ (codes "/" ++ submit_id) in
      let find : M os (List Bytes) =
        find_files os (archive_dir os d c p.id ++ codes "/tests/") (codes ".in") in
      let rest : List Bytes → M os (Problem d) = λ files.
        collect os d c submit_id dir (os.sort tests_sort_func files) >>= λ tests.
        pure (record p { tests = p.tests ++ tests; is_tests_init = true }) in
      bind_cases (Sorting p) (when (os.exists dir s.world) (throwing (os.remove_all dir)))
        (λ _. find >>= rest) s
        (λ _ s₁ _.
          bind_cases (Sorting p) find rest s₁
            (λ files s₂ _. collected-Sorting p files submit_id dir s₂ e) (λ s₂ _ p' h. cc))
        (λ s₁ _ p' h. cc)
