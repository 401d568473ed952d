-- ===== src/Problem/Init/Keeps.antt =====
-- What a prepared problem is: its names are safe, and its tests are numbered and in order.
use bacs_legacy.Base.{
  ◌≡◌, refl, Bool, true, false, not, Option, none, some, [], ◌++◌, Bytes, codes, ap, subst, ◌∙◌,
  if◌then◌else◌, All, arith,
}
use bacs_legacy.Double.{Double}
use bacs_legacy.System.{Os, Server, M, Outcome, returned, ◌>>=◌, pure, try_os, throwing}
use bacs_legacy.System.Rules.{bind_cases}
use bacs_legacy.Config.{Settings, CfgEngine, cfg}
use bacs_legacy.IoName.{check_iofile_name}
use bacs_legacy.Problem.{Problem}
use bacs_legacy.Problem.Init.{
  init, init_unpacked, init_from, init_parts, init_iofiles, init_checker, init_tests, archive_dir,
  limit_of,
}
use bacs_legacy.Problem.Init.Parts.{
  Sorts, Same, SafeNames, Prepares, init_iofiles-SafeNames, init_checker-Same, init_tests-Sorting,
}
use bacs_legacy.Problem.Init.Tests.{IsNumbered, InOrder, lower_id}

module _ (os : Os) (d : Double) (c : Settings) where
  abbrev Preparing : Problem d → Outcome (Bool × Problem d) × Server os → Type 0
  Preparing p r =
      (ok : Bool) (p' : Problem d)
      → r.0 ≡ returned (ok, p')
      → Prepares (Sorts os) p.fatal_error ok p'

  -- A part that fails.
  stopped : (p p' : Problem d) (s : Server os) → Same p p' → Preparing p (pure (false, p') s)
  stopped p p₁ s same = λ ok p' h.
      let is_false : false ≡ ok = cc in
      let is_same : p₁ ≡ p' = cc in
      subst (λ o. Prepares (Sorts os) p.fatal_error o p') is_false
        (subst (Prepares (Sorts os) p.fatal_error false) is_same
          (record { fatal_kept = same.fatal_same; ready = λ k. absurd (ground arith) }))

  -- `init_parts` behind `init_iofiles`, and behind `init_checker`.
  abbrev behind_checker : Bytes → Bool × Problem d → M os (Bool × Problem d)
  behind_checker submit_id r =
      if not r.0
      then pure (false, r.1)
      else init_tests os d c r.1 submit_id >>= λ p₃. pure (true, p₃)

  abbrev behind_iofiles : Bytes → Bool × Problem d → M os (Bool × Problem d)
  behind_iofiles submit_id r =
      if not r.0 then pure (false, r.1) else init_checker os d c r.1 >>= behind_checker submit_id

  behind_checker-Preparing :
      (p p₂ : Problem d) (ok : Bool) (submit_id : Bytes) (s : Server os)
      → p.tests ≡ []
      → Same p p₂
      → SafeNames p₂
      → Preparing p (behind_checker submit_id (ok, p₂) s)
  behind_checker-Preparing p p₂ false submit_id s e same safe = stopped p p₂ s same
  behind_checker-Preparing p p₂ true submit_id s e same safe =
      bind_cases (Preparing p) (init_tests os d c p₂ submit_id) (λ p₃. pure (true, p₃)) s
        (λ p₃ s₁ k ok p' h.
          let is_same : p₃ ≡ p' = cc in
          let kept =
            init_tests-Sorting os d c p₂ submit_id s (same.tests_same ∙ e) p₃ (ap (λ r. r.0) k) in
          subst (Prepares (Sorts os) p.fatal_error ok) is_same (record {
            fatal_kept = kept.fatal_same ∙ same.fatal_same;
            ready = λ _. record {
              names = record {
                input_safe = rw kept.input_same safe.input_safe;
                output_safe = rw kept.output_same safe.output_safe;
              };
              sorted = kept.sorted;
            };
          }))
        (λ s₁ k ok p' h. cc)

  behind_iofiles-Preparing :
      (p p₁ : Problem d) (ok : Bool) (submit_id : Bytes) (s : Server os)
      → p.tests ≡ []
      → Same p p₁
      → (ok ≡ true → SafeNames p₁)
      → Preparing p (behind_iofiles submit_id (ok, p₁) s)
  behind_iofiles-Preparing p p₁ false submit_id s e same safe = stopped p p₁ s same
  behind_iofiles-Preparing p p₁ true submit_id s e same safe =
      bind_cases (Preparing p) (init_checker os d c p₁) (behind_checker submit_id) s
        (λ r s₁ k.
          let (kept, names) = init_checker-Same os d c p₁ s r.0 r.1 (ap (λ r. r.0) k) in
          behind_checker-Preparing p r.1 r.0 submit_id s₁ e
            (record {
              fatal_same = kept.fatal_same ∙ same.fatal_same;
              tests_same = kept.tests_same ∙ same.tests_same;
            })
            (record {
              input_safe = rw names.0 ((safe refl).input_safe);
              output_safe = rw names.1 ((safe refl).output_safe);
            }))
        (λ s₁ k ok p' h. cc)

  init_parts-Preparing :
      (p : Problem d) (submit_id : Bytes) (s : Server os)
      → p.tests ≡ []
      → Preparing p (init_parts os d c p submit_id s)
  unfolding init_parts
  init_parts-Preparing p submit_id s e =
      bind_cases (Preparing p) (init_iofiles os d c p) (behind_iofiles submit_id) s
        (λ r s₁ k.
          let (same, safe) = init_iofiles-SafeNames os d c p s r.0 r.1 (ap (λ r. r.0) k) in
          behind_iofiles-Preparing p r.1 r.0 submit_id s₁ e same safe)
        (λ s₁ k ok p' h. cc)

  init_from-Preparing :
      (p : Problem d) (submit_id : Bytes) (conf : Option (Bytes → Option Bytes)) (s : Server os)
      → p.tests ≡ []
      → Preparing p (init_from os d c p submit_id conf s)
  unfolding init_from
  init_from-Preparing p submit_id none s e =
      stopped p p s (record { fatal_same = refl; tests_same = refl })
  init_from-Preparing p submit_id (some table) s e =
      let cf : CfgEngine = record { table = table } in
      init_parts-Preparing
        (record p {
          cf = cf;
          time_limit_s = limit_of os d c cf (codes "TL") (codes "general.default_time_limit");
          memory_limit_mib = limit_of os d c cf (codes "ML") (codes "general.default_memory_limit");
        })
        submit_id s e

  init_unpacked-Preparing :
      (p : Problem d) (submit_id : Bytes) (unpacked : Bool) (s : Server os)
      → p.tests ≡ []
      → Preparing p (init_unpacked os d c p submit_id unpacked s)
  unfolding init_unpacked
  init_unpacked-Preparing p submit_id true s e =
      init_from-Preparing p submit_id
        (os.read_ini (archive_dir os d c p.id ++ codes "/conf.txt") s.world) s e
  init_unpacked-Preparing p submit_id false s e =
      stopped p p s (record { fatal_same = refl; tests_same = refl })

  pub init-Prepares :
      (p : Problem d) (id submit_id : Bytes) (s : Server os) (ok : Bool) (p' : Problem d)
      → p.tests ≡ []
      → (init os d c p id submit_id s).0 ≡ returned (ok, p')
      → Prepares (Sorts os) p.fatal_error ok p'
  unfolding init
  init-Prepares p id submit_id s ok p' e h =
      let dir : Bytes = archive_dir os d c id ++ codes "/" in
      let source : Bytes =
        cfg c (codes "general.repository_prefix")
        ++ (id ++ cfg c (codes "general.repository_suffix")) in
      let extract : M os Bool = try_os (os.extract source dir) in
      let q : Problem d = record p { id = id } in
      bind_cases (Preparing p) (throwing (os.create_directories dir))
        (λ _. extract >>= init_unpacked os d c q submit_id) s
        (λ _ s₁ _.
          bind_cases (Preparing p) extract (init_unpacked os d c q submit_id) s₁
            (λ unpacked s₂ _. init_unpacked-Preparing q submit_id unpacked s₂ e)
            (λ s₂ _ ok p' h. cc))
        (λ s₁ _ ok p' h. cc) ok p' h

  -- A problem that `init` returns true for is ready to be used: the names of its files are accepted by
  -- `check_iofile_name`, every one of its tests has a number, and the tests stand in the order of
  -- their numbers. The problem has no tests before, and `std::sort` leaves no name in front of a
  -- smaller one.
  pub init-Ready :
      (p : Problem d) (id submit_id : Bytes) (s : Server os) (p' : Problem d)
      → Sorts os
      → p.tests ≡ []
      → (init os d c p id submit_id s).0 ≡ returned (true, p')
      → ((check_iofile_name p'.input_fn ≡ true) × (check_iofile_name p'.output_fn ≡ true))
        × (All IsNumbered p'.tests × InOrder lower_id p'.tests)
  init-Ready p id submit_id s p' sorts e h =
      let r = (init-Prepares p id submit_id s true p' e h).ready refl in
      ((r.names.input_safe, r.names.output_safe), (r.sorted.numbered, r.sorted.ordered sorts))
