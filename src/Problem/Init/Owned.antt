-- ===== src/Problem/Init/Owned.antt =====
-- `init` and the destructor of `CProblem` in src/lib/problem.cpp make no temporary file.
use bacs_legacy.Base.{
  ◌≡◌, refl, Bool, true, false, not, Option, none, some, List, [], ◌∷◌, ◌++◌, Bytes, codes, ◌==ℤ◌,
  ◌=ₛ◌, if◌then◌else◌,
}
use bacs_legacy.Def.{invalid_id}
use bacs_legacy.Util.Format.{format}
use bacs_legacy.Double.{Double}
use bacs_legacy.System.{Os, M, ◌>>=◌, pure, look, try_os, throwing, when}
use bacs_legacy.System.Triples.{
  view, bind-Keeps, if-Keeps, when-Keeps, try_os-Keeps, throwing-Keeps,
}
use bacs_legacy.Config.{Settings, cfg, get}
use bacs_legacy.IoName.{check_iofile_name}
use bacs_legacy.TestFile.{TestFile, new_test, tests_sort_func}
use bacs_legacy.TempFile.{file_exists}
use bacs_legacy.System.Facts.{Fact, Stable, Quiet, is_update}
use bacs_legacy.Database.{db_qres0}
use bacs_legacy.Database.Owned.{db_qres0-Quiet}
use bacs_legacy.Problem.{Problem}
use bacs_legacy.Problem.Init.{
  find_files, archive_dir, verbose_query, with_protocol, collect, init_tests, or_default,
  init_iofiles, default_checker, named_checker, init_checker, init_parts, init_from, init_unpacked,
  init, destroy,
}

module _ (os : Os) (d : Double) (c : Settings) (x : Fact os) (stable : Stable os x) where
  verbose_query_reads :
      (submit_id : Bytes) (t : TestFile) → is_update (verbose_query os d c submit_id t) ≡ false
  unfolding format
  verbose_query_reads submit_id t = refl

  collect-Quiet :
      (submit_id dir : Bytes) (files : List Bytes) → Quiet os x (collect os d c submit_id dir files)
  unfolding collect
  collect-Quiet submit_id dir [] = λ s p. p
  collect-Quiet submit_id dir (fn ∷ files) =
      let Result : Type 0 = List TestFile in
      let rest = collect os d c submit_id dir files in
      let made : M os TestFile = look (λ w. new_test (λ name. os.exists name w) fn) in
      let asked : TestFile → Bytes → M os Result =
        λ t wanted. rest >>= λ ts. pure (with_protocol os d c dir wanted t ∷ ts) in
      let next : TestFile → M os Result = λ t.
        if t.id ==ℤ invalid_id
        then rest
        else db_qres0 os (verbose_query os d c submit_id t) >>= asked t in
      bind-Keeps os x.holds made next (λ s p. p)
        (λ t. if-Keeps os x.holds (t.id ==ℤ invalid_id) rest _ (collect-Quiet submit_id dir files) (
          bind-Keeps os x.holds (db_qres0 os (verbose_query os d c submit_id t)) (asked t)
            (db_qres0-Quiet os x stable (verbose_query os d c submit_id t)
              (verbose_query_reads submit_id t))
            (λ wanted.
              bind-Keeps os x.holds rest (λ ts. pure (with_protocol os d c dir wanted t ∷ ts))
                (collect-Quiet submit_id dir files) (λ ts s p. p))))

  init_tests-Quiet :
      (p : Problem d) (submit_id : Bytes) → Quiet os x (init_tests os d c p submit_id)
  unfolding init_tests find_files
  init_tests-Quiet p submit_id =
      let dir = cfg c (codes "general.temp_dir") ++ (codes "/" ++ submit_id) in
      let find = find_files os (archive_dir os d c p.id ++ codes "/tests/") (codes ".in") in
      let end : List TestFile → M os (Problem d) =
        λ tests. pure (record p { tests = p.tests ++ tests; is_tests_init = true }) in
      let sorted : List Bytes → M os (Problem d) =
        λ files. collect os d c submit_id dir (os.sort tests_sort_func files) >>= end in
      let removal : M os (Unit {0}) = throwing (os.remove_all dir) in
      bind-Keeps os x.holds (look (os.exists dir))
        (λ old. when old removal >>= λ _. find >>= sorted) (λ s q. q)
        (λ old.
          bind-Keeps os x.holds (when old removal) (λ _. find >>= sorted)
            (when-Keeps os x.holds old removal
              (throwing-Keeps os x.holds (os.remove_all dir) (stable.remove_all_kept dir)))
            (λ _.
              bind-Keeps os x.holds find sorted (λ s q. q)
                (λ files.
                  bind-Keeps os x.holds
                    (collect os d c submit_id dir (os.sort tests_sort_func files)) end
                    (collect-Quiet submit_id dir (os.sort tests_sort_func files)) (λ ts s q. q))))

  init_iofiles-Quiet : (p : Problem d) → Quiet os x (init_iofiles os d c p)
  unfolding init_iofiles
  init_iofiles-Quiet p =
      let Result : Type 0 = Bool × Problem d in
      let input_fn = or_default os d c (get p.cf (codes "input")) (codes "STDIN") in
      let output_fn = or_default os d c (get p.cf (codes "output")) (codes "STDOUT") in
      if-Keeps os {A = Result} x.holds (not (check_iofile_name input_fn)) _ _ (λ s q. q)
        (if-Keeps os {A = Result} x.holds (not (check_iofile_name output_fn)) _ _ (λ s q. q)
          (λ s q. q))

  default_checker-Quiet : (p : Problem d) → Quiet os x (default_checker os d c p)
  unfolding default_checker
  default_checker-Quiet p s =
      if-Keeps os {A = Bool × Problem d} x.holds
        (file_exists os (cfg c (codes "general.default_checker")) s.world) _ _ (λ s q. q) (λ s q. q)
        s

  named_checker-Quiet : (p : Problem d) (fn : Bytes) → Quiet os x (named_checker os d c p fn)
  unfolding named_checker
  named_checker-Quiet p fn s =
      if-Keeps os {A = Bool × Problem d} x.holds (file_exists os fn s.world) _ _ (λ s q. q)
        (λ s q. q) s

  init_checker-Quiet : (p : Problem d) → Quiet os x (init_checker os d c p)
  unfolding init_checker
  init_checker-Quiet p₀ s =
      let Result : Type 0 = Bool × Problem d in
      let checker = get p₀.cf (codes "checker") in
      let dir = archive_dir os d c p₀.id ++ codes "/checker/" in
      let p : Problem d = record p₀ {
        checker = checker;
        checker_return = get p₀.cf (codes "checker_return");
      } in
      let check_there = file_exists os (dir ++ codes "check.exe") s.world in
      let checker_there = file_exists os (dir ++ codes "checker.exe") s.world in
      if-Keeps os {A = Result} x.holds (checker =ₛ []) _ _
        (if-Keeps os {A = Result} x.holds check_there _ _ (λ s q. q)
          (if-Keeps os {A = Result} x.holds checker_there _ _ (λ s q. q) (default_checker-Quiet p)))
        (if-Keeps os {A = Result} x.holds (checker =ₛ codes "default") _ _ (default_checker-Quiet p)
          (named_checker-Quiet p (dir ++ checker)))
        s

  init_parts-Quiet :
      (p : Problem d) (submit_id : Bytes) → Quiet os x (init_parts os d c p submit_id)
  unfolding init_parts
  init_parts-Quiet p submit_id =
      let Result : Type 0 = Bool × Problem d in
      let tests : Problem d → M os Result =
        λ p₂. init_tests os d c p₂ submit_id >>= λ p₃. pure (true, p₃) in
      let checked : Bool × Problem d → M os Result =
        λ r. if not r.0 then pure (false, r.1) else tests r.1 in
      let named : Bool × Problem d → M os Result =
        λ r. if not r.0 then pure (false, r.1) else init_checker os d c r.1 >>= checked in
      bind-Keeps os x.holds (init_iofiles os d c p) named (init_iofiles-Quiet p) (λ r.
        if-Keeps os x.holds (not r.0) (pure (false, r.1)) _ (λ s q. q)
          (bind-Keeps os x.holds (init_checker os d c r.1) checked (init_checker-Quiet r.1) (λ r.
            if-Keeps os x.holds (not r.0) (pure (false, r.1)) _ (λ s q. q)
              (bind-Keeps os x.holds (init_tests os d c r.1 submit_id) (λ p₃. pure (true, p₃))
                (init_tests-Quiet r.1 submit_id) (λ p₃ s q. q)))))

  init_from-Quiet :
      (p : Problem d) (submit_id : Bytes) (conf : Option (Bytes → Option Bytes))
      → Quiet os x (init_from os d c p submit_id conf)
  unfolding init_from
  init_from-Quiet p submit_id none = λ s q. q
  init_from-Quiet p submit_id (some table) = init_parts-Quiet _ submit_id

  init_unpacked-Quiet :
      (p : Problem d) (submit_id : Bytes) (unpacked : Bool)
      → Quiet os x (init_unpacked os d c p submit_id unpacked)
  unfolding init_unpacked
  init_unpacked-Quiet p submit_id unpacked =
      let conf = look (os.read_ini (archive_dir os d c p.id ++ codes "/conf.txt")) in
      if-Keeps os {A = Bool × Problem d} x.holds unpacked (conf >>= init_from os d c p submit_id) _
        (bind-Keeps os x.holds conf (init_from os d c p submit_id) (λ s q. q)
          (init_from-Quiet p submit_id))
        (λ s q. q)

  pub init-Quiet : (p : Problem d) (id submit_id : Bytes) → Quiet os x (init os d c p id submit_id)
  unfolding init
  init-Quiet p₀ id submit_id =
      let p : Problem d = record p₀ { id = id } in
      let dir = archive_dir os d c id ++ codes "/" in
      let name =
        cfg c (codes "general.repository_prefix")
        ++ (id ++ cfg c (codes "general.repository_suffix")) in
      let unpack = try_os (os.extract name dir) in
      bind-Keeps os x.holds (throwing (os.create_directories dir))
        (λ _. unpack >>= init_unpacked os d c p submit_id)
        (throwing-Keeps os x.holds (os.create_directories dir) (stable.create_directories_kept dir))
        (λ _.
          bind-Keeps os x.holds unpack (init_unpacked os d c p submit_id)
            (try_os-Keeps os x.holds (os.extract name dir) (stable.extract_kept name dir))
            (init_unpacked-Quiet p submit_id))

  pub destroy-Quiet : (p : Problem d) → Quiet os x (destroy os d c p)
  unfolding destroy
  destroy-Quiet p s q = stable.system_kept _ (view os s) q
