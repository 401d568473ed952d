-- ===== src/Submit/Asked.antt =====
-- A submission keeps its number from its constructor to the query that stores its result.
use bacs_legacy.Base.{
  ◌≡◌, ◌∙◌, Bool, true, false, not, [], ◌++◌, Bytes, codes, negsuc, if◌then◌else◌,
}
use bacs_legacy.Util.Format.{c_str, format}
use bacs_legacy.Def.{server_error}
use bacs_legacy.Def.Names.{status_text}
use bacs_legacy.Double.{Double}
use bacs_legacy.System.{Os, M, ◌>>=◌, pure, log_add}
use bacs_legacy.System.Triples.{View, Triple, After-always, After-intro, bind-Triple, if-Triple}
use bacs_legacy.Config.{Settings}
use bacs_legacy.TempFile.{TempFile, erase}
use bacs_legacy.Run.{Vars}
use bacs_legacy.Database.{db_query}
use bacs_legacy.Database.Engine.{escape}
use bacs_legacy.Ping.{ping, submit_result}
use bacs_legacy.Problem.{Problem}
use bacs_legacy.Problem.Init.{init, destroy}
use bacs_legacy.Problem.RunTests.{Progress, run_tests}
use bacs_legacy.Submission.{Submission, clip_info, store_query, store_result}
use bacs_legacy.Submit.{
  compile, wanted_info, with_progress, without_limit, test_problem, test, cleanup, summary,
  conclude, test_compiled, tested, compile_and_test,
}
use bacs_legacy.Submit.Compiling.{compile-Compiles}

module _ (os : Os) where
  -- Nothing is known of the world.
  abbrev pub Anything : View os → Type 0
  Anything v = Unit {0}

  -- A value of which nothing is known.
  pub Anything-Triple : {A : Type 0} (m : M os A) → Triple os Anything m (λ _. Anything)
  Anything-Triple m s u = After-always os (λ _. Anything) (m s) (λ a v. tt)

  -- What is bound to a value of which nothing is known.
  pub behind :
      {A B : Type 0} (R : B → View os → Type 0) (m : M os A) (f : A → M os B)
      → ((a : A) → Triple os Anything (f a) R)
      → Triple os Anything (m >>= f) R
  behind R m f h = bind-Triple os Anything (λ _. Anything) R m f (Anything-Triple m) h

module _ (os : Os) (d : Double) (c : Settings) (sid : Bytes) where
  abbrev Asks : Submission d → View os → Type 0
  Asks s v = s.sid ≡ sid

  abbrev pub AsksOf : {A : Type 0} → A × Submission d → View os → Type 0
  AsksOf r v = r.1.sid ≡ sid

  test_problem-Asks :
      (s : Submission d) (unset dummies : Vars) (ready : Bool × Problem d)
      → s.sid ≡ sid
      → Triple os (Anything os) (test_problem os d c s unset dummies ready) AsksOf
  unfolding test_problem destroy
  test_problem-Asks s unset dummies (false, p) e = λ st u. e
  test_problem-Asks s unset dummies (true, p) e =
      let q = without_limit os d c s p in
      let end : Bool × Progress d → M os (Bool × Submission d) =
        λ r. pure (r.0, with_progress os d c s q r.1) in
      behind os AsksOf
        (run_tests os d c q s.run_cmd server_error (wanted_info os d c s) s.acm unset dummies)
        (λ r. destroy os d c q >>= λ _. end r) (λ r st u. e)

  test-Asks :
      (p : Problem d) (s : Submission d) (unset dummies : Vars)
      → s.sid ≡ sid
      → Triple os (Anything os) (test os d c p s unset dummies) AsksOf
  unfolding test
  test-Asks p s unset dummies e =
      behind os AsksOf (init os d c (record p { fatal_error = false; tests = [] }) s.pid s.sid)
        (test_problem os d c s unset dummies) (λ ready. test_problem-Asks s unset dummies ready e)

  test_compiled-Asks :
      (p : Problem d) (unset dummies : Vars) (r : Bool × Submission d)
      → r.1.sid ≡ sid
      → Triple os (Anything os) (test_compiled os d c p unset dummies r) Asks
  unfolding test_compiled
  test_compiled-Asks p unset dummies (false, s) e = λ st u. e
  test_compiled-Asks p unset dummies (true, s) e =
      let end : Submission d → Bool × TempFile → M os (Submission d) =
        λ s₁ f. pure (record s₁ { run_file = f.1 }) in
      bind-Triple os (Anything os) AsksOf Asks (test os d c p s unset dummies)
        (λ r. erase os r.1.run_file >>= end r.1) (test-Asks p s unset dummies e)
        (λ r st e₁. behind os Asks (erase os r.1.run_file) (end r.1) (λ f st u. e₁) st tt)

  store_result-Asks :
      (s : Submission d) → s.sid ≡ sid → Triple os (Anything os) (store_result os d c s) AsksOf
  unfolding store_result
  store_result-Asks s e =
      let asked : M os Bytes =
        if s.need_info then escape os (clip_info os d c s.info) else pure [] in
      let end : Bool → M os (Bool × Submission d) =
        λ stored. pure (stored, record s { info = clip_info os d c s.info }) in
      let store : Bytes → M os Bool = λ escaped. db_query os (store_query os d c s escaped) in
      behind os AsksOf asked (λ escaped. store escaped >>= end)
        (λ escaped. behind os AsksOf (store escaped) end (λ stored st u. e))

  conclude-Asks :
      (s : Submission d) (unset : Vars)
      → s.sid ≡ sid
      → Triple os (Anything os) (conclude os d c s unset) AsksOf
  unfolding conclude
  conclude-Asks s unset e =
      let Result : Type 0 = Bool × Submission d in
      let told : Submission d → M os (Unit {0}) =
        λ s₁. ping os c submit_result s₁.sid (negsuc 0) s₁.pid (status_text s₁.status) in
      let end : Submission d → M os Result = λ s₁.
        log_add (format (codes "Finished testing [" ++ (c_str s₁.sid ++ codes "]")))
          (summary os d c s₁)
        >>= λ _. pure (not s₁.fatal_error, s₁) in
      let tell : Bool × Submission d → M os Result = λ r. told r.1 >>= λ _. end r.1 in
      behind os AsksOf (cleanup os d c s unset) (λ _. store_result os d c s >>= tell)
        (λ _.
          bind-Triple os (Anything os) AsksOf AsksOf (store_result os d c s) tell
            (store_result-Asks s e)
            (λ r st e₁. behind os AsksOf (told r.1) (λ _. end r.1) (λ _ st u. e₁) st tt))

  tested-Asks :
      (p : Problem d) (unset dummies : Vars) (r : Bool × Submission d)
      → r.1.sid ≡ sid
      → Triple os (Anything os) (tested os d c p unset dummies r) AsksOf
  unfolding tested
  tested-Asks p unset dummies r e =
      bind-Triple os (Anything os) Asks AsksOf (test_compiled os d c p unset dummies r)
        (λ s₁. conclude os d c s₁ unset) (test_compiled-Asks p unset dummies r e)
        (λ s₁ st e₁. conclude-Asks s₁ unset e₁ st tt)

  -- `compile_and_test` keeps the number of the submission.
  pub compile_and_test-Asks :
      (p : Problem d) (s : Submission d) (unset dummies : Vars)
      → s.sid ≡ sid
      → Triple os (Anything os) (compile_and_test os d c p s unset dummies) AsksOf
  unfolding compile_and_test
  compile_and_test-Asks p s unset dummies e st u =
      if-Triple os {A = Bool × Submission d} (Anything os) AsksOf s.not_found _
        (compile os d c s unset >>= tested os d c p unset dummies) (λ _ st u. e)
        (λ _.
          bind-Triple os (Anything os) AsksOf AsksOf (compile os d c s unset)
            (tested os d c p unset dummies)
            (λ st u.
              After-intro os AsksOf (compile os d c s unset st)
                (λ r k. (compile-Compiles os d c s unset st r.0 r.1 k).asked.0 ∙ e))
            (λ r st e₁. tested-Asks p unset dummies r e₁ st tt))
        _ u
