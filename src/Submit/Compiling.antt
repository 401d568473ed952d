-- ===== src/Submit/Compiling.antt =====
-- What `CSubmit::compile` does on each of its branches.
use bacs_legacy.Base.{
  ◌≡◌, refl, Bool, true, false, if◌then◌else◌, if_cases, subst, [], ◌∷◌, ◌++◌, codes, ◌=ₛ◌,
}
use bacs_legacy.Def.{
  Status, server_error, compile_error, compile_time_limit, invalid_lang, CompileResult, compile_ok,
  failed_to_compile, compile_failed, out_of_time,
}
use bacs_legacy.Double.{Double}
use bacs_legacy.System.{Os, Server, M, Outcome, returned, ◌>>=◌, pure, log_add}
use bacs_legacy.System.Rules.{bind_cases}
use bacs_legacy.Util.{str_lowercase}
use bacs_legacy.Config.{Settings, lcfg}
use bacs_legacy.TempFile.{TempFile, create, erase}
use bacs_legacy.Run.{Vars}
use bacs_legacy.Compile.{Compiled, compile_source}
use bacs_legacy.Submission.{Submission}
use bacs_legacy.Submit.{compile, compile_file, compile_status, is_compiled}

-- The verdicts of a submission that was not compiled, and for which of them the compiler's output is
-- wanted.
abbrev pub is_refusal : Status → Bool
is_refusal invalid_lang = true
is_refusal server_error = true
is_refusal compile_error = true
is_refusal compile_time_limit = true
is_refusal _ = false

abbrev pub wants_output : Status → Bool
wants_output compile_error = true
wants_output compile_time_limit = true
wants_output _ = false

compile_status-refusal :
    (r : CompileResult) (need_info : Bool)
    → (is_refusal (compile_status r need_info).0 ≡ true)
      × ((compile_status r need_info).1
          ≡ (if wants_output (compile_status r need_info).0 then true else need_info))
unfolding compile_status
compile_status-refusal compile_ok need_info = (refl, refl)
compile_status-refusal failed_to_compile need_info = (refl, refl)
compile_status-refusal compile_failed need_info = (refl, refl)
compile_status-refusal out_of_time need_info = (refl, refl)

module _ (os : Os) (d : Double) (c : Settings) where
  -- What `compile` makes of a submission.
  pub record Compiles (s : Submission d) (ok : Bool) (s' : Submission d) : Type 0 where
    pub status_kept : ok ≡ true → s'.status ≡ s.status
    pub refused : ok ≡ false → is_refusal s'.status ≡ true
    pub info_wanted :
        s'.need_info
        ≡ (if ok then s.need_info else if wants_output s'.status then true else s.need_info)
    pub asked : (s'.sid ≡ s.sid) × (s'.pid ≡ s.pid) × (s'.lang ≡ s.lang) × (s'.acm ≡ s.acm)
    pub not_fatal : s'.fatal_error ≡ s.fatal_error

  abbrev CompilesAll : Submission d → Outcome (Bool × Submission d) × Server os → Type 0
  CompilesAll s r = (ok : Bool) (s' : Submission d) → r.0 ≡ returned (ok, s') → Compiles s ok s'

  abbrev answer : Bool → Submission d → Outcome (Bool × Submission d)
  answer ok s = returned (ok, s)

  refused-Compiles :
      (s s' : Submission d) (ok : Bool) (t : Submission d)
      → is_refusal s'.status ≡ true
      → s'.need_info ≡ (if wants_output s'.status then true else s.need_info)
      → (s'.sid ≡ s.sid) × (s'.pid ≡ s.pid) × (s'.lang ≡ s.lang) × (s'.acm ≡ s.acm)
      → s'.fatal_error ≡ s.fatal_error
      → answer false s' ≡ answer ok t
      → Compiles s ok t
  refused-Compiles s s' ok t r n a f h =
      let o : false ≡ ok = cc in
      let e : s' ≡ t = cc in
      subst (λ x. Compiles s x t) o
        (subst (λ x. Compiles s false x) e
          (record {
            status_kept = λ k. absurd (cc);
            refused = λ k. r;
            info_wanted = n;
            asked = a;
            not_fatal = f;
          }))

  accepted-Compiles :
      (s s' : Submission d) (ok : Bool) (t : Submission d)
      → s'.status ≡ s.status
      → s'.need_info ≡ s.need_info
      → (s'.sid ≡ s.sid) × (s'.pid ≡ s.pid) × (s'.lang ≡ s.lang) × (s'.acm ≡ s.acm)
      → s'.fatal_error ≡ s.fatal_error
      → answer true s' ≡ answer ok t
      → Compiles s ok t
  accepted-Compiles s s' ok t k n a f h =
      let o : true ≡ ok = cc in
      let e : s' ≡ t = cc in
      subst (λ x. Compiles s x t) o
        (subst (λ x. Compiles s true x) e
          (record {
            status_kept = λ _. k;
            refused = λ k. absurd (cc);
            info_wanted = n;
            asked = a;
            not_fatal = f;
          }))

  abbrev with_result : Submission d → Compiled os c → Submission d
  with_result s r = record s { run_file = r.run_file; run_cmd = r.run_cmd; info = r.error_log }

  abbrev uncompiled : Submission d → Compiled os c → Bool × TempFile → Submission d
  uncompiled s r e = record (with_result s r) {
    src_file = e.1;
    status = (compile_status r.result s.need_info).0;
    need_info = (compile_status r.result s.need_info).1;
  }

  compile_file-Compiles :
      (s : Submission d) (unset : Vars) (st : Server os)
      → CompilesAll s (compile_file os d c s unset st)
  unfolding compile_file
  compile_file-Compiles s unset st =
      bind_cases (CompilesAll s)
        (compile_source os c s.src_file.name s.lang s.run_file s.run_cmd s.info unset)
        (λ r.
          if is_compiled r.result
          then pure (true, with_result s r)
          else (erase os s.src_file >>= λ e. pure (false, uncompiled s r e)))
        st
        (λ r st₁ _.
          if_cases (λ (m : M os (Bool × Submission d)). CompilesAll s (m st₁))
            (is_compiled r.result) _ _
            (λ _ ok t.
              accepted-Compiles s (with_result s r) ok t refl refl (refl, refl, refl, refl) refl)
            (λ _.
              bind_cases (CompilesAll s) (erase os s.src_file) (λ e. pure (false, uncompiled s r e))
                st₁
                (λ e st₂ _ ok t.
                  let (x, y) = compile_status-refusal r.result s.need_info in
                  refused-Compiles s (uncompiled s r e) ok t x y (refl, refl, refl, refl) refl)
                (λ st₂ e ok t h. cc)))
        (λ st₁ e ok t h. cc)

  abbrev with_source : Submission d → TempFile → Submission d
  with_source s src_file = record s { src_file = src_file }

  abbrev not_created : Submission d → TempFile → Submission d
  not_created s src_file = record s { src_file = src_file; status = server_error }

  -- `compile` behind `src_file.create`.
  abbrev after_create : Submission d → Vars → Bool × TempFile → M os (Bool × Submission d)
  after_create s unset made =
      if made.0
      then compile_file os d c (with_source s made.1) unset
      else (log_add (codes "Error: cannot create source file!") [] >>= λ _.
          pure (false, not_created s made.1))

  -- Only the source file changes in between.
  Compiles-with_source :
      (s t : Submission d) (src_file : TempFile) (ok : Bool)
      → Compiles (with_source s src_file) ok t
      → Compiles s ok t
  Compiles-with_source s t src_file ok k = record {
    status_kept = k.status_kept;
    refused = k.refused;
    info_wanted = k.info_wanted;
    asked = k.asked;
    not_fatal = k.not_fatal;
  }

  after_create-Compiles :
      (s : Submission d) (unset : Vars) (made : Bool × TempFile) (st : Server os)
      → CompilesAll s (after_create s unset made st)
  after_create-Compiles s unset (true, src_file) st = λ ok t h.
      Compiles-with_source s t src_file ok
        (compile_file-Compiles (with_source s src_file) unset st ok t h)
  after_create-Compiles s unset (false, src_file) st = λ ok t.
      refused-Compiles s (not_created s src_file) ok t refl refl (refl, refl, refl, refl) refl

  -- Where `compile` returns true it has left the status as it was. Where it returns false the status is
  -- one of four: an unknown language, an error of the server, a failed compilation or one out of time.
  -- The compiler's output is wanted for the last two, and otherwise only if it was wanted before. The
  -- submission stays the same one, and is not marked as fatal.
  pub compile-Compiles :
      (s : Submission d) (unset : Vars) (st : Server os) (ok : Bool) (s' : Submission d)
      → (compile os d c s unset st).0 ≡ returned (ok, s')
      → Compiles s ok s'
  unfolding compile
  compile-Compiles s unset st =
      let unknown : M os (Bool × Submission d) =
        log_add (codes "Error: unknown language!") ((codes "Language ID", s.lang) ∷ []) >>= λ _.
        pure (false, record s { status = invalid_lang }) in
      if_cases (λ (m : M os (Bool × Submission d)). CompilesAll s (m st))
        (lcfg c (str_lowercase s.lang ++ codes ".name") =ₛ []) unknown _
        (λ _ ok t.
          refused-Compiles s (record s { status = invalid_lang }) ok t refl refl
            (refl, refl, refl, refl) refl)
        (λ _.
          bind_cases (CompilesAll s) (create os c s.src_file s.solution) (after_create s unset) st
            (λ made st₁ _. after_create-Compiles s unset made st₁) (λ st₁ e ok t h. cc))
