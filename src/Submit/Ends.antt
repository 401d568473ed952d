-- ===== src/Submit/Ends.antt =====
-- The ends of `CSubmit::compile` of src/lib/submit.cpp, by the cause of each.
use bacs_legacy.Base.{
  ◌≡◌, ◌∙◌, ap, refl, Bool, true, false, if◌then◌else◌, if_cases, subst, [], ◌∷◌, ◌++◌, Bytes,
  codes, ◌=ₛ◌, arith,
}
use bacs_legacy.Def.{
  server_error, compile_error, compile_time_limit, invalid_lang, CompileResult, compile_ok,
  failed_to_compile, compile_failed, out_of_time,
}
use bacs_legacy.Double.{Double}
use bacs_legacy.System.{Os, Server, M, Outcome, returned, ◌>>=◌, pure, log_add}
use bacs_legacy.System.Rules.{bind_cases}
use bacs_legacy.Util.{str_lowercase}
use bacs_legacy.Config.{Settings, lcfg}
use bacs_legacy.TempFile.{TempFile, create, erase}
use bacs_legacy.Run.{Vars}
use bacs_legacy.Compile.{Compiled, compile_source}
use bacs_legacy.Submission.{Submission}
use bacs_legacy.Submit.{compile, compile_file, compile_status, is_compiled}
use bacs_legacy.Submit.Compiling.{Compiles, compile-Compiles}

module _ (os : Os) (d : Double) (c : Settings) (s : Submission d) (unset : Vars) where
  -- The compiler was called for the submission, with this result.
  abbrev pub CompiledAs : Compiled os c → Type 0
  CompiledAs r =
      (fn : Bytes) × (st : Server os) × (st' : Server os) × (compile_source os c fn s.lang
          s.run_file s.run_cmd s.info unset st
        ≡ (returned r, st'))

  -- What `compile` returns and the status that it leaves, by the cause.
  pub data Ends (s' : Submission d) : Bool → Type 0 where
    unknown :
        (lcfg c (str_lowercase s.lang ++ codes ".name") =ₛ []) ≡ true
        → s'.status ≡ invalid_lang
        → Ends s' false
    uncreated :
        (t : TempFile) (st st' : Server os)
        → create os c s.src_file s.solution st ≡ (returned (false, t), st')
        → s'.status ≡ server_error
        → Ends s' false
    incorrect :
        (r : Compiled os c)
        → CompiledAs r
        → r.result ≡ failed_to_compile
        → s'.status ≡ compile_error
        → s'.info ≡ r.error_log
        → Ends s' false
    too_slow :
        (r : Compiled os c)
        → CompiledAs r
        → r.result ≡ out_of_time
        → s'.status ≡ compile_time_limit
        → s'.info ≡ r.error_log
        → Ends s' false
    not_run :
        (r : Compiled os c)
        → CompiledAs r
        → r.result ≡ compile_failed
        → s'.status ≡ server_error
        → Ends s' false
    compiled :
        (r : Compiled os c)
        → CompiledAs r
        → r.result ≡ compile_ok
        → s'.status ≡ s.status
        → s'.run_cmd ≡ r.run_cmd
        → Ends s' true

  abbrev EndsAll : Outcome (Bool × Submission d) × Server os → Type 0
  EndsAll r = (ok : Bool) (s' : Submission d) → r.0 ≡ returned (ok, s') → Ends s' ok

  abbrev answer : Bool → Submission d → Outcome (Bool × Submission d)
  answer ok t = returned (ok, t)

  answered : (b ok : Bool) (t s' : Submission d) → Ends t b → answer b t ≡ answer ok s' → Ends s' ok
  answered b ok t s' ends h =
      let o : b ≡ ok = cc in
      let e : t ≡ s' = cc in subst (λ x. Ends s' x) o (subst (λ x. Ends x b) e ends)

  refusal-Ends :
      (r : Compiled os c) (x : CompileResult) (s' : Submission d)
      → r.result ≡ x
      → is_compiled r.result ≡ false
      → CompiledAs r
      → s'.status ≡ (compile_status r.result s.need_info).0
      → s'.info ≡ r.error_log
      → Ends s' false
  unfolding compile_status
  refusal-Ends r compile_ok s' e n k status info = absurd (ground arith)
  refusal-Ends r failed_to_compile s' e n k status info =
      incorrect r k e (status ∙ ap (λ y. (compile_status y s.need_info).0) e) info
  refusal-Ends r compile_failed s' e n k status info =
      not_run r k e (status ∙ ap (λ y. (compile_status y s.need_info).0) e)
  refusal-Ends r out_of_time s' e n k status info =
      too_slow r k e (status ∙ ap (λ y. (compile_status y s.need_info).0) e) info

  compiled_ok : (x : CompileResult) → is_compiled x ≡ true → x ≡ compile_ok
  compiled_ok compile_ok e = refl
  compiled_ok failed_to_compile e = absurd (cc)
  compiled_ok compile_failed e = absurd (cc)
  compiled_ok out_of_time e = absurd (cc)

  abbrev with_source : TempFile → Submission d
  with_source src_file = record s { src_file = src_file }

  abbrev with_result : TempFile → Compiled os c → Submission d
  with_result t r = record (with_source t) {
    run_file = r.run_file;
    run_cmd = r.run_cmd;
    info = r.error_log;
  }

  abbrev refused : TempFile → Compiled os c → Bool × TempFile → Submission d
  refused t r e = record (with_result t r) {
    src_file = e.1;
    status = (compile_status r.result s.need_info).0;
    need_info = (compile_status r.result s.need_info).1;
  }

  compile_file-Ends :
      (t : TempFile) (st : Server os) → EndsAll (compile_file os d c (with_source t) unset st)
  unfolding compile_file
  compile_file-Ends t st =
      let next : Compiled os c → M os (Bool × Submission d) = λ r.
        if is_compiled r.result
        then pure (true, with_result t r)
        else (erase os t >>= λ e. pure (false, refused t r e)) in
      bind_cases EndsAll (compile_source os c t.name s.lang s.run_file s.run_cmd s.info unset) next
        st
        (λ r st₁ k.
          let ran : CompiledAs r = (t.name, st, st₁, k) in
          if_cases (λ (m : M os (Bool × Submission d)). EndsAll (m st₁)) (is_compiled r.result) _ _
            (λ y ok s'.
              answered true ok (with_result t r) s'
                (compiled r ran (compiled_ok r.result y) refl refl))
            (λ n.
              bind_cases EndsAll (erase os t) (λ e. pure (false, refused t r e)) st₁
                (λ e st₂ _ ok s'.
                  answered false ok (refused t r e) s'
                    (refusal-Ends r r.result (refused t r e) refl n ran refl refl))
                (λ st₂ e ok s' h. cc)))
        (λ st₁ e ok s' h. cc)

  abbrev not_created : TempFile → Submission d
  not_created t = record s { src_file = t; status = server_error }

  -- `compile` behind `src_file.create`.
  abbrev after_create : Bool × TempFile → M os (Bool × Submission d)
  after_create made =
      if made.0
      then compile_file os d c (with_source made.1) unset
      else (log_add (codes "Error: cannot create source file!") [] >>= λ _.
          pure (false, not_created made.1))

  after_create-Ends :
      (made : Bool × TempFile) (st st₁ : Server os)
      → create os c s.src_file s.solution st ≡ (returned made, st₁)
      → EndsAll (after_create made st₁)
  after_create-Ends (true, t) st st₁ e = compile_file-Ends t st₁
  after_create-Ends (false, t) st st₁ e =
      λ ok s'. answered false ok (not_created t) s' (uncreated t st st₁ e refl)

  -- `compile` returns true exactly where the compiler has made a program, whose command the
  -- submission gets, and it keeps the status then. Where it returns false the status tells the cause:
  -- an unknown language; an error of the server where the source file cannot be made or the compiler
  -- not run; and a failed compilation or one out of time, with the text of the compiler. That text
  -- is wanted for the last two, and otherwise only if it was wanted before. The submission stays the
  -- same one, and is not marked as fatal.
  pub compile-Ends :
      (st : Server os) (ok : Bool) (s' : Submission d)
      → (compile os d c s unset st).0 ≡ returned (ok, s')
      → Ends s' ok × Compiles os d c s ok s'
  unfolding compile
  compile-Ends st ok s' k =
      let lost : Submission d = record s { status = invalid_lang } in
      let log : M os (Bool × Submission d) =
        log_add (codes "Error: unknown language!") ((codes "Language ID", s.lang) ∷ []) >>= λ _.
        pure (false, lost) in
      (
        if_cases (λ (m : M os (Bool × Submission d)). EndsAll (m st))
            (lcfg c (str_lowercase s.lang ++ codes ".name") =ₛ []) log _
            (λ e ok s'. answered false ok lost s' (unknown e refl))
            (λ _.
              bind_cases EndsAll (create os c s.src_file s.solution) after_create st
                (λ made st₁ e. after_create-Ends made st st₁ e) (λ st₁ e ok s' h. cc))
            ok s' k,
        compile-Compiles os d c s unset st ok s' k,
      )
