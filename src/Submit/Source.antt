-- ===== src/Submit/Source.antt =====
-- The source file of a submission, in src/lib/submit.cpp: the object of the submission owns it until
-- the end, and nothing else of its compilation and of the end of its test stays.
use bacs_legacy.Base.{
  ◌≡◌, refl, Bool, true, false, [], ◌∷◌, ◌++◌, Bytes, codes, ℤ, pos, ◌==ℤ◌, ◌=ₛ◌, if◌then◌else◌,
}
use bacs_legacy.Util.{str_lowercase}
use bacs_legacy.Util.Format.{c_str, format}
use bacs_legacy.Def.{server_error, run_ok}
use bacs_legacy.Double.{Double}
use bacs_legacy.System.{Os, M, ◌>>=◌, pure, crash, log_add}
use bacs_legacy.System.Triples.{
  View, Triple, bind-Triple, bind-Keeps, if-Triple, if-Keeps, Option-Keeps,
}
use bacs_legacy.Config.{Settings, lcfg}
use bacs_legacy.TempFile.{TempFile, create, erase}
use bacs_legacy.System.Facts.{Fact, Stable, Quiet, is_update}
use bacs_legacy.TempFile.Owned.{Owned, Owned-framed, create-Owned, erase-holds}
use bacs_legacy.Run.{Vars, run}
use bacs_legacy.Run.Owned.{run-Quiet}
use bacs_legacy.Compile.{Compiled, lang_str, compile_source}
use bacs_legacy.Compile.Owned.{lang_str-Quiet, compile_source-Quiet}
use bacs_legacy.Database.{db_qres}
use bacs_legacy.Database.Owned.{db_qres-Quiet}
use bacs_legacy.Submission.{Submission, blank, fill, new_submit}
use bacs_legacy.Submit.{compile_status, is_compiled, compile_file, compile, cleanup}

module _ (os : Os) (d : Double) (x : Fact os) where
  -- The submission's object owns its source file.
  abbrev pub Source : Submission d → View os → Type 0
  Source s = Owned os x (s.src_file ∷ [])

  abbrev pub SourceOf : {A : Type 0} → A × Submission d → View os → Type 0
  SourceOf r = Source r.1

module _ (os : Os) (d : Double) (c : Settings) (x : Fact os) (stable : Stable os x) where
  pub row_query_reads :
      (sid : Bytes)
      → is_update (
          format (
            codes "select problem_id, lang, solution, need_info, acm from submit where submit_id = "
            ++ c_str sid))
        ≡ false
  unfolding format
  row_query_reads sid = refl

  pub new_submit-Quiet :
      (sid : Bytes) (acm need_info : Bool) → Quiet os x (new_submit os d c sid acm need_info)
  unfolding new_submit
  new_submit-Quiet sid acm need_info =
      let q = format (
        codes "select problem_id, lang, solution, need_info, acm from submit where submit_id = "
        ++ c_str sid) in
      bind-Keeps os x.holds (db_qres os q) _ (db_qres-Quiet os x stable q (row_query_reads sid))
        (λ rr.
          Option-Keeps os x.holds (fill d (blank d sid acm need_info) rr) crash pure (λ s p. tt)
            (λ b s p. p))

  compile_file-Source :
      (s : Submission d) (unset : Vars)
      → Triple os (Source os d x s) (compile_file os d c s unset) (SourceOf os d x)
  unfolding compile_file
  compile_file-Source s unset =
      let compiling =
        compile_source os c s.src_file.name s.lang s.run_file s.run_cmd s.info unset in
      let with_output : Compiled os c → Submission d =
        λ r. record s { run_file = r.run_file; run_cmd = r.run_cmd; info = r.error_log } in
      let refused : Compiled os c → Bool × TempFile → M os (Bool × Submission d) = λ r e. pure (
        false,
        record (with_output r) {
          src_file = e.1;
          status = (compile_status r.result s.need_info).0;
          need_info = (compile_status r.result s.need_info).1;
        },
      ) in
      let next : Compiled os c → M os (Bool × Submission d) = λ r.
        if is_compiled r.result
        then pure (true, with_output r)
        else erase os s.src_file >>= refused r in
      bind-Triple os (Source os d x s) (λ _. Source os d x s) (SourceOf os d x) compiling next
        (Owned-framed os x (s.src_file ∷ []) compiling (
          compile_source-Quiet os c x stable s.src_file.name s.lang s.run_file s.run_cmd s.info
            unset))
        (λ r.
          if-Triple os (Source os d x s) (SourceOf os d x) (is_compiled r.result)
            (pure (true, with_output r)) _ (λ _ st p. p)
            (λ _.
              bind-Triple os (Source os d x s) (λ _. x.holds) (SourceOf os d x)
                (erase os s.src_file) (refused r) (erase-holds os c x stable s.src_file)
                (λ e st p f. p)))

  pub compile-Source :
      (s : Submission d) (unset : Vars)
      → Triple os x.holds (compile os d c s unset) (SourceOf os d x)
  unfolding compile
  compile-Source s unset =
      let Result : Type 0 = Bool × Submission d in
      let with_source : TempFile → Submission d = λ t. record s { src_file = t } in
      let no_source : TempFile → M os Result = λ t.
        log_add (codes "Error: cannot create source file!") [] >>= λ _.
        pure (false, record s { src_file = t; status = server_error }) in
      let made : Bool × TempFile → M os Result =
        λ r. if r.0 then compile_file os d c (with_source r.1) unset else no_source r.1 in
      let making : M os Result = create os c s.src_file s.solution >>= made in
      if-Triple os x.holds (SourceOf os d x) (lcfg c (str_lowercase s.lang ++ codes ".name") =ₛ [])
        _ making (λ _ st p f. p)
        (λ _.
          bind-Triple os x.holds (λ r. Owned os x (r.1 ∷ [])) (SourceOf os d x)
            (create os c s.src_file s.solution) made
            (λ st p. create-Owned os c x stable s.src_file s.solution [] st (λ _. p))
            (λ r.
              if-Triple os (Owned os x (r.1 ∷ [])) (SourceOf os d x) r.0
                (compile_file os d c (with_source r.1) unset) (no_source r.1)
                (λ _. compile_file-Source (with_source r.1) unset) (λ _ st p. p)))

  pub cleanup-Quiet : (s : Submission d) (unset : Vars) → Quiet os x (cleanup os d c s unset)
  unfolding cleanup
  cleanup-Quiet s unset =
      let ran : Bytes → M os (ℤ × Bytes × Vars) =
        λ cs. run os c cs true [] [] c.compiler_timeout (pos 0) true unset in
      let judged : Bytes → ℤ × Bytes × Vars → M os Bool = λ cs r.
        if r.0 ==ℤ run_ok
        then pure true
        else (log_add (codes "Error: error in cleanup process!")
              ((codes "Command string", cs) ∷ (codes "Output", r.1) ∷ [])
            >>= λ _. pure false) in
      let next : Bytes → M os Bool = λ cs. if cs =ₛ [] then pure true else ran cs >>= judged cs in
      let cs = lang_str os c (codes "clean") s.lang s.src_file.name in
      bind-Keeps os x.holds cs next (lang_str-Quiet os c x (codes "clean") s.lang s.src_file.name)
        (λ cs.
          if-Keeps os x.holds (cs =ₛ []) (pure true) _ (λ st p. p)
            (bind-Keeps os x.holds (ran cs) (judged cs)
              (run-Quiet os c x stable cs [] [] c.compiler_timeout (pos 0) true unset)
              (λ r.
                if-Keeps os {A = Bool} x.holds (r.0 ==ℤ run_ok) (pure true) _ (λ st p. p)
                  (λ st p. p))))
