-- ===== src/Run/Owned.antt =====
-- `run` of src/lib/run.cpp erases its temporary files on every path.
use bacs_legacy.Base.{
  refl, Bool, true, not, Option, none, some, List, [], ◌∷◌, Bytes, codes, ℤ, ◌==◌, if◌then◌else◌,
}
use bacs_legacy.Util.Format.{c_str}
use bacs_legacy.Def.{run_failed}
use bacs_legacy.Process.{succeeded}
use bacs_legacy.System.{Os, M, ◌>>=◌, pure, look, run_os, log_error}
use bacs_legacy.System.Triples.{
  View, view, Triple, bind-Triple, bind-Keeps, if-Triple, if-Keeps, run_os-Keeps,
}
use bacs_legacy.Config.{Settings, cfg, cfgi}
use bacs_legacy.TempFile.{TempFile, unused, create, erase, read}
use bacs_legacy.System.Facts.{Fact, Stable, Quiet}
use bacs_legacy.TempFile.Owned.{Owned, Owned-framed, create-Owned, erase-Owned, read-Quiet}
use bacs_legacy.Run.ResultFile.{scan_results}
use bacs_legacy.Run.{
  Vars, from_file, run_command, run_limited, leave, run_piped, run_use_pipes, run,
}

module _ (os : Os) (c : Settings) (x : Fact os) where
  from_file-Quiet :
      (cmd : Bytes) (vars : Vars) (text : Option Bytes) → Quiet os x (from_file os c cmd vars text)
  unfolding from_file
  from_file-Quiet cmd vars none = λ s p. p
  from_file-Quiet cmd vars (some text) =
      let r = scan_results vars.memory_used vars.time_used text in
      let vars' : Vars = record {
        ex_code = r.ex_code;
        memory_used = r.memory_used;
        time_used = r.time_used;
      } in
      if-Keeps os {A = ℤ × Vars} x.holds (r.conversions == 4) (pure (r.res, vars')) _ (λ s p. p)
        (λ s p. p)

module _ (os : Os) (c : Settings) (x : Fact os) (stable : Stable os x) where
  pub run_limited-Quiet :
      (cmd fn_in fn_out : Bytes) (timeout memory_limit : ℤ) (redirect_stderr : Bool) (vars : Vars)
      → Quiet os x (run_limited os c cmd fn_in fn_out timeout memory_limit redirect_stderr vars)
  unfolding run_limited
  run_limited-Quiet cmd fn_in fn_out timeout memory_limit redirect_stderr vars =
      let command =
        c_str (run_command os c cmd fn_in fn_out timeout memory_limit redirect_stderr) in
      let result = os.read_file (cfg c (codes "general.limit_run_result_file")) in
      let read_result : M os (ℤ × Vars) = look result >>= from_file os c cmd vars in
      let fail : M os (ℤ × Vars) = pure (run_failed, vars) in
      bind-Keeps os x.holds (run_os (os.system command))
        (λ ret. if succeeded ret then read_result else fail)
        (run_os-Keeps os x.holds (os.system command) (stable.system_kept command))
        (λ ret.
          if-Keeps os x.holds (succeeded ret) read_result fail
            (bind-Keeps os x.holds (look result) (from_file os c cmd vars) (λ s p. p)
              (from_file-Quiet os c x cmd vars))
            (λ s p. p))

  -- The destructors erase what two objects own.
  pub leave-Owned :
      {A : Type 0} (Q : A → View os → Type 0) (tf_in tf_out : TempFile) (a : A) (ts : List TempFile)
      → ((w : View os) → Owned os x ts w → Q a w)
      → Triple os (Owned os x (tf_out ∷ tf_in ∷ ts)) (leave os c tf_in tf_out a) Q
  unfolding leave
  leave-Owned Q tf_in tf_out a ts f =
      bind-Triple os (Owned os x (tf_out ∷ tf_in ∷ ts)) (λ _. Owned os x (tf_in ∷ ts)) Q
        (erase os tf_out) (λ _. erase os tf_in >>= λ _. pure a)
        (erase-Owned os c x stable tf_out (tf_in ∷ ts))
        (λ _.
          bind-Triple os (Owned os x (tf_in ∷ ts)) (λ _. Owned os x ts) Q (erase os tf_in)
            (λ _. pure a) (erase-Owned os c x stable tf_in ts) (λ _ s p. f (view os s) p))

  run_piped-Owned :
      (cmd data_out : Bytes) (timeout memory_limit : ℤ) (redirect_stderr : Bool) (vars : Vars)
      (tf_in : TempFile) (made : Bool × TempFile)
      → Triple os
          (Owned os x (made.1 ∷ tf_in ∷ []))
          (run_piped os c cmd data_out timeout memory_limit redirect_stderr vars tf_in made)
          (λ _. x.holds)
  unfolding run_piped
  run_piped-Owned cmd data_out timeout memory_limit redirect_stderr vars tf_in (made, tf_out) =
      let Result : Type 0 = ℤ × Bytes × Vars in
      let owners = tf_out ∷ tf_in ∷ [] in
      let limit = cfgi c (codes "general.max_run_out_size") in
      let ran =
        run_limited os c cmd tf_in.name tf_out.name timeout memory_limit redirect_stderr vars in
      let finish : ℤ × Vars → Bytes → M os Result =
        λ r out. leave os c tf_in tf_out (r.0, out, r.1) in
      let end : (a : Result)
          → Triple os (Owned os x owners) (leave os c tf_in tf_out a) (λ _. x.holds) =
        λ a. leave-Owned (λ _. x.holds) tf_in tf_out a [] (λ w f. f refl) in
      if-Triple os (Owned os x owners) (λ _. x.holds) (not made) _ _
        (λ _ s p. end (run_failed, data_out, vars) _ p)
        (λ _.
          bind-Triple os (Owned os x owners) (λ _. Owned os x owners) (λ _. x.holds) ran
            (λ r. read os tf_out limit >>= finish r)
            (Owned-framed os x owners ran (
              run_limited-Quiet cmd tf_in.name tf_out.name timeout memory_limit redirect_stderr
                vars))
            (λ r.
              bind-Triple os (Owned os x owners) (λ _. Owned os x owners) (λ _. x.holds)
                (read os tf_out limit) (finish r)
                (Owned-framed os x owners (read os tf_out limit)
                  (read-Quiet os c x stable tf_out limit))
                (λ out. end (r.0, out, r.1))))

  pub run-Quiet :
      (cmd data_in data_out : Bytes) (timeout memory_limit : ℤ) (redirect_stderr : Bool)
      (vars : Vars)
      → Quiet os x (run os c cmd true data_in data_out timeout memory_limit redirect_stderr vars)
  unfolding run run_use_pipes
  run-Quiet cmd data_in data_out timeout memory_limit redirect_stderr vars =
      let Result : Type 0 = ℤ × Bytes × Vars in
      let piped : TempFile → Bool × TempFile → M os Result =
        run_piped os c cmd data_out timeout memory_limit redirect_stderr vars in
      let fail : TempFile → M os Result = λ tf_in.
        log_error (codes "Error: cannot write input data to temp file!") [] >>= λ _.
        leave os c tf_in unused (run_failed, data_out, vars) in
      let created : Bool × TempFile → M os Result =
        λ made. if not made.0 then fail made.1 else create os c unused [] >>= piped made.1 in
      bind-Triple os x.holds (λ made. Owned os x (made.1 ∷ [])) (λ _. x.holds)
        (create os c unused data_in) created
        (λ s p. create-Owned os c x stable unused data_in [] s (λ _. p))
        (λ made.
          if-Triple os (Owned os x (made.1 ∷ [])) (λ _. x.holds) (not made.0) (fail made.1)
            (create os c unused [] >>= piped made.1)
            (λ _ s p.
              leave-Owned (λ _. x.holds) made.1 unused (run_failed, data_out, vars) []
                (λ w f. f refl) _ p)
            (λ _.
              bind-Triple os (Owned os x (made.1 ∷ [])) (λ out. Owned os x (out.1 ∷ made.1 ∷ []))
                (λ _. x.holds) (create os c unused []) (piped made.1)
                (create-Owned os c x stable unused [] (made.1 ∷ []))
                (run_piped-Owned cmd data_out timeout memory_limit redirect_stderr vars made.1)))
