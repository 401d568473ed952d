-- ===== src/Run/Fits.antt =====
-- What `run` gives back of the output of a command, in src/lib/run.cpp, is bounded by the setting
-- `max_run_out_size`.
use bacs_legacy.Base.{
  ℕ, ◌≤◌, ◌≡◌, ap, sym, subst, Bool, Bool-cases, true, false, not, [], Bytes, codes, ℤ, pos,
  pos_part, ltb_ℤ, to_int, length, take, inl, inr, if◌then◌else◌, if_cases, Option-cases, arith,
  length-take,
}
use bacs_legacy.System.{Os, Server, M, Outcome, returned, ◌>>=◌, pure, crash, log_error}
use bacs_legacy.System.Rules.{bind_cases}
use bacs_legacy.Def.{run_failed}
use bacs_legacy.Config.{Settings, cfgi}
use bacs_legacy.TempFile.{TempFile, unused, read_size, create, erase, read}
use bacs_legacy.Run.{Vars, run_limited, leave, run_piped, run_use_pipes, run}

read_size-bound :
    (n sz : ℕ)
    → 1 ≤ n
    → ltb_ℤ (read_size (pos n) sz) (pos 0) ≡ false
    → pos_part (read_size (pos n) sz) ≤ n
unfolding read_size
read_size-bound n sz h e = elim (Bool-cases (ltb_ℤ (pos n) (to_int (pos sz)))) [
  | inl l ↦ ground arith
  | inr l ↦ ground arith
]

module _ {os : Os} where
  -- What is returned fits into `n` bytes.
  abbrev pub Fits : ℕ → Outcome (ℤ × Bytes × Vars) × Server os → Type 0
  Fits n r = (a : ℤ × Bytes × Vars) → r.0 ≡ returned a → length a.1 ≤ n

  leave-Fits :
      (c : Settings) (n : ℕ) (tf_in tf_out : TempFile) (a : ℤ × Bytes × Vars) (s : Server os)
      → length a.1 ≤ n
      → Fits n (leave os c tf_in tf_out a s)
  unfolding leave
  leave-Fits c n tf_in tf_out a s h =
      bind_cases (Fits n) (erase os tf_out) (λ _. erase os tf_in >>= λ _. pure a) s
        (λ _ s₁ _.
          bind_cases (Fits n) (erase os tf_in) (λ _. pure a) s₁ (λ _ s₂ _ b e. ground arith)
            (λ s₂ _ b e. cc))
        (λ s₁ _ b e. cc)

module _ (os : Os) (c : Settings) (n : ℕ) (positive : 1 ≤ n) where
  read-fits :
      (t : TempFile) (max_size : ℤ) (s : Server os) (out : Bytes)
      → max_size ≡ pos n
      → (read os t max_size s).0 ≡ returned out
      → length out ≤ n
  unfolding read
  read-fits t max_size s out size =
      subst (λ m. (read os t m s).0 ≡ returned out → length out ≤ n) (sym size)
        (if_cases (λ (m : M os Bytes). (m s).0 ≡ returned out → length out ≤ n) t.file_created _
          (pure [])
          (λ _. elim (Option-cases (os.read_file t.name s.world)) [
            | inl e ↦ rw e (λ h. ground arith)
            | inr (text, e) ↦
                let size = read_size (pos n) (length text) in
                rw e (
                  if_cases (λ (m : M os Bytes). (m s).0 ≡ returned out → length out ≤ n)
                    (ltb_ℤ size (pos 0)) crash (pure (take (pos_part size) text)) (λ _ h. cc)
                    (λ k h.
                      let b = read_size-bound n (length text) positive k in
                      let same : take (pos_part size) text ≡ out = cc in
                      subst (λ r. length r ≤ n) same
                        (omega (arith, b, length-take (pos_part size) text))))
          ])
          (λ _ h. ground arith))

  run_piped-Fits :
      (cmd data_out : Bytes) (timeout memory_limit : ℤ) (redirect_stderr : Bool) (vars : Vars)
      (tf_in : TempFile) (made : Bool × TempFile) (s : Server os)
      → cfgi c (codes "general.max_run_out_size") ≡ pos n
      → length data_out ≤ n
      → Fits n (run_piped os c cmd data_out timeout memory_limit redirect_stderr vars tf_in made s)
  unfolding run_piped
  run_piped-Fits cmd data_out timeout memory_limit redirect_stderr vars tf_in (made, tf_out) s e h =
      let Result : Type 0 = ℤ × Bytes × Vars in
      let run =
        run_limited os c cmd tf_in.name tf_out.name timeout memory_limit redirect_stderr vars in
      let finish : ℤ × Vars → Bytes → M os Result =
        λ r out. leave os c tf_in tf_out (r.0, out, r.1) in
      let limit = cfgi c (codes "general.max_run_out_size") in
      if_cases (λ (m : M os Result). Fits n (m s)) (not made) _ _
        (λ _. leave-Fits c n tf_in tf_out (run_failed, data_out, vars) _ h)
        (λ _.
          bind_cases (Fits n) run (λ r. read os tf_out limit >>= finish r) s
            (λ r s₁ _.
              bind_cases (Fits n) (read os tf_out limit) (finish r) s₁
                (λ out s₂ k.
                  leave-Fits c n tf_in tf_out (r.0, out, r.1) s₂
                    (read-fits tf_out limit s₁ out e (ap (λ x. x.0) k)))
                (λ s₂ _ b f. cc))
            (λ s₁ _ b f. cc))

  -- With pipes: the text that `run` gives back is no longer than the setting allows, if the one that
  -- it was given is not, which stays where no temporary file can be made.
  pub run-Fits :
      (cmd data_in data_out : Bytes) (timeout memory_limit : ℤ) (redirect_stderr : Bool)
      (vars : Vars) (s : Server os)
      → cfgi c (codes "general.max_run_out_size") ≡ pos n
      → length data_out ≤ n
      → Fits n (run os c cmd true data_in data_out timeout memory_limit redirect_stderr vars s)
  unfolding run run_use_pipes
  run-Fits cmd data_in data_out timeout memory_limit redirect_stderr vars s e h =
      let Result : Type 0 = ℤ × Bytes × Vars in
      let piped : TempFile → Bool × TempFile → M os Result =
        run_piped os c cmd data_out timeout memory_limit redirect_stderr vars in
      let fail : TempFile → M os Result = λ tf_in.
        log_error (codes "Error: cannot write input data to temp file!") [] >>= λ _.
        leave os c tf_in unused (run_failed, data_out, vars) in
      let created : Bool × TempFile → M os Result =
        λ made. if not made.0 then fail made.1 else create os c unused [] >>= piped made.1 in
      bind_cases (Fits n) (create os c unused data_in) created s
        (λ made s₁ _.
          if_cases (λ (m : M os Result). Fits n (m s₁)) (not made.0) (fail made.1)
            (create os c unused [] >>= piped made.1)
            (λ _. leave-Fits c n made.1 unused (run_failed, data_out, vars) _ h)
            (λ _.
              bind_cases (Fits n) (create os c unused []) (piped made.1) s₁
                (λ out s₂ _.
                  run_piped-Fits cmd data_out timeout memory_limit redirect_stderr vars made.1 out
                    s₂ e h)
                (λ s₂ _ b f. cc)))
        (λ s₁ _ b f. cc)
