-- ===== src/Run/Fio/Steps.antt =====
-- The steps of `run_fio` around the run, in src/lib/run.cpp, and what they leave of temporary files.
use bacs_legacy.Base.{
  ◌≡◌, Bool, true, false, Bool-cases, inl, inr, not, Option, none, some, List, [], ◌∷◌, Bytes,
  codes, ℤ, pos, ◌==ℤ◌, ◌=ₛ◌, if◌then◌else◌, arith,
}
use bacs_legacy.Process.{WaitStatus, succeeded}
use bacs_legacy.System.{Os, M, ◌>>=◌, ◌>>◌, pure, crash, look, run_os, try_os, log_error}
use bacs_legacy.System.Triples.{
  View, view, Triple, Keeps, After-always, bind-Triple, bind-Keeps, if-Triple, if-Keeps,
  run_os-Keeps, try_os-Keeps,
}
use bacs_legacy.Config.{Settings}
use bacs_legacy.TempFile.{TempFile, unused, assign, create, erase, file_exists}
use bacs_legacy.System.Facts.{Fact, Stable, Quiet}
use bacs_legacy.TempFile.Owned.{Owned, Owned-framed, Owned-cons, create-Owned, erase-Owned}
use bacs_legacy.Run.Fio.{
  success_ret, make_empty, copy_command, in_test_dir, prepare_input, prepare_output, fetch_output,
  drop_input,
}

-- The fact is about no file of the directory for the tests.
abbrev pub Apart : (os : Os) → Settings → Fact os → Type 0
Apart os c x = (fn : Bytes) → x.about (in_test_dir os c fn) ≡ false

module _ (os : Os) (c : Settings) (x : Fact os) (stable : Stable os x) where
  pub success_ret-Quiet : (ret : ℤ) → Quiet os x (success_ret os ret)
  unfolding success_ret
  success_ret-Quiet ret =
      if-Keeps os {A = Bool} x.holds (ret ==ℤ pos 0) (pure true) _ (λ s p. p) (λ s p. p)

  -- A file with another name is made.
  make_empty-Quiet : (fn : Bytes) → x.about fn ≡ false → Quiet os x (make_empty os fn)
  unfolding make_empty
  make_empty-Quiet fn other =
      bind-Keeps os x.holds (try_os (os.write_file fn [])) (λ made. if made then pure tt else crash)
        (try_os-Keeps os x.holds (os.write_file fn []) (stable.write_kept fn [] other))
        (λ made. if-Keeps os {A = Unit {0}} x.holds made (pure tt) crash (λ s p. p) (λ s p. tt))

  -- The file of an owner may be made again.
  assign-Owned :
      {A : Type 0} (fn : Bytes) (ts : List TempFile) (m : M os A)
      → (x.about fn ≡ false → Quiet os x m)
      → Keeps os (Owned os x (assign fn ∷ ts)) m
  assign-Owned fn ts m q s p = elim (Bool-cases (x.about fn)) [
    | inl same ↦
        After-always os (λ _. Owned os x (assign fn ∷ ts)) (m s) (λ a w f. absurd (ground arith))
    | inr other ↦ Owned-framed os x (assign fn ∷ ts) m (q other) s p
  ]

  pub run_os-Owned :
      {A : Type 0} (ts : List TempFile) (f : os.World → A × os.World)
      → ((v : View os) → x.holds v → x.holds (v.0, (f v.1).1))
      → Keeps os (Owned os x ts) (run_os f)
  run_os-Owned ts f h = Owned-framed os x ts (run_os f) (run_os-Keeps os x.holds f h)

  -- A step on a file, and the test of its return value.
  checked-Quiet :
      (f : os.World → ℤ × os.World)
      → ((v : View os) → x.holds v → x.holds (v.0, (f v.1).1))
      → Quiet os x (run_os f >>= success_ret os)
  checked-Quiet f h =
      bind-Keeps os x.holds (run_os f) (success_ret os) (run_os-Keeps os x.holds f h)
        success_ret-Quiet

  module _ (apart : Apart os c x) where
    pub prepare_input-Owned :
        (file_in input_fn : Bytes)
        → Triple os x.holds (prepare_input os c file_in input_fn) (λ r. Owned os x (r.0 ∷ []))
    unfolding prepare_input
    prepare_input-Owned file_in input_fn =
        let Result : Type 0 = TempFile × Option Bytes in
        let name = in_test_dir os c input_fn in
        let Mine : Result → View os → Type 0 = λ r. Owned os x (r.0 ∷ []) in
        let answer : TempFile → Bool → M os Result =
          λ tf_in fine. pure (tf_in, if fine then some tf_in.name else none) in
        let chmod : TempFile → M os Result =
          λ tf_in. run_os (os.chmod name 0o664) >>= λ ret. success_ret os ret >>= answer tf_in in
        let copied : TempFile → WaitStatus → M os Result =
          λ tf_in ret. if not (succeeded ret) then pure (tf_in, none) else chmod tf_in in
        let cp = os.system (copy_command os file_in name) in
        let copy : TempFile → M os Result = λ tf_in. run_os cp >>= copied tf_in in
        let fail : TempFile → M os Result = λ tf_in.
          log_error (codes "Error: cannot create input temp file!") [] >>= λ _.
          pure (tf_in, none) in
        let created : Bool × TempFile → M os Result =
          λ made. if not made.0 then fail made.1 else copy made.1 in
        if-Triple os x.holds Mine (input_fn =ₛ codes "STDIN") (pure (unused, some file_in))
          (create os c unused [] >>= created) (λ _ s p f. p)
          (λ _.
            bind-Triple os x.holds (λ made. Owned os x (made.1 ∷ [])) Mine (create os c unused [])
              created (λ s p. create-Owned os c x stable unused [] [] s (λ _. p))
              (λ made.
                let owned : View os → Type 0 = Owned os x (made.1 ∷ []) in
                if-Triple os owned Mine (not made.0) (fail made.1) (copy made.1) (λ _ s p. p)
                  (λ _.
                    bind-Triple os owned (λ _. owned) Mine (run_os cp) (copied made.1)
                      (run_os-Owned (made.1 ∷ []) cp
                        (stable.system_kept (copy_command os file_in name)))
                      (λ ret.
                        if-Triple os owned Mine (not (succeeded ret)) (pure (made.1, none))
                          (chmod made.1) (λ _ s p. p)
                          (λ _.
                            bind-Triple os owned (λ _. owned) Mine (run_os (os.chmod name 0o664))
                              (λ ret. success_ret os ret >>= answer made.1)
                              (run_os-Owned (made.1 ∷ []) (os.chmod name 0o664)
                                (stable.chmod_kept name 0o664))
                              (λ ret.
                                bind-Triple os owned (λ _. owned) Mine (success_ret os ret)
                                  (answer made.1)
                                  (Owned-framed os x (made.1 ∷ []) (success_ret os ret)
                                    (success_ret-Quiet ret))
                                  (λ fine s p. p)))))))

    pub prepare_output-Quiet : (output_fn : Bytes) → Quiet os x (prepare_output os c output_fn)
    unfolding prepare_output
    prepare_output-Quiet output_fn =
        let name = in_test_dir os c output_fn in
        if-Keeps os {A = Bool} x.holds (output_fn =ₛ codes "STDOUT") (pure true) _ (λ s p. p)
          (bind-Keeps os x.holds (make_empty os name)
            (λ _. run_os (os.chmod name 0o662) >>= success_ret os)
            (make_empty-Quiet name (apart output_fn))
            (λ _. checked-Quiet (os.chmod name 0o662) (stable.chmod_kept name 0o662)))

    pub fetch_output-Owned :
        (output_fn file_out : Bytes) (ts : List TempFile)
        → Keeps os (Owned os x (assign file_out ∷ ts)) (fetch_output os c output_fn file_out)
    unfolding fetch_output
    fetch_output-Owned output_fn file_out ts =
        let name = in_test_dir os c output_fn in
        assign-Owned file_out ts (fetch_output os c output_fn file_out) (λ other.
          if-Keeps os {A = Bool} x.holds (output_fn =ₛ codes "STDOUT") (pure true) _ (λ s p. p)
            (bind-Keeps os x.holds (look (file_exists os name)) _ (λ s p. p)
              (λ there.
                if-Keeps os {A = Bool} x.holds there
                  (run_os (os.rename name file_out) >>= success_ret os)
                  (make_empty os file_out >> pure true)
                  (checked-Quiet (os.rename name file_out) (stable.rename_kept name file_out other))
                  (bind-Keeps os x.holds (make_empty os file_out) (λ _. pure true)
                    (make_empty-Quiet file_out other) (λ _ s p. p)))))

    pub drop_input-Owned :
        (input_fn : Bytes) (tf_in : TempFile) (ts : List TempFile)
        → Triple os
            (Owned os x (tf_in ∷ ts))
            (drop_input os c input_fn tf_in)
            (λ r. Owned os x (r.1 ∷ ts))
    unfolding drop_input
    drop_input-Owned input_fn tf_in ts =
        let Result : Type 0 = Bool × TempFile in
        let name = in_test_dir os c input_fn in
        let Mine : Result → View os → Type 0 = λ r. Owned os x (r.1 ∷ ts) in
        let unlinked : TempFile → ℤ → M os Result =
          λ t ret. success_ret os ret >>= λ fine. pure (fine, t) in
        let erased : Bool × TempFile → M os Result =
          λ r. run_os (os.unlink name) >>= unlinked r.1 in
        if-Triple os (Owned os x (tf_in ∷ ts)) Mine (input_fn =ₛ codes "STDIN") (pure (true, tf_in))
          (erase os tf_in >>= erased) (λ _ s p. p)
          (λ _.
            bind-Triple os (Owned os x (tf_in ∷ ts)) (λ _. Owned os x ts) Mine (erase os tf_in)
              erased (erase-Owned os c x stable tf_in ts)
              (λ r.
                bind-Triple os (Owned os x ts) (λ _. Owned os x ts) Mine (run_os (os.unlink name))
                  (unlinked r.1) (run_os-Owned ts (os.unlink name) (stable.unlink_kept name))
                  (λ ret.
                    bind-Triple os (Owned os x ts) (λ _. Owned os x ts) Mine (success_ret os ret)
                      (λ fine. pure (fine, r.1))
                      (Owned-framed os x ts (success_ret os ret) (success_ret-Quiet ret))
                      (λ fine s p. Owned-cons os x r.1 ts (view os s) p))))
