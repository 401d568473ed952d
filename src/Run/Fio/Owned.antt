-- ===== src/Run/Fio/Owned.antt =====
-- What `run_fio` of src/lib/run.cpp leaves of temporary files: the one for the output alone.
use bacs_legacy.Base.{
  ◌≡◌, refl, Bool, false, not, Option, none, some, [], ◌∷◌, Bytes, ℤ, if◌then◌else◌, arith,
}
use bacs_legacy.Def.{run_failed}
use bacs_legacy.System.{Os, M, ◌>>=◌}
use bacs_legacy.System.Triples.{View, Triple, bind-Triple, if-Triple}
use bacs_legacy.Config.{Settings}
use bacs_legacy.TempFile.{TempFile, unused, assign, detach, create}
use bacs_legacy.System.Facts.{Fact, Stable}
use bacs_legacy.TempFile.Owned.{Owned, Owned-framed, Owned-cons, create-Owned}
use bacs_legacy.Run.{Vars, run_limited, leave}
use bacs_legacy.Run.Owned.{run_limited-Quiet, leave-Owned}
use bacs_legacy.Run.Fio.Steps.{
  Apart, prepare_input-Owned, prepare_output-Quiet, fetch_output-Owned, drop_input-Owned,
}
use bacs_legacy.Run.Fio.{
  Fio, failed, prepare_input, prepare_output, fetch_output, drop_input, run_prepared, run_created,
  run_ready, run_fio,
}

module _ (os : Os) (c : Settings) (x : Fact os) (stable : Stable os x) (apart : Apart os c x) where
  run_prepared-Owned :
      (cmd in_fn : Bytes) (timeout memory_limit : ℤ) (input_fn output_fn : Bytes)
      (tf_in tf_out : TempFile) (vars : Vars)
      → Triple os
          (Owned os x (tf_out ∷ tf_in ∷ []))
          (run_prepared os c cmd in_fn timeout memory_limit input_fn output_fn tf_in tf_out vars)
          (λ fio. Owned os x (assign fio.file_out ∷ []))
  unfolding run_prepared
  run_prepared-Owned cmd in_fn timeout memory_limit input_fn output_fn tf_in tf_out vars =
      let file_out = tf_out.name in
      let Mine : Fio → View os → Type 0 = λ fio. Owned os x (assign fio.file_out ∷ []) in
      let before : View os → Type 0 = Owned os x (tf_out ∷ tf_in ∷ []) in
      let detached : View os → Type 0 = Owned os x (assign file_out ∷ tf_in ∷ []) in
      let run = run_limited os c cmd in_fn file_out timeout memory_limit false vars in
      let dropped : ℤ × Vars → Bool × TempFile → M os Fio = λ r fine.
        leave os c fine.1 (detach tf_out) (record {
          result = if fine.0 then r.0 else run_failed;
          file_out = file_out;
          vars = r.1;
        }) in
      let fail : ℤ × Vars → M os Fio =
        λ r. leave os c tf_in (detach tf_out) (failed file_out r.1) in
      let fetched : ℤ × Vars → Bool → M os Fio =
        λ r fine. if not fine then fail r else drop_input os c input_fn tf_in >>= dropped r in
      let end : (t : TempFile) (fio : Fio)
          → (fio.file_out ≡ file_out)
          → Triple os (Owned os x (t ∷ assign file_out ∷ [])) (leave os c t (detach tf_out) fio)
              Mine =
        λ t fio e.
          leave-Owned os c x stable Mine t (detach tf_out) fio (assign file_out ∷ [])
            (λ w p. rw e p) in
      bind-Triple os before (λ _. before) Mine run
        (λ r. fetch_output os c output_fn file_out >>= fetched r)
        (Owned-framed os x (tf_out ∷ tf_in ∷ []) run
          (run_limited-Quiet os c x stable cmd in_fn file_out timeout memory_limit false vars))
        (λ r s p.
          bind-Triple os detached (λ _. detached) Mine (fetch_output os c output_fn file_out)
            (fetched r) (fetch_output-Owned os c x stable apart output_fn file_out (tf_in ∷ []))
            (λ fine.
              if-Triple os detached Mine (not fine) (fail r)
                (drop_input os c input_fn tf_in >>= dropped r)
                (λ _ s p. end tf_in (failed file_out r.1) refl s (λ e. p (ground arith)))
                (λ _ s p.
                  bind-Triple os (Owned os x (tf_in ∷ assign file_out ∷ []))
                    (λ d. Owned os x (d.1 ∷ assign file_out ∷ [])) Mine
                    (drop_input os c input_fn tf_in) (dropped r)
                    (drop_input-Owned os c x stable apart input_fn tf_in (assign file_out ∷ []))
                    (λ d. end d.1 _ refl) s (λ e. p (ground arith))))
            s (λ e. p (ground arith)))

  run_created-Owned :
      (cmd file_out : Bytes) (timeout memory_limit : ℤ) (input_fn output_fn in_fn : Bytes)
      (tf_in : TempFile) (vars : Vars) (made : Bool × TempFile)
      → Triple os
          (Owned os x (made.1 ∷ tf_in ∷ []))
          (run_created os c cmd file_out timeout memory_limit input_fn output_fn in_fn tf_in vars
            made)
          (λ fio. Owned os x (assign fio.file_out ∷ []))
  unfolding run_created
  run_created-Owned cmd file_out timeout memory_limit input_fn output_fn in_fn tf_in vars
        (made, tf_out) =
      let Mine : Fio → View os → Type 0 = λ fio. Owned os x (assign fio.file_out ∷ []) in
      let owners = tf_out ∷ tf_in ∷ [] in
      let end : Triple os (Owned os x owners) (leave os c tf_in tf_out (failed file_out vars))
          Mine =
        leave-Owned os c x stable Mine tf_in tf_out (failed file_out vars) []
          (λ w p. Owned-cons os x (assign file_out) [] w p) in
      if-Triple os (Owned os x owners) Mine (not made) _ _ (λ _ s p. end _ p)
        (λ _.
          bind-Triple os (Owned os x owners) (λ _. Owned os x owners) Mine
            (prepare_output os c output_fn) _
            (Owned-framed os x owners (prepare_output os c output_fn)
              (prepare_output-Quiet os c x stable apart output_fn))
            (λ ready.
              if-Triple os (Owned os x owners) Mine ready _ _
                (λ _.
                  run_prepared-Owned cmd in_fn timeout memory_limit input_fn output_fn tf_in tf_out
                    vars)
                (λ _. end)))

  -- When `run_fio` has returned there is no temporary file that was not there before, but the one
  -- that the caller is told of.
  pub run_fio-Owned :
      (cmd file_in file_out : Bytes) (timeout memory_limit : ℤ) (input_fn output_fn : Bytes)
      (vars : Vars)
      → Triple os x.holds
          (run_fio os c cmd file_in file_out timeout memory_limit input_fn output_fn vars)
          (λ fio. Owned os x (assign fio.file_out ∷ []))
  unfolding run_fio run_ready
  run_fio-Owned cmd file_in file_out timeout memory_limit input_fn output_fn vars =
      bind-Triple os x.holds (λ r. Owned os x (r.0 ∷ []))
        (λ fio. Owned os x (assign fio.file_out ∷ [])) (prepare_input os c file_in input_fn)
        (run_ready os c cmd file_out timeout memory_limit input_fn output_fn vars)
        (prepare_input-Owned os c x stable apart file_in input_fn) ready
    where
      ready :
          (r : TempFile × Option Bytes)
          → Triple os
              (Owned os x (r.0 ∷ []))
              (run_ready os c cmd file_out timeout memory_limit input_fn output_fn vars r)
              (λ fio. Owned os x (assign fio.file_out ∷ []))
      ready (tf_in, none) =
          leave-Owned os c x stable (λ fio. Owned os x (assign fio.file_out ∷ [])) tf_in unused
            (failed file_out vars) [] (λ w p. Owned-cons os x (assign file_out) [] w p)
      ready (tf_in, some in_fn) =
          bind-Triple os (Owned os x (tf_in ∷ [])) (λ made. Owned os x (made.1 ∷ tf_in ∷ []))
            (λ fio. Owned os x (assign fio.file_out ∷ [])) (create os c unused [])
            (run_created os c cmd file_out timeout memory_limit input_fn output_fn in_fn tf_in vars)
            (create-Owned os c x stable unused [] (tf_in ∷ []))
            (run_created-Owned cmd file_out timeout memory_limit input_fn output_fn in_fn tf_in
              vars)
