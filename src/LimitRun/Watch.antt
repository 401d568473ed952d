-- ===== src/LimitRun/Watch.antt =====
-- The parent's loop as a whole.
use bacs_legacy.Base.{
  ◌↔◌, ◌==ℤ◌, ==ℤ_iff, ℕ, ◌+◌, ◌<◌, ◌≡◌, ◌⊎◌, true, false, Option, List, [], ◌∷◌, ℤ, pos, arith,
  All, Bool-cases, inl, inr,
}
use bacs_legacy.Def.{run_ok}
use bacs_legacy.Process.{WaitStatus, exited}
use bacs_legacy.LimitRun.{Usage, Poll, real_seconds, real_time_over, watch}
use bacs_legacy.LimitRun.Verdict.{IsWithin, classify_ok_iff}

module _ (time_limit memory_limit : ℤ) (start : ℕ) (usage : Option Usage)
    (status : WaitStatus) where
  -- A poll of a run whose real time is not over.
  abbrev pub InTime : Poll → Type 0
  InTime p = (time_limit ≡ pos 0) ⊎ (p.now < start + real_seconds time_limit)

  abbrev pub EndsWell : Type 0
  EndsWell = IsWithin time_limit memory_limit usage × ((code : ℕ) × (status ≡ exited code))

  pub InTime-cases :
      (p : Poll)
      → (InTime p × (real_time_over time_limit start p ≡ false))
        ⊎ ((InTime p → ⊥) × (real_time_over time_limit start p ≡ true))
  unfolding real_time_over
  InTime-cases p = elim (Bool-cases (real_time_over time_limit start p)) [
    | inl e ↦ inr (
      (λ t. elim t [ inl z ↦ ground (arith, ==ℤ_iff time_limit (pos 0)) | inr lt ↦ ground arith ]),
      e,
    )
    | inr e ↦ elim (Bool-cases (time_limit ==ℤ pos 0)) [
      | inl z ↦ inl (inl ((==ℤ_iff time_limit (pos 0)).0 z), e)
      | inr z ↦ inl (inr (ground arith), e)
    ]
  ]

  -- A run is reported as right exactly when it ended by itself, with no limit reached, and every
  -- poll before found its real time not over.
  pub watch_ok_iff :
      (polls : List Poll)
      → ((watch time_limit memory_limit start polls usage status).result ≡ run_ok)
        ↔ (All InTime polls × EndsWell)
  unfolding watch
  watch_ok_iff [] =
      let e = classify_ok_iff time_limit memory_limit usage status in
      ((λ h. (tt, e.0 h)), λ h. e.1 h.1)
  watch_ok_iff (p ∷ polls) = elim (InTime-cases p) [
    | inl (t, e) ↦
        let ih = watch_ok_iff polls in
        rw e ((λ h. let r = ih.0 h in ((t, r.0), r.1)), λ h. ih.1 (h.0.1, h.1))
    | inr (t, e) ↦ rw e ((λ h. absurd (ground arith)), λ h. absurd (t h.0.0))
  ]
