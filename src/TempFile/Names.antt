-- ===== src/TempFile/Names.antt =====
-- The names of temporary files.
use bacs_legacy.Base.{
  ℕ, ◌<◌, refl, zero, suc, ◌*◌, ◌/◌, ◌≤◌, ◌≡◌, ◌≢◌, ◌⊎◌, inl, inr, false, Bool-cases, Bytes, ltb,
  arith,
}
use bacs_legacy.System.{Os, Server, returned}
use bacs_legacy.Config.{Settings}
use bacs_legacy.TempFile.{
  rand_max, char_of, file_exists, candidate, unique_loop, gen_unique_filename,
}

abbrev pub IsAlphanumeric : ℕ → Type 0
IsAlphanumeric c = ((b'0' ≤ c) × (c ≤ b'9')) ⊎ ((b'a' ≤ c) × (c ≤ b'z'))

-- A random character is a digit or a small letter for every random number but the largest one,
-- which gives the byte behind `z`.
pub char_of_range :
    (rnd : ℕ)
    → rnd ≤ rand_max
    → (rnd ≢ rand_max → IsAlphanumeric (char_of rnd)) × (rnd ≡ rand_max → char_of rnd ≡ b'{')
unfolding char_of
char_of_range rnd h = (
  λ n. elim (Bool-cases (ltb (rnd * 36 / rand_max) 10)) [
    | inl e ↦ inl (ground arith)
    | inr e ↦ inr (ground arith)
  ],
  λ e. ground arith,
)

module _ (os : Os) (c : Settings) where
  unique_loop-fresh :
      (fuel : ℕ) (s : Server os) (fn : Bytes)
      → (unique_loop os c fuel s).0 ≡ returned fn
      → file_exists os fn (unique_loop os c fuel s).1.world ≡ false
  unfolding unique_loop
  unique_loop-fresh zero s = λ fn h. cc
  unique_loop-fresh (suc fuel) s =
      let (fn', s') = candidate os c s in
      elim (Bool-cases (file_exists os fn' s'.world)) [
        | inl taken ↦ rw taken (unique_loop-fresh fuel s')
        | inr free ↦ rw free (λ fn h. let e : fn' ≡ fn = cc in rw (← e) free)
      ]

  -- A name that `gen_unique_filename` returns is no file's name at that time.
  pub gen_unique_filename-fresh :
      (s : Server os) (fn : Bytes)
      → (gen_unique_filename os c s).0 ≡ returned fn
      → file_exists os fn (gen_unique_filename os c s).1.world ≡ false
  unfolding gen_unique_filename
  gen_unique_filename-fresh s fn h = unique_loop-fresh c.attempts s fn h

  -- The state after some rounds of the loop.
  abbrev pub rounds : ℕ → Server os → Server os
  rounds zero s = s
  rounds (suc k) s = rounds k (candidate os c s).1

  -- The name of the next round is no file's name.
  abbrev pub IsFree : Server os → Type 0
  IsFree s = file_exists os (candidate os c s).0 (candidate os c s).1.world ≡ false

  unique_loop-returns :
      (fuel k : ℕ) (s : Server os)
      → k < fuel
      → IsFree (rounds k s)
      → (fn : Bytes) × ((unique_loop os c fuel s).0 ≡ returned fn)
  unfolding unique_loop
  unique_loop-returns zero k s h free = absurd (omega arith)
  unique_loop-returns (suc fuel) zero s h free = rw free ((candidate os c s).0, refl)
  unique_loop-returns (suc fuel) (suc k) s h free =
      let (fn, s') = candidate os c s in
      elim (Bool-cases (file_exists os fn s'.world)) [
        | inl taken ↦ rw taken (unique_loop-returns fuel k s' (omega arith) free)
        | inr here ↦ rw here (fn, refl)
      ]

  -- The loop returns a name, if one of the rounds that the bound allows comes upon a free one.
  pub gen_unique_filename-returns :
      (k : ℕ) (s : Server os)
      → k < c.attempts
      → IsFree (rounds k s)
      → (fn : Bytes) × ((gen_unique_filename os c s).0 ≡ returned fn)
  unfolding gen_unique_filename
  gen_unique_filename-returns k s h free = unique_loop-returns c.attempts k s h free
