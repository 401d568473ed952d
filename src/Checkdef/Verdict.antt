-- ===== src/Checkdef/Verdict.antt =====
-- The verdict of `check_equal` against an independent description of it.
use bacs_legacy.Base.{
  Bool-cases, ℕ, zero, suc, ◌<◌, ◌≡◌, ◌↔◌, inl, inr, refl, true, false, none, some, [], ◌∷◌, Bytes,
  ◌==◌, if◌then◌else◌, length, not, keep, ◌=ₛ◌, =ₛ_iff, arith,
}
use bacs_legacy.Checkdef.{
  ErrorCode, ok, wa, newline, carriage_return, open_stream, check_bytes, check_ln, skip_bytes,
  skip_cr, after_loop, check_loop, check_equal, test_equal,
}

-- A text without its carriage returns.
abbrev pub clean : Bytes → Bytes
clean = keep (λ c. not (c == carriage_return))

-- A text without the line feeds at its end.
unfoldable pub strip_end : Bytes → Bytes
strip_end [] = []
strip_end (a ∷ s) = elim (strip_end s) [
  | [] ↦ if a == newline then [] else a ∷ []
  | b ∷ r ↦ a ∷ b ∷ r
]

abbrev pub canonical : Bytes → Bytes
canonical s = strip_end (clean s)

abbrev pub verdict : Bytes → Bytes → ErrorCode
verdict out cout = if canonical out =ₛ canonical cout then ok else wa

check_bytes-verdict : (s : Bytes) → check_bytes s ≡ (if canonical s =ₛ [] then ok else wa)
unfolding check_bytes strip_end
check_bytes-verdict [] = refl
check_bytes-verdict (c ∷ s) = ground (arith, check_bytes-verdict s)

-- Two texts that begin with the same byte agree when their rests do.
strip_end-cons_eq :
    (a : ℕ) (s t : Bytes) → (strip_end (a ∷ s) =ₛ strip_end (a ∷ t)) ≡ (strip_end s =ₛ strip_end t)
unfolding strip_end
strip_end-cons_eq a s t = ground arith

strip_end-cons_ne :
    (a b : ℕ) (s t : Bytes) → (a == b) ≡ false → (strip_end (a ∷ s) =ₛ strip_end (b ∷ t)) ≡ false
unfolding strip_end
strip_end-cons_ne a b s t h = ground arith

-- What `skip_cr` leaves of a text.
data Skipped (s : Bytes) : Type 0 where
  ended : skip_bytes s ≡ (none, record { unread = []; eof = true }) → clean s ≡ [] → Skipped s
  got :
      (a : ℕ) (r : Bytes)
      → skip_bytes s ≡ (some a, open_stream r)
      → clean s ≡ a ∷ clean r
      → (a == carriage_return) ≡ false
      → length r < length s
      → Skipped s

skip_bytes-Skipped : (s : Bytes) → Skipped s
unfolding skip_bytes
skip_bytes-Skipped [] = ended refl refl
skip_bytes-Skipped (c ∷ s) = elim (Bool-cases (c == carriage_return)) [
  | inl cr ↦ elim (skip_bytes-Skipped s) [
    | ended e k ↦ ended (rw cr e) (rw cr k)
    | got a r e k n l ↦ got a r (rw cr e) (rw cr k) n (omega arith)
  ]
  | inr other ↦ got c s (rw other) (rw other) other (omega arith)
]

strip_end-nil : strip_end [] ≡ []
unfolding strip_end
strip_end-nil = refl

eq_nil_comm : (s : Bytes) → ([] =ₛ s) ≡ (s =ₛ [])
eq_nil_comm [] = refl
eq_nil_comm (c ∷ s) = refl

module _ (out cout : Bytes) where
  -- The loop gives the verdict on the two texts, on any fuel above the length of the first.
  loop_cases :
      (fuel : ℕ)
      → ((out' cout' : Bytes)
          → length out' < length out
          → check_loop fuel (open_stream out') (open_stream cout') ≡ some (verdict out' cout'))
      → Skipped out
      → Skipped cout
      → check_loop (suc fuel) (open_stream out) (open_stream cout) ≡ some (verdict out cout)
  unfolding check_loop skip_cr after_loop check_ln
  loop_cases fuel ih (ended e k) (ended e' k') = unfold strip_end in ground arith
  loop_cases fuel ih (ended e k) (got b r e' k' n l) = ground (
    arith,
    strip_end-nil,
    check_bytes-verdict (b ∷ r),
    eq_nil_comm (canonical (b ∷ r)),
    eq_nil_comm (canonical cout),
  )
  loop_cases fuel ih (got a q e k m l) (ended e' k') =
      ground (arith, strip_end-nil, check_bytes-verdict (a ∷ q))
  loop_cases fuel ih (got a q e k m l) (got b r e' k' n l') = ground (
    arith,
    ih q r,
    strip_end-cons_eq a (clean q) (clean r),
    strip_end-cons_ne a b (clean q) (clean r),
  )

check_loop-verdict :
    (fuel : ℕ) (out cout : Bytes)
    → length out < fuel
    → check_loop fuel (open_stream out) (open_stream cout) ≡ some (verdict out cout)
check_loop-verdict zero out cout h = elim h [ ]
check_loop-verdict (suc fuel) out cout h =
    loop_cases out cout fuel (λ out' cout' lt. check_loop-verdict fuel out' cout' (omega arith))
      (skip_bytes-Skipped out) (skip_bytes-Skipped cout)

-- The comparison ends on every two texts, and accepts exactly when they are equal up to carriage
-- returns and up to line feeds at the end; in every other case the verdict is a wrong answer.
pub test_equal-verdict : (out cout : Bytes) → test_equal out cout ≡ some (verdict out cout)
unfolding test_equal check_equal
test_equal-verdict out cout = check_loop-verdict (suc (length out)) out cout (omega arith)

-- The comparison accepts two texts exactly when their canonical forms are equal.
pub accepts_iff :
    (out cout : Bytes) → (test_equal out cout ≡ some ok) ↔ (canonical out ≡ canonical cout)
accepts_iff out cout = rw test_equal-verdict (
  λ h. (=ₛ_iff (canonical out) (canonical cout)).0 (ground arith),
  λ e. ground (arith, (=ₛ_iff (canonical out) (canonical cout)).1 e),
)
