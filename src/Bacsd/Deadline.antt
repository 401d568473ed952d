-- ===== src/Bacsd/Deadline.antt =====
-- Until when the server waits for new submissions.
use bacs_legacy.Base.{ℕ, ◌+◌, ◌*◌, ◌/◌, ◌%◌, ◌<◌, ◌≡◌, pos, ltb, if◌then◌else◌, arith}
use bacs_legacy.Bacsd.{Timespec, timespec_of, deadline, passed}

-- A time in nanoseconds.
abbrev pub nanoseconds : ℕ → ℕ → ℕ
nanoseconds sec nsec = sec * 1000000000 + nsec

-- The end of the wait as two natural numbers.
deadline-pos :
    (n sec nsec : ℕ)
    → deadline (pos n) (timespec_of (sec, nsec))
      ≡ timespec_of (sec + n / 1000, (nsec + n % 1000 * 1000000) % 1000000000)
unfolding deadline
deadline-pos n sec nsec = ground arith

pub passed_iff :
    (sec nsec end_sec end_nsec : ℕ)
    → nsec < 1000000000
    → end_nsec < 1000000000
    → passed (timespec_of (sec, nsec)) (timespec_of (end_sec, end_nsec))
      ≡ ltb (nanoseconds end_sec end_nsec) (nanoseconds sec nsec)
unfolding passed
passed_iff sec nsec end_sec end_nsec h k = ground arith

-- What the end of a wait for `n` milliseconds from a reading on is.
pub record IsEnd (n sec nsec : ℕ) (end : Timespec) : Type 0 where
  pub end_sec : ℕ
  pub end_nsec : ℕ
  pub is_end : end ≡ timespec_of (end_sec, end_nsec)
  pub is_normal : end_nsec < 1000000000
  pub is_exact :
      nanoseconds end_sec end_nsec
        + (if ltb (nsec + n % 1000 * 1000000) 1000000000 then 0 else 1000000000)
      ≡ nanoseconds sec nsec + n * 1000000

-- The wait for `n` milliseconds ends exactly `n` milliseconds behind the reading where the
-- nanoseconds of both together are less than a second, and a second too early where they are not: the
-- carry is lost.
pub deadline-IsEnd :
    (n sec nsec : ℕ)
    → nsec < 1000000000
    → IsEnd n sec nsec (deadline (pos n) (timespec_of (sec, nsec)))
deadline-IsEnd n sec nsec h = record {
  end_sec = sec + n / 1000;
  end_nsec = (nsec + n % 1000 * 1000000) % 1000000000;
  is_end = deadline-pos n sec nsec;
  is_normal = omega arith;
  is_exact = ground arith;
}
