-- ===== src/Run/ResultFile.antt =====
-- The line that src/bin/limit_run.cpp writes and `_run` of src/lib/run.cpp reads with `fscanf`.
use bacs_legacy.Base.{ℕ, ◌≡◌, refl, none, some, [], ◌∷◌, ◌++◌, Bytes, ℤ, negsuc, IsInt, arith}
use bacs_legacy.Util.Number.{i2s, scan_int, is_space}
use bacs_legacy.Util.Number.RoundTrip.{Ends, scan_int-i2s, scan_int-space}
use bacs_legacy.LimitRun.{Results, write_results}

-- What the four variables of `_run` hold before the file is read.
pub record Read : Type 0 where
  pub res : ℤ
  pub ex_code : ℤ
  pub memory_used : ℤ
  pub time_used : ℤ
  pub conversions : ℕ

-- `fscanf(f, "%d %d %d %d", …)`: a conversion that fails ends the call, and the variables from there
-- on keep their values.
unfoldable pub scan_results : ℤ → ℤ → Bytes → Read
scan_results memory time s = elim (scan_int s) [
  | none ↦ record {
    res = negsuc 0;
    ex_code = negsuc 0;
    memory_used = memory;
    time_used = time;
    conversions = 0;
  }
  | some (a, s₁) ↦ elim (scan_int s₁) [
    | none ↦ record {
      res = a;
      ex_code = negsuc 0;
      memory_used = memory;
      time_used = time;
      conversions = 1;
    }
    | some (b, s₂) ↦ elim (scan_int s₂) [
      | none ↦ record {
        res = a;
        ex_code = b;
        memory_used = memory;
        time_used = time;
        conversions = 2;
      }
      | some (c, s₃) ↦ elim (scan_int s₃) [
        | none ↦ record { res = a; ex_code = b; memory_used = c; time_used = time; conversions = 3 }
        | some (d, s₄) ↦ record {
          res = a;
          ex_code = b;
          memory_used = c;
          time_used = d;
          conversions = 4;
        }
      ]
    ]
  ]
]

-- The next number behind a blank.
scan_blank :
    (a : ℤ) (rest : Bytes)
    → IsInt a
    → Ends rest
    → scan_int (b' ' ∷ (i2s a ++ rest)) ≡ some (a, rest)
unfolding is_space
scan_blank a rest h k = rw (scan_int-space b' ' (i2s a ++ rest) refl) (scan_int-i2s a rest h k)

-- The four numbers are read back as they were written, whatever the variables held before.
pub scan_results-write_results :
    (r : Results) (memory time : ℤ)
    → IsInt r.result
    → IsInt r.exit_code
    → IsInt r.memory_used
    → IsInt r.time_used
    → scan_results memory time (write_results r) ≡ record {
      res = r.result;
      ex_code = r.exit_code;
      memory_used = r.memory_used;
      time_used = r.time_used;
      conversions = 4;
    }
unfolding scan_results write_results
scan_results-write_results r memory time h₁ h₂ h₃ h₄ = ground (
  arith,
  scan_int-i2s r.result
      (b' '
        ∷ (i2s r.exit_code
            ++ (b' ' ∷ (i2s r.memory_used ++ (b' ' ∷ (i2s r.time_used ++ b'\n' ∷ []))))))
      h₁ refl,
  scan_blank r.exit_code (b' ' ∷ (i2s r.memory_used ++ (b' ' ∷ (i2s r.time_used ++ b'\n' ∷ [])))) h₂
      refl,
  scan_blank r.memory_used (b' ' ∷ (i2s r.time_used ++ b'\n' ∷ [])) h₃ refl,
  scan_blank r.time_used (b'\n' ∷ []) h₄ refl,
)
