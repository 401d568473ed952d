-- ===== src/LimitRun/Verdict.antt =====
-- What the written result says about the run.
use bacs_legacy.Base.{
  ℕ, ◌+◌, ◌*◌, ◌/◌, ◌<◌, ◌≡◌, ◌≢◌, ◌↔◌, ◌⊎◌, inl, inr, refl, Bool-cases, true, false, Option, none,
  some, ℤ, pos, ltb_ℤ, ◌==ℤ◌, ==ℤ_iff, arith, IsInt, to_int-IsInt,
}
use bacs_legacy.Def.{run_ok, run_out_of_memory}
use bacs_legacy.Process.{WaitStatus, exited, signaled, other}
use bacs_legacy.LimitRun.{
  Results, Usage, over, time_of, memory_of, is_time_signal, status_result, classify,
}

-- A value that is at least its limit, where 0 stands for no limit.
abbrev pub Reached : ℤ → ℤ → Type 0
Reached used limit = (limit ≢ pos 0) × (ltb_ℤ used limit ≡ false)

-- When the user time has reached a limit on time, and the memory one on memory.
abbrev pub TimeOver : ℤ → Option Usage → Type 0
TimeOver time_limit usage = Reached (time_of usage) time_limit

abbrev pub MemoryOver : ℤ → Option Usage → Type 0
MemoryOver memory_limit usage = Reached (memory_of usage) memory_limit

abbrev pub IsWithin : ℤ → ℤ → Option Usage → Type 0
IsWithin time_limit memory_limit usage =
    (¬ TimeOver time_limit usage) × (¬ MemoryOver memory_limit usage)

-- The signals of the timers: SIGXCPU, SIGALRM, SIGVTALRM and SIGPROF.
abbrev pub IsTimeSignal : ℕ → Type 0
IsTimeSignal sig = (sig ≡ 24) ⊎ ((sig ≡ 14) ⊎ ((sig ≡ 26) ⊎ (sig ≡ 27)))

pub over-cases :
    (used limit : ℤ)
    → (Reached used limit × (over used limit ≡ true))
      ⊎ ((¬ Reached used limit) × (over used limit ≡ false))
unfolding over
over-cases used limit = elim (Bool-cases (limit ==ℤ pos 0)) [
  | inl z ↦ inr ((λ r. r.0 ((==ℤ_iff limit (pos 0)).0 z)), ground arith)
  | inr z ↦ elim (Bool-cases (ltb_ℤ used limit)) [
    | inl l ↦ inr ((λ r. absurd (cc)), ground arith)
    | inr l ↦ inl (((λ same. absurd (ground (arith, ==ℤ_iff limit (pos 0)))), l), ground arith)
  ]
]

pub is_time_signal-cases :
    (sig : ℕ)
    → (IsTimeSignal sig × (is_time_signal sig ≡ true))
      ⊎ ((¬ IsTimeSignal sig) × (is_time_signal sig ≡ false))
unfolding is_time_signal
is_time_signal-cases sig = elim (Bool-cases (is_time_signal sig)) [
  | inl e ↦ inl (ground arith, e)
  | inr e ↦ inr ((λ h. ground arith), e)
]

status_ok_iff :
    (status : WaitStatus) (time_used time_limit : ℤ)
    → (status_result status time_used time_limit ≡ run_ok) ↔ ((code : ℕ) × (status ≡ exited code))
unfolding status_result
status_ok_iff (exited code) time_used time_limit = ((λ e. (code, refl)), λ h. refl)
status_ok_iff (signaled sig) time_used time_limit =
    ((λ e. absurd (ground arith)), λ h. absurd (ground arith))
status_ok_iff other time_used time_limit =
    ((λ e. absurd (ground arith)), λ h. absurd (ground arith))

-- The result of a run is 0 exactly when no limit was reached and it ended by itself.
pub classify_ok_iff :
    (time_limit memory_limit : ℤ) (usage : Option Usage) (status : WaitStatus)
    → ((classify time_limit memory_limit usage status).result ≡ run_ok)
      ↔ (IsWithin time_limit memory_limit usage × ((code : ℕ) × (status ≡ exited code)))
unfolding classify
classify_ok_iff tl ml usage status = elim (over-cases (time_of usage) tl) [
  | inl (r, t) ↦ rw t ((λ h. absurd (cc)), λ h. absurd (h.0.0 r))
  | inr (n, t) ↦ elim (over-cases (memory_of usage) ml) [
    | inl (r, m) ↦ rw (t, m) ((λ h. absurd (cc)), λ h. absurd (h.0.1 r))
    | inr (k, m) ↦
        let e = status_ok_iff status (time_of usage) tl in
        rw (t, m) ((λ h. ((n, k), e.0 h)), λ h. e.1 h.1)
  ]
]

status_memory :
    (status : WaitStatus) (time_used time_limit : ℤ)
    → status_result status time_used time_limit ≢ run_out_of_memory
unfolding status_result
status_memory (exited code) time_used time_limit = λ e. absurd (ground arith)
status_memory (signaled sig) time_used time_limit = λ e. absurd (ground arith)
status_memory other time_used time_limit = λ e. absurd (ground arith)

-- The verdict on the memory needs a limit that was reached.
pub classify_memory :
    (time_limit memory_limit : ℤ) (usage : Option Usage) (status : WaitStatus)
    → (classify time_limit memory_limit usage status).result ≡ run_out_of_memory
    → MemoryOver memory_limit usage
unfolding classify
classify_memory tl ml usage status = elim (over-cases (time_of usage) tl) [
  | inl (r, t) ↦ rw t (λ h. absurd (cc))
  | inr (n, t) ↦ elim (over-cases (memory_of usage) ml) [
    | inl (r, m) ↦ λ h. r
    | inr (k, m) ↦ rw (t, m) (λ h. absurd (status_memory status (time_of usage) tl h))
  ]
]

pub time_of-IsInt : (usage : Option Usage) → IsInt (time_of usage)
unfolding time_of
time_of-IsInt none = omega arith
time_of-IsInt (some u) = to_int-IsInt (pos (u.utime_sec * 1000 + u.utime_usec / 1000))

memory_of-IsInt : (usage : Option Usage) → IsInt (memory_of usage)
unfolding memory_of
memory_of-IsInt none = omega arith
memory_of-IsInt (some u) = to_int-IsInt (pos (u.maxrss * 1024))

-- The numbers of a result are values of `int`.
pub record FitsInt (r : Results) : Type 0 where
  pub result_fits : IsInt r.result
  pub exit_code_fits : IsInt r.exit_code
  pub memory_fits : IsInt r.memory_used
  pub time_fits : IsInt r.time_used

abbrev pub IsExitCode : WaitStatus → Type 0
IsExitCode (exited code) = code < 256
IsExitCode _ = Unit

-- The four numbers that the parent writes at the end fit into an `int`, whatever the usage was, when
-- the exit code is below 256.
pub classify-FitsInt :
    (time_limit memory_limit : ℤ) (usage : Option Usage) (status : WaitStatus)
    → IsExitCode status
    → FitsInt (classify time_limit memory_limit usage status)
unfolding classify
classify-FitsInt time_limit memory_limit usage (exited code) h = record {
  result_fits = ground arith;
  exit_code_fits = omega arith;
  memory_fits = memory_of-IsInt usage;
  time_fits = time_of-IsInt usage;
}
classify-FitsInt time_limit memory_limit usage (signaled sig) h = record {
  result_fits = ground arith;
  exit_code_fits = omega arith;
  memory_fits = memory_of-IsInt usage;
  time_fits = time_of-IsInt usage;
}
classify-FitsInt time_limit memory_limit usage other h = record {
  result_fits = ground arith;
  exit_code_fits = omega arith;
  memory_fits = memory_of-IsInt usage;
  time_fits = time_of-IsInt usage;
}
