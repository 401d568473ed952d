-- ===== src/LimitRun/Start/Java.antt =====
-- Properties of a start: the processor limit lets the time limit pass first, and a Java program is
-- never found to use too much memory.
use bacs_legacy.Base.{
  ℕ, suc, ◌+◌, ◌*◌, ◌/◌, ◌^◌, ◌≤◌, ◌<◌, ◌≡◌, ◌≢◌, true, Option, none, some, List, ◌∷◌, Bytes, pos,
  ◌=ₛ◌, arith,
}
use bacs_legacy.Def.{run_out_of_memory}
use bacs_legacy.Util.{name_from_filename}
use bacs_legacy.Process.{WaitStatus}
use bacs_legacy.LimitRun.{Usage, classify}
use bacs_legacy.LimitRun.Verdict.{classify_memory}
use bacs_legacy.LimitRun.Start.{Launch, launch, start, java_run, child_limits}

-- With a positive time limit the soft limit of the processor time, in milliseconds, lies above it
-- and at most a second above; the hard limit is a second more, so that the signal for the soft one
-- arrives.
pub child_limits_cpu :
    (l : Launch) (n : ℕ)
    → l.time_limit ≡ pos (suc n)
    → n < 2 ^ 31
    → (soft : ℕ) × ((child_limits l).cpu ≡ some (soft, soft + 1))
      × (suc n < soft * 1000)
      × (soft * 1000 ≤ suc n + 1000)
unfolding child_limits
child_limits_cpu l n h b = (suc n / 1000 + 1, ground arith, omega arith, omega arith)

java_limit :
    (args : List Bytes) (l : Launch)
    → start args ≡ launch l
    → (name_from_filename l.executable =ₛ java_run) ≡ true
    → l.memory_limit ≡ pos 0
unfolding start
java_limit (a ∷ b ∷ c ∷ d ∷ e ∷ f ∷ g ∷ h ∷ r) l s j = ground arith
java_limit _ l s j = ground arith

-- For `java_run` the launcher sets no limit on the address space, and it never writes the verdict
-- "out of memory", whatever was used.
pub java_memory :
    (args : List Bytes) (l : Launch) (usage : Option Usage) (status : WaitStatus)
    → start args ≡ launch l
    → (name_from_filename l.executable =ₛ java_run) ≡ true
    → ((child_limits l).address_space ≡ none)
      × ((classify l.time_limit l.memory_limit usage status).result ≢ run_out_of_memory)
unfolding child_limits
java_memory args l usage status s j = (
  ground (arith, java_limit args l s j),
  λ e. (classify_memory l.time_limit l.memory_limit usage status e).0 (java_limit args l s j),
)
