-- ===== src/Process.antt =====
-- How a child process ended, as the macros on the status of `waitpid` and `system` tell it.
use bacs_legacy.Base.{ℕ, Bool, false, ◌==◌}

pub data WaitStatus : Type 0 where
  exited : ℕ → WaitStatus
  signaled : ℕ → WaitStatus
  other : WaitStatus

-- `WIFEXITED(ret) && WEXITSTATUS(ret) == 0`
abbrev pub succeeded : WaitStatus → Bool
succeeded (exited code) = code == 0
succeeded _ = false
