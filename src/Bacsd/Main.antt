-- ===== src/Bacsd/Main.antt =====
-- `main` of src/bin/bacsd.cpp. What it prints on the console is left out.
pub mod Exit
use bacs_legacy.Base.{
  ℕ, zero, suc, Bool, true, false, not, Option, none, some, List, [], ◌∷◌, Bytes, codes, ℤ, pos,
  ◌==ℤ◌, if◌then◌else◌,
}
use bacs_legacy.Double.{Double}
use bacs_legacy.System.{Os, Server, M, ◌>>=◌, ◌>>◌, pure, crash, look, log_add, log_error}
use bacs_legacy.Config.{Settings, CfgEngine, cfg, init_config}
use bacs_legacy.Log.{LogEngine, new_log}
use bacs_legacy.Database.Engine.{connect, close}
use bacs_legacy.Bacsd.{wait_cycle}
use bacs_legacy.Bacsd.Loop.{Memory, Ending, test_sid, log_fatal, check_thread_proc}

module _ (os : Os) (d : Double) (c : Settings) (memory : Server os → Memory d) where
  -- The submissions of the command line, from the argument `i` on: the exit code, where one of them
  -- ends the process.
  test_args : ℕ → List Bytes → M os (Option ℕ)
  test_args i [] = pure none
  test_args i (sid ∷ args) = do
    fine ← test_sid os d c memory sid
    if not fine then (do log_fatal os d c memory; pure (some i)) else test_args (suc i) args

  -- `while (!db.connect())`, up to a number of rounds: whether the server is connected.
  connect_loop : ℕ → ℕ → M os (Option Bool)
  unfolding connect
  connect_loop zero fuel = pure none
  connect_loop (suc rounds) fuel = do
    made ← connect os c
    if made then pure (some true) else do
      log_error (codes "Fatal error: cannot connect to database!") []
      stop ← wait_cycle os c fuel
      elim stop [
        | none ↦ pure none
        | some true ↦ pure (some false)
        | some false ↦ connect_loop rounds fuel
      ]

  -- The end of `main`.
  finish : M os (Option ℕ)
  unfolding close
  finish = do close os; log_add (codes "Finished.") []; pure (some 0)

  behind_loop : Option Ending → M os (Option ℕ)
  unfolding finish
  behind_loop none = pure none
  behind_loop (some e) = finish

  behind_args : Option ℕ → M os (Option ℕ)
  unfolding finish
  behind_args none = finish
  behind_args (some i) = pure (some i)

  serve : ℕ → ℕ → List Bytes → M os (Option ℕ)
  unfolding test_args behind_loop behind_args
  serve rounds fuel [] = do e ← check_thread_proc os d c memory rounds fuel []; behind_loop e
  serve rounds fuel (sid ∷ args) = do code ← test_args 1 (sid ∷ args); behind_args code

  behind_connect : ℕ → ℕ → List Bytes → Option Bool → M os (Option ℕ)
  unfolding serve
  behind_connect rounds fuel args none = pure none
  behind_connect rounds fuel args (some false) = pure (some 1)
  behind_connect rounds fuel args (some true) = do
    log_add (codes "Connected to database.") []
    serve rounds fuel args

  -- `main`, behind the start of the log.
  session : ℕ → ℕ → List Bytes → M os (Option ℕ)
  unfolding connect_loop behind_connect
  session rounds fuel args = do
    log_add (codes "Starting new session...") []
    connected ← connect_loop rounds fuel
    behind_connect rounds fuel args connected

-- `siginit`, with the result of `sigprocmask`
siginit : ℤ → Bool
siginit ret = ret ==ℤ pos 0

read_config : (Bytes → Option (Bytes → Option Bytes)) → Bytes → Option CfgEngine
read_config read_ini fn = elim (read_ini fn) [
  | none ↦ none
  | some table ↦ some (record { table = table })
]

module _ (os : Os) (d : Double) (memory : Server os → Memory d) where
  -- `main`, behind `log.init`, which gives no result where a handle is closed twice.
  behind_log : Settings → ℕ → ℕ → List Bytes → Option (Bool × LogEngine) → M os (Option ℕ)
  unfolding session
  behind_log c rounds fuel args none = crash
  behind_log c rounds fuel args (some (false, l)) = pure (some 1)
  behind_log c rounds fuel args (some (true, l)) = session os d c memory rounds fuel args

  behind_config : Bool → ℕ → ℕ → List Bytes → Option Settings → M os (Option ℕ)
  unfolding behind_log
  behind_config can_open rounds fuel args none = pure (some 1)
  behind_config can_open rounds fuel args (some c) =
      behind_log c rounds fuel args
        (bacs_legacy.Log.init (cfg c (codes "log.output")) can_open new_log)

  -- `main`: the exit code, or `none` where it still runs after `rounds` rounds of one of its loops.
  -- `ret` is the result of `sigprocmask`, and `can_open` says whether the file of the log opens.
  unfoldable pub main : ℤ → Bool → ℕ → ℕ → ℕ → List Bytes → M os (Option ℕ)
  unfolding behind_config siginit read_config
  main ret can_open attempts rounds fuel args = if not (siginit ret) then pure (some 2) else do
    config ← look (λ w. init_config (read_config (λ fn. os.read_ini fn w)) attempts)
    behind_config can_open rounds fuel args config
