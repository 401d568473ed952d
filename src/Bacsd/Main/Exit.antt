-- ===== src/Bacsd/Main/Exit.antt =====
-- How the server ends.
use bacs_legacy.Base.{
  ℕ, zero, suc, ◌≤◌, ◌≡◌, ◌≢◌, ◌⊎◌, inl, inr, ==ℤ_iff, refl, ap, subst, sym, ◌∙◌, Bool, true, false,
  not, Option, none, some, List, [], ◌∷◌, Bytes, codes, ℤ, pos, ◌==ℤ◌, if◌then◌else◌, if_cases,
  arith,
}
use bacs_legacy.Double.{Double}
use bacs_legacy.System.{Os, Server, M, Outcome, returned, ◌>>=◌, pure, log_error, log_add}
use bacs_legacy.System.Rules.{bind_cases}
use bacs_legacy.Config.{Settings, cfg, init_config}
use bacs_legacy.Log.{LogEngine, new_log}
use bacs_legacy.Database.Engine.{connect, close}
use bacs_legacy.Database.Connected.{connect-connected}
use bacs_legacy.Bacsd.Kept.{wait_cycle-KeepsConnected}
use bacs_legacy.Submit.Always.{test_submit-true}
use bacs_legacy.Bacsd.{wait_cycle}
use bacs_legacy.Bacsd.Loop.{Memory, Ending, test_sid, check_thread_proc, log_fatal}
use bacs_legacy.Bacsd.Main.{
  test_args, connect_loop, finish, behind_loop, behind_args, serve, behind_connect, session,
  siginit, read_config, behind_log, behind_config, main,
}

module _ (os : Os) (d : Double) (c : Settings) (memory : Server os → Memory d) where
  -- The process ends without a connection, and not because of a submission.
  abbrev Closed : Outcome (Option ℕ) × Server os → Type 0
  Closed r = (code : ℕ) → r.0 ≡ returned (some code) → (r.1.connected ≡ false) × (code ≤ 1)

  abbrev ReturnsNone : Outcome (Option ℕ) × Server os → Type 0
  ReturnsNone r = (code : Option ℕ) → r.0 ≡ returned code → code ≡ none

  test_args-ReturnsNone :
      (i : ℕ) (args : List Bytes) (s : Server os) → ReturnsNone (test_args os d c memory i args s)
  unfolding test_args
  test_args-ReturnsNone i [] s = λ code h. cc
  test_args-ReturnsNone i (sid ∷ args) s =
      let m = memory s in
      let fail : M os (Option ℕ) = log_fatal os d c memory >>= λ _. pure (some i) in
      bind_cases ReturnsNone (test_sid os d c memory sid)
        (λ fine. if not fine then fail else test_args os d c memory (suc i) args) s
        (λ fine s₁ e.
          let t =
            test_submit-true os d c m.problem m.acm m.need_info sid m.unset m.dummies s fine
              (ap (λ r. r.0) e) in
          if_cases (λ (k : M os (Option ℕ)). ReturnsNone (k s₁)) (not fine) fail _
            (λ f. absurd (ground arith)) (λ _. test_args-ReturnsNone (suc i) args s₁))
        (λ s₁ e code h. cc)

  finish-Closed : (s : Server os) → Closed (finish os d c memory s)
  unfolding finish close
  finish-Closed s = λ code h. ground arith

  -- Where the server gives up, there is no connection.
  abbrev GivesUp : Outcome (Option Bool) × Server os → Type 0
  GivesUp r = r.0 ≡ returned (some false) → r.1.connected ≡ false

  abbrev behind_stop : ℕ → ℕ → Option Bool → M os (Option Bool)
  behind_stop rounds fuel stop = elim stop [
    | none ↦ pure none
    | some true ↦ pure (some false)
    | some false ↦ connect_loop os d c memory rounds fuel
  ]

  behind_stop-GivesUp :
      (rounds fuel : ℕ) (stop : Option Bool) (s : Server os)
      → s.connected ≡ false
      → ((s' : Server os) → GivesUp (connect_loop os d c memory rounds fuel s'))
      → GivesUp (behind_stop rounds fuel stop s)
  behind_stop-GivesUp rounds fuel none s e next = λ h. e
  behind_stop-GivesUp rounds fuel (some true) s e next = λ h. e
  behind_stop-GivesUp rounds fuel (some false) s e next = next s

  connect_loop-GivesUp :
      (rounds fuel : ℕ) (s : Server os) → GivesUp (connect_loop os d c memory rounds fuel s)
  unfolding connect_loop
  connect_loop-GivesUp zero fuel s = λ h. absurd (ground arith)
  connect_loop-GivesUp (suc rounds) fuel s =
      let retry : M os (Option Bool) =
        log_error (codes "Fatal error: cannot connect to database!") [] >>= λ _.
        wait_cycle os c fuel >>= behind_stop rounds fuel in
      let decide : Bool → M os (Option Bool) = λ made. if made then pure (some true) else retry in
      bind_cases GivesUp (connect os c) decide s
        (λ made s₁ e.
          let is_made : returned made ≡ returned s₁.connected =
            subst (λ r. r.0 ≡ returned r.1.connected) e (connect-connected os c s) in
          let same : s₁.connected ≡ made = cc in
          if_cases (λ (k : M os (Option Bool)). GivesUp (k s₁)) made (pure (some true)) retry
            (λ _ h. absurd (ground arith))
            (λ f.
              let s₂ : Server os =
                (log_error (codes "Fatal error: cannot connect to database!") [] s₁).1 in
              bind_cases GivesUp (wait_cycle os c fuel) (behind_stop rounds fuel) s₂
                (λ stop s₃ e₃.
                  behind_stop-GivesUp rounds fuel stop s₃
                    (sym (ap (λ r. r.1.connected) e₃)
                      ∙ (wait_cycle-KeepsConnected os c fuel s₂ ∙ (same ∙ f)))
                    (λ s'. connect_loop-GivesUp rounds fuel s'))
                (λ s₃ e h. absurd (ground arith))))
        (λ s₁ e h. absurd (ground arith))

  behind_loop-Closed : (e : Option Ending) (s : Server os) → Closed (behind_loop os d c memory e s)
  unfolding behind_loop
  behind_loop-Closed none s = λ code h. absurd (ground arith)
  behind_loop-Closed (some e) s = finish-Closed s

  behind_args-Closed :
      (code : Option ℕ) (s : Server os) → code ≡ none → Closed (behind_args os d c memory code s)
  unfolding behind_args
  behind_args-Closed none s e = finish-Closed s
  behind_args-Closed (some i) s e = absurd (ground arith)

  serve-Closed :
      (rounds fuel : ℕ) (args : List Bytes) (s : Server os)
      → Closed (serve os d c memory rounds fuel args s)
  unfolding serve
  serve-Closed rounds fuel [] s =
      bind_cases Closed (check_thread_proc os d c memory rounds fuel []) (behind_loop os d c memory)
        s (λ e s₁ _. behind_loop-Closed e s₁) (λ s₁ _ code h. absurd (ground arith))
  serve-Closed rounds fuel (sid ∷ args) s =
      bind_cases Closed (test_args os d c memory 1 (sid ∷ args)) (behind_args os d c memory) s
        (λ code s₁ e.
          behind_args-Closed code s₁
            (test_args-ReturnsNone 1 (sid ∷ args) s code (ap (λ r. r.0) e)))
        (λ s₁ _ code h. absurd (ground arith))

  behind_connect-Closed :
      (rounds fuel : ℕ) (args : List Bytes) (connected : Option Bool) (s : Server os)
      → (connected ≡ some false → s.connected ≡ false)
      → Closed (behind_connect os d c memory rounds fuel args connected s)
  unfolding behind_connect
  behind_connect-Closed rounds fuel args none s h = λ code k. absurd (ground arith)
  behind_connect-Closed rounds fuel args (some false) s h = λ code k. (h refl, ground arith)
  behind_connect-Closed rounds fuel args (some true) s h =
      serve-Closed rounds fuel args (log_add (codes "Connected to database.") [] s).1

  session-Closed :
      (rounds fuel : ℕ) (args : List Bytes) (s : Server os)
      → Closed (session os d c memory rounds fuel args s)
  unfolding session
  session-Closed rounds fuel args s =
      let s₁ : Server os = (log_add (codes "Starting new session...") [] s).1 in
      bind_cases Closed (connect_loop os d c memory rounds fuel)
        (behind_connect os d c memory rounds fuel args) s₁
        (λ connected s₂ e. behind_connect-Closed rounds fuel args connected s₂ (λ k.
          subst (λ r. r.0 ≡ returned (some false) → r.1.connected ≡ false) e
            (connect_loop-GivesUp rounds fuel s₁) (ap (λ x. returned x) k)))
        (λ s₂ _ code h. absurd (ground arith))

module _ (os : Os) (d : Double) (memory : Server os → Memory d) where
  -- The process ends without a connection, and its exit code is at most 2.
  abbrev Ends : ℤ → Outcome (Option ℕ) × Server os → Type 0
  Ends ret r =
      (code : ℕ)
      → r.0 ≡ returned (some code)
      → (r.1.connected ≡ false) × ((code ≤ 1) ⊎ ((code ≡ 2) × (ret ≢ pos 0)))

  behind_log-Closed :
      (c : Settings) (rounds fuel : ℕ) (args : List Bytes) (started : Option (Bool × LogEngine))
      (s : Server os)
      → s.connected ≡ false
      → Closed os d c memory (behind_log os d memory c rounds fuel args started s)
  unfolding behind_log
  behind_log-Closed c rounds fuel args none s e = λ code h. absurd (ground arith)
  behind_log-Closed c rounds fuel args (some (false, l)) s e = λ code h. (e, ground arith)
  behind_log-Closed c rounds fuel args (some (true, l)) s e =
      session-Closed os d c memory rounds fuel args s

  behind_config-Ends :
      (ret : ℤ) (can_open : Bool) (rounds fuel : ℕ) (args : List Bytes) (config : Option Settings)
      (s : Server os)
      → s.connected ≡ false
      → Ends ret (behind_config os d memory can_open rounds fuel args config s)
  unfolding behind_config
  behind_config-Ends ret can_open rounds fuel args none s e = λ code h. (e, inl (ground arith))
  behind_config-Ends ret can_open rounds fuel args (some c) s e = λ code h.
      let started = bacs_legacy.Log.init (cfg c (codes "log.output")) can_open new_log in
      let (closed, low) = behind_log-Closed c rounds fuel args started s e code h in
      (closed, inl low)

  -- Wherever the process of the server ends by its `main`, the connection to the database is closed.
  -- The exit code is 0 or 1, or it is 2 and the signals could not be blocked: it is never the number
  -- of an argument. The handle is null at the start.
  pub main-Ends :
      (ret : ℤ) (can_open : Bool) (attempts rounds fuel : ℕ) (args : List Bytes) (s : Server os)
      (code : ℕ)
      → s.connected ≡ false
      → (main os d memory ret can_open attempts rounds fuel args s).0 ≡ returned (some code)
      → ((main os d memory ret can_open attempts rounds fuel args s).1.connected ≡ false)
        × ((code ≤ 1) ⊎ ((code ≡ 2) × (ret ≢ pos 0)))
  unfolding main siginit
  main-Ends ret can_open attempts rounds fuel args s code e =
      if_cases
        (λ (m : M os (Option ℕ)).
          (m s).0 ≡ returned (some code)
          → ((m s).1.connected ≡ false) × ((code ≤ 1) ⊎ ((code ≡ 2) × (ret ≢ pos 0))))
        (not (ret ==ℤ pos 0)) _ _
        (λ f h. (e, inr (ground arith, λ k. let t = (==ℤ_iff ret (pos 0)).1 k in ground arith)))
        (λ _ h.
          behind_config-Ends ret can_open rounds fuel args
            (init_config (read_config (λ fn. os.read_ini fn s.world)) attempts) s e code h)
