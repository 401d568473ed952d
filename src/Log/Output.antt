-- ===== src/Log/Output.antt =====
-- Where a log entry goes, for each mode.
use bacs_legacy.Base.{
  ap, ◌≡◌, inl, inr, Bool, true, false, Option-cases, none, some, ◌++◌, Bytes, if◌then◌else◌, arith,
}
use bacs_legacy.System.{LogEntryData}
use bacs_legacy.Util.Format.{c_str}
use bacs_legacy.Log.{LogEngine, modes, open_log, close, is_open, init, add, entry_text}

-- An engine that was set up in one of the four modes: the file is open exactly if it is wanted.
pub record IsReady (l : LogEngine) : Type 0 where
  pub ready : l.is_init ≡ true
  pub file_open : is_open l.f ≡ l.is_fout

open_log-IsReady :
    (can_open : Bool) (l : LogEngine)
    → is_open l.f ≡ false
    → (open_log can_open l).0 ≡ true
    → IsReady (open_log can_open l).1
unfolding open_log
open_log-IsReady can_open l k e = record { ready = ground arith; file_open = ground arith }

-- From any engine that is not set up, a successful `init` gives one that is ready, if the file was
-- not open before.
pub init-IsReady :
    (output : Bytes) (can_open : Bool) (l l' : LogEngine)
    → l.is_init ≡ false
    → is_open l.f ≡ false
    → init output can_open l ≡ some (true, l')
    → IsReady l'
unfolding init close
init-IsReady output can_open l l' h k e = elim (Option-cases (modes output)) [
  | inl m ↦ absurd (ground arith)
  | inr ((cout, fout), m) ↦
      let l₁ : LogEngine = record l { is_cout = cout; is_fout = fout } in
      let done : open_log can_open l₁ ≡ (true, l') = ground arith in
      rw (← ap (λ (p : Bool × LogEngine). p.1) done)
        (open_log-IsReady can_open l₁ k (ap (λ (p : Bool × LogEngine). p.0) done))
]

-- An entry of a ready engine. With the console and the file it is written to both; with the file
-- alone it is written nowhere; with the console alone the behaviour is undefined, since the entry
-- is written to a file that was never opened; with neither nothing happens.
pub add_ready_cases :
    (output asctime text : Bytes) (can_open : Bool) (entry : LogEntryData) (l : LogEngine)
    → IsReady l
    → add output can_open asctime text entry l ≡ (
        if l.is_cout
        then (if l.is_fout
            then some (record l {
              console = l.console ++ c_str (entry_text asctime text entry);
              file = l.file ++ c_str (entry_text asctime text entry);
            })
            else none)
        else some l)
unfolding add
add_ready_cases output asctime text can_open entry l r = ground (arith, r.ready, r.file_open)
