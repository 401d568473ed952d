-- ===== src/System.antt =====
-- What the server calls and does not implement, and how its functions change state. The operating
-- system, the database client and the random numbers are the record `Os`; a function of the server
-- is an action that changes the state `Server`.

pub mod Rules
pub mod Triples
pub mod Facts
use bacs_legacy.Process.{WaitStatus}
use bacs_legacy.Base.{
  ℕ, ◌+◌, ◌≡◌, ◌≢◌, Bool, true, false, Option, none, some, List, [], ◌∷◌, ◌++◌, Bytes, ℤ, pos,
}

-- `World` is everything outside of the process. Numbers are the return values of the C functions.
pub record Os : Type 1 where
  pub World : Type 0
  -- `system`: the status of the command
  pub system : Bytes → World → WaitStatus × World
  -- `stat`: is the file a directory? `none` where it fails
  pub stat : Bytes → World → Option Bool
  -- `fopen(…, "r")` and reading all of it; `none` where it cannot be opened
  pub read_file : Bytes → World → Option Bytes
  -- `fopen(…, "wb")`, writing and `fclose`; `none` where it cannot be opened
  pub write_file : Bytes → Bytes → World → Option World
  pub remove : Bytes → World → ℤ × World
  pub rename : Bytes → Bytes → World → ℤ × World
  pub chmod : Bytes → ℕ → World → ℤ × World
  pub unlink : Bytes → World → ℤ × World
  pub mkdir : Bytes → ℕ → World → ℤ × World
  pub rmdir : Bytes → World → ℤ × World
  pub link : Bytes → Bytes → World → ℤ × World
  -- `clock_gettime(CLOCK_MONOTONIC)`: the seconds, and the nanoseconds behind them
  pub clock : World → (ℕ × ℕ) × World
  -- `sigtimedwait` for the seconds and nanoseconds: did one of the blocked signals come?
  pub wait_signal : ℕ → ℕ → World → Bool × World
  -- `boost::property_tree::read_ini`: the texts at the keys; `none` where it throws
  pub read_ini : Bytes → World → Option (Bytes → Option Bytes)
  -- `std::sort` with a comparison
  pub sort : (Bytes → Bytes → Bool) → List Bytes → List Bytes
  -- `strerror`
  pub strerror : ℤ → Bytes
  -- the name of a status, as `<<` of its stream enumeration prints it
  pub print_status : ℕ → Bytes
  -- `::random()`
  pub random : World → ℕ × World
  -- `rand()`
  pub rand : World → ℕ × World
  -- `boost::filesystem`: creating directories, removing a tree, copying a file; `none` where it throws
  pub create_directories : Bytes → World → Option World
  pub remove_all : Bytes → World → Option World
  pub copy_file : Bytes → Bytes → World → Option World
  pub exists : Bytes → World → Bool
  -- `readdir`: the names in a directory; `none` where it cannot be opened
  pub list_dir : Bytes → World → Option (List Bytes)
  -- `mysql_query` and its rows, with `none` for NULL; `none` where the query fails
  pub query : Bytes → World → Option (List (List (Option Bytes))) × World
  -- `mysql_real_connect`, with the options `reconnect`, `host`, `user`, `pass` and `database` and the
  -- port: was the connection made?
  pub mysql_real_connect : Bytes → Bytes → Bytes → Bytes → Bytes → ℤ → World → Bool × World
  pub mysql_close : World → World
  pub mysql_errno : World → ℤ
  -- `mysql_error`, and `what` of the exception that `extract` has thrown
  pub mysql_error : World → Bytes
  pub what : World → Bytes
  -- `mysql_real_escape_string`
  pub escape : Bytes → Bytes
  -- `repository->extract(package, destination)`; `none` where it throws
  pub extract : Bytes → Bytes → World → Option World

-- `LogEntryData`
abbrev pub LogEntryData : Type 0
LogEntryData = List (Bytes × Bytes)

-- A call of `log.add`, `log.add_error` or `log.add_working_notify`.
pub data Event : Type 0 where
  logged : Bytes → LogEntryData → Event
  logged_error : Bytes → LogEntryData → Event
  working : Event

-- The outcome of an action: a value, or the end of the process, by an exception that nothing
-- catches or by undefined behaviour.
pub data Outcome {ℓ} (A : Type ℓ) : Type ℓ where
  returned : A → Outcome A
  crashed : Outcome A

module _ (os : Os) where
  -- The state of the server: the counter `k` of `gen_unique_filename`, whether `db.connection` is not
  -- null, the calls that it made of the log, in order, and the world.
  pub record Server : Type 0 where
    pub world : os.World
    pub counter : ℕ
    pub connected : Bool
    pub events : List Event

abbrev pub M : Os → Type 0 → Type 0
M os A = Server os → Outcome A × Server os

module _ {os : Os} {A B : Type 0} where
  infixl 5 ◌>>=◌ ◌>>◌
  -- `abbrev`, so that an action computes wherever it stands.
  abbrev pub ◌>>=◌ : M os A → (A → M os B) → M os B
  ◌>>=◌ m f s = let (r, s') = m s in elim r [ returned a ↦ f a s' | crashed ↦ (crashed, s') ]

  abbrev pub ◌>>◌ : M os A → M os B → M os B
  m >> k = m >>= λ _. k

module _ {os : Os} {A : Type 0} where
  abbrev pub pure : A → M os A
  pure a s = (returned a, s)

  abbrev pub read_state : (Server os → A) → M os A
  read_state f s = (returned (f s), s)

  abbrev pub crash : M os A
  crash s = (crashed, s)

  -- A function of the world.
  abbrev pub look : (os.World → A) → M os A
  look f s = (returned (f s.world), s)

  -- A function that changes the world.
  abbrev pub run_os : (os.World → A × os.World) → M os A
  run_os f s = let (a, w) = f s.world in (returned a, record s { world = w })

module _ {os : Os} where
  -- `db.connection`: is it a handle?
  abbrev pub set_connected : Bool → M os (Unit {0})
  set_connected b s = (returned tt, record s { connected = b })

  -- A call that says whether it did anything: `none` where it did not.
  abbrev pub try_os : (os.World → Option os.World) → M os Bool
  try_os f s = elim (f s.world) [
    | none ↦ (returned false, s)
    | some w ↦ (returned true, record s { world = w })
  ]

  -- A call that throws where it fails.
  abbrev pub throwing : (os.World → Option os.World) → M os (Unit {0})
  throwing f s = elim (f s.world) [
    | none ↦ (crashed, s)
    | some w ↦ (returned tt, record s { world = w })
  ]

  abbrev pub emit : Event → M os (Unit {0})
  emit e s = (returned tt, record s { events = s.events ++ e ∷ [] })

  -- `log.add` and `log.add_error`, as calls; src/lib/log.cpp is the module `Log`.
  abbrev pub log_add : Bytes → LogEntryData → M os (Unit {0})
  log_add text entry = emit (logged text entry)

  abbrev pub log_error : Bytes → LogEntryData → M os (Unit {0})
  log_error text entry = emit (logged_error text entry)

  abbrev pub log_working : M os (Unit {0})
  log_working = emit working

abbrev pub when : {os : Os} → Bool → M os (Unit {0}) → M os (Unit {0})
when true m = m
when false m = pure tt
