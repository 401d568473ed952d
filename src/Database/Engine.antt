-- ===== src/Database/Engine.antt =====
-- `CDBEngine` and `CDBQuery` of src/lib/db.cpp. Of the handle `connection` the state holds whether it
-- is not null; the client library is in `Os`.
use bacs_legacy.Base.{
  Bool, true, false, Option, none, some, List, [], ◌∷◌, ◌++◌, Bytes, codes, ℤ, pos, map,
  if◌then◌else◌,
}
use bacs_legacy.System.{
  Os, M, ◌>>=◌, ◌>>◌, pure, look, run_os, read_state, set_connected, when, log_error, LogEntryData,
}
use bacs_legacy.Config.{Settings, cfg, cfgi}

abbrev pub Row : Type 0
Row = List (Option Bytes)

-- A field of a row as a string.
abbrev field_text : Option Bytes → Bytes
field_text none = codes "NULL"
field_text (some s) = s

-- `CDBQuery`: the error number, and the rows that are still to be fetched.
pub record Query : Type 0 where
  pub error : ℤ
  pub rows : List Row

-- `next_row`: what it stores in `row`, which is empty where there is no row more.
unfoldable pub next_row : Query → List Bytes × Query
next_row q = elim q.rows [
  | [] ↦ ([], q)
  | row ∷ rows ↦ (map field_text row, record q { rows = rows })
]

module _ (os : Os) where
  -- `if (connection) mysql_close(connection); connection = NULL;`
  unfoldable pub close : M os (Unit {0})
  close = do
    connected ← read_state (λ s. s.connected)
    when connected (run_os (λ w. (tt, os.mysql_close w)))
    set_connected false

  unfoldable pub error : M os Bytes
  error = do
    connected ← read_state (λ s. s.connected)
    if connected then look os.mysql_error else pure (codes "Not connected to the database.")

  unfoldable pub get_errno : M os ℤ
  get_errno = do
    connected ← read_state (λ s. s.connected)
    if connected then look os.mysql_errno else pure (pos 0)

  -- `query` and `query_result`: the rows, and `none` where the C++ function returns an error.
  unfoldable pub query : Bytes → M os (Option (List Row))
  query q = do
    connected ← read_state (λ s. s.connected)
    if connected then run_os (os.query q) else pure none

  -- `log_error`
  unfoldable pub log_mysql_error : LogEntryData → M os (Unit {0})
  unfolding error
  log_mysql_error entry = do message ← error; log_error (codes "MySQL error: " ++ message) entry

  unfoldable pub escape : Bytes → M os Bytes
  escape s = do
    connected ← read_state (λ s. s.connected)
    pure (if connected then os.escape s else [])

  -- The constructor of `CDBQuery`
  unfoldable pub new_query : Bytes → M os Query
  unfolding query get_errno log_mysql_error
  new_query s = do
    rows ← query s
    elim rows [
      | none ↦ do
        e ← get_errno
        log_mysql_error ((codes "Query", s) ∷ [])
        pure (record { error = e; rows = [] })
      | some rs ↦ pure (record { error = pos 0; rows = rs })
    ]

module _ (os : Os) (c : Settings) where
  -- `connect`; the handle of `mysql_init` is there from before the call of `mysql_real_connect`.
  unfoldable pub connect : M os Bool
  unfolding close log_mysql_error
  connect = do
    close os
    set_connected true
    made ← run_os (
        os.mysql_real_connect (cfg c (codes "db.reconnect")) (cfg c (codes "db.host"))
          (cfg c (codes "db.user")) (cfg c (codes "db.pass")) (cfg c (codes "db.database"))
          (cfgi c (codes "db.port")))
    if made then pure true else do log_mysql_error os []; close os; pure false
