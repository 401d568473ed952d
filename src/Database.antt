-- ===== src/Database.antt =====
-- The queries of src/lib/db.cpp, and the lock of src/lib/helper.cpp.
pub mod Engine
pub mod Connected
pub mod Owned
pub mod Updates
use bacs_legacy.Base.{
  Bool, true, false, Option, none, some, List, [], ◌∷◌, ◌++◌, Bytes, codes, ◌=ₛ◌,
}
use bacs_legacy.System.{Os, M, ◌>>=◌, ◌>>◌, pure}
use Engine.{query, new_query, next_row, log_mysql_error}

abbrev pub release_query : Bytes
release_query = codes "select release_lock('olimp.submit_lock')"

module _ (os : Os) where
  -- `db_qres`: the first row, and an empty one where there is none
  unfoldable pub db_qres : Bytes → M os (List Bytes)
  unfolding new_query next_row
  db_qres s = do q ← new_query os s; let (row, q') = next_row q; pure row

  head_text : List Bytes → Bytes
  head_text [] = []
  head_text (s ∷ row) = s

  unfoldable pub db_qres0 : Bytes → M os Bytes
  unfolding db_qres head_text
  db_qres0 s = do row ← db_qres s; pure (head_text row)

  unfoldable pub db_query : Bytes → M os Bool
  unfolding query log_mysql_error
  db_query s = do
    rows ← query os s
    elim rows [
      | none ↦ do log_mysql_error os ((codes "Query", s) ∷ []); pure false
      | some rs ↦ pure true
    ]

  unfoldable pub lock_table : M os Bool
  unfolding db_qres0
  lock_table = do
    lock ← db_qres0 (codes "select get_lock('olimp.submit_lock', 10)")
    pure (lock =ₛ codes "1")

  unfoldable pub unlock_table : M os (Unit {0})
  unfolding db_qres
  unlock_table = do db_qres release_query; pure tt
