-- ===== src/Database/Owned.antt =====
-- What the queries of src/lib/db.cpp keep, and what an update changes.
use bacs_legacy.Base.{
  ◌≡◌, if_cases, Option, List, Bool, true, false, none, [], ◌∷◌, ◌++◌, Bytes, codes, ℤ, pos,
}
use bacs_legacy.System.{Os, M, ◌>>=◌, pure, run_os, log_error, LogEntryData}
use bacs_legacy.System.Triples.{
  After, Keeps, Triple, bind-Triple, View, view, bind-Keeps, if-Keeps, Option-Keeps, run_os-Keeps,
}
use bacs_legacy.System.Facts.{Fact, Stable, Quiet, is_update}
use bacs_legacy.Database.Engine.{
  Row, Query, query, new_query, next_row, error, get_errno, log_mysql_error, escape,
}
use bacs_legacy.Database.{db_qres, db_qres0, head_text, db_query}

-- What reads the state and writes the log keeps every property.
module _ (os : Os) (P : View os → Type 0) where
  error-Keeps : Keeps os P (error os)
  unfolding error
  error-Keeps s = if-Keeps os {A = Bytes} P s.connected _ _ (λ s p. p) (λ s p. p) s

  get_errno-Keeps : Keeps os P (get_errno os)
  unfolding get_errno
  get_errno-Keeps s = if-Keeps os {A = ℤ} P s.connected _ _ (λ s p. p) (λ s p. p) s

  log_mysql_error-Keeps : (entry : LogEntryData) → Keeps os P (log_mysql_error os entry)
  unfolding log_mysql_error
  log_mysql_error-Keeps entry =
      bind-Keeps os P (error os) (λ message. log_error (codes "MySQL error: " ++ message) entry)
        error-Keeps (λ message s p. p)

  pub escape-Keeps : (s : Bytes) → Keeps os P (escape os s)
  unfolding escape
  escape-Keeps s st p = p

module _ (os : Os) (x : Fact os) (stable : Stable os x) where
  query-Quiet : (q : Bytes) → is_update q ≡ false → Quiet os x (query os q)
  unfolding query
  query-Quiet q u s =
      if-Keeps os x.holds s.connected (run_os (os.query q)) (pure none)
        (run_os-Keeps os x.holds (os.query q) (stable.query_kept q u)) (λ s p. p) s

  new_query-Quiet : (q : Bytes) → is_update q ≡ false → Quiet os x (new_query os q)
  unfolding new_query
  new_query-Quiet q u =
      let log : ℤ → M os Query = λ e. log_mysql_error os ((codes "Query", q) ∷ []) >>= λ _.
      pure (record { error = e; rows = [] }) in
      bind-Keeps os x.holds (query os q) _ (query-Quiet q u) (λ rows.
        Option-Keeps os x.holds rows (get_errno os >>= log)
          (λ rs. pure (record { error = pos 0; rows = rs }))
          (bind-Keeps os x.holds (get_errno os) log (get_errno-Keeps os x.holds) (λ e.
            bind-Keeps os x.holds (log_mysql_error os ((codes "Query", q) ∷ []))
              (λ _. pure (record { error = e; rows = [] }))
              (log_mysql_error-Keeps os x.holds ((codes "Query", q) ∷ [])) (λ _ s p. p)))
          (λ rs s p. p))

  pub db_qres-Quiet : (q : Bytes) → is_update q ≡ false → Quiet os x (db_qres os q)
  unfolding db_qres
  db_qres-Quiet q u =
      bind-Keeps os x.holds (new_query os q) (λ r. pure (next_row r).0) (new_query-Quiet q u)
        (λ r s p. p)

  pub db_qres0-Quiet : (q : Bytes) → is_update q ≡ false → Quiet os x (db_qres0 os q)
  unfolding db_qres0
  db_qres0-Quiet q u =
      bind-Keeps os x.holds (db_qres os q) (λ row. pure (head_text os row)) (db_qres-Quiet q u)
        (λ r s p. p)

-- A query that changes the database turns what held before it, `P`, into `Q`.
module _ (os : Os) (P Q : View os → Type 0) (q : Bytes)
    (sent : (v : View os) → v.0 ≡ true → P v → Q (v.0, (os.query q v.1).1))
    (lost : (v : View os) → v.0 ≡ false → P v → Q v) where
  query-Triple : Triple os P (query os q) (λ _. Q)
  unfolding query
  query-Triple s p =
      if_cases (λ (m : M os (Option (List Row))). After os (λ _. Q) (m s)) s.connected
        (run_os (os.query q)) (pure none) (λ e. sent (view os s) e p) (λ e. lost (view os s) e p)

  pub db_query-Triple : Triple os P (db_query os q) (λ _. Q)
  unfolding db_query
  db_query-Triple =
      let entry : LogEntryData = (codes "Query", q) ∷ [] in
      let log : M os Bool = log_mysql_error os entry >>= λ _. pure false in
      bind-Triple os P (λ _. Q) (λ _. Q) (query os q) _ query-Triple
        (λ rows.
          Option-Keeps os Q rows log (λ rs. pure true)
            (bind-Keeps os Q (log_mysql_error os entry) (λ _. pure false)
              (log_mysql_error-Keeps os Q entry) (λ _ s p. p))
            (λ rs s p. p))
