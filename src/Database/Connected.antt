-- ===== src/Database/Connected.antt =====
-- What the queries do to the connection, and what they do without one.
use bacs_legacy.Base.{
  ◌≡◌, refl, sym, ◌∙◌, ap, Bool-cases, inl, inr, true, false, [], ◌∷◌, ◌++◌, Bytes, codes, ◌=ₛ◌,
  arith,
}
use bacs_legacy.System.{Os, Server, M, returned, ◌>>=◌, pure, logged_error}
use bacs_legacy.Config.{Settings}
use bacs_legacy.System.Rules.{bind_cases}
use bacs_legacy.Database.Engine.{
  query, new_query, next_row, log_mysql_error, get_errno, error, connect, close,
}
use bacs_legacy.Database.{db_qres, db_qres0, db_query, lock_table, head_text}

module _ {os : Os} where
  -- The action leaves the connection as it was.
  abbrev pub KeepsConnected : {A : Type 0} → M os A → Type 0
  KeepsConnected {A} m = (s : Server os) → (m s).1.connected ≡ s.connected

  pub bind-KeepsConnected :
      {A B : Type 0} (m : M os A) (f : A → M os B)
      → KeepsConnected m
      → ((a : A) → KeepsConnected (f a))
      → KeepsConnected (m >>= f)
  bind-KeepsConnected m f h k s =
      bind_cases (λ r. r.1.connected ≡ s.connected) m f s
        (λ a s' e. k a s' ∙ (sym (ap (λ r. r.1.connected) e) ∙ h s))
        (λ s' e. sym (ap (λ r. r.1.connected) e) ∙ h s)

module _ (os : Os) where
  new_query-KeepsConnected : (q : Bytes) → KeepsConnected (new_query os q)
  unfolding new_query query get_errno log_mysql_error error
  new_query-KeepsConnected q s = ground arith

  pub db_qres-KeepsConnected : (q : Bytes) → KeepsConnected (db_qres os q)
  unfolding db_qres
  db_qres-KeepsConnected q =
      bind-KeepsConnected (new_query os q) (λ r. pure (next_row r).0) (new_query-KeepsConnected q)
        (λ r s. refl)

  pub db_qres0-KeepsConnected : (q : Bytes) → KeepsConnected (db_qres0 os q)
  unfolding db_qres0
  db_qres0-KeepsConnected q =
      bind-KeepsConnected (db_qres os q) (λ row. pure (head_text os row)) (db_qres-KeepsConnected q)
        (λ r s. refl)

  pub db_query-KeepsConnected : (q : Bytes) → KeepsConnected (db_query os q)
  unfolding db_query query log_mysql_error error
  db_query-KeepsConnected q s = ground arith

  lock_table-KeepsConnected : KeepsConnected (lock_table os)
  unfolding lock_table
  lock_table-KeepsConnected =
      let q : Bytes = codes "select get_lock('olimp.submit_lock', 10)" in
      bind-KeepsConnected (db_qres0 os q) (λ lock. pure (lock =ₛ codes "1"))
        (db_qres0-KeepsConnected q) (λ r s. refl)

  -- The state behind a query without a connection: an entry in the log.
  abbrev pub refused_query : Bytes → Server os → Server os
  refused_query q s = record s {
    events =
        s.events
        ++ logged_error (codes "MySQL error: Not connected to the database.")
            ((codes "Query", q) ∷ [])
          ∷ [];
  }

  -- Where the handle is null, no query reaches the database: `db_qres` returns an empty row and
  -- `db_query` returns false, the world is as it was, and the log gets one entry with the query and
  -- the text "Not connected to the database.". The lock is not taken then.
  pub query-refused :
      (q : Bytes) (s : Server os)
      → s.connected ≡ false
      → (db_qres os q s ≡ (returned [], refused_query q s))
        × ((db_query os q s ≡ (returned false, refused_query q s))
            × (lock_table os s ≡ (
              returned false,
              refused_query (codes "select get_lock('olimp.submit_lock', 10)") s,
            )))
  unfolding db_qres db_query new_query query get_errno log_mysql_error error next_row lock_table
      db_qres0 head_text
  query-refused q s e = (rw e refl, (rw e refl, rw e refl))

  -- A lock that is taken needs a connection.
  pub lock_table-connected :
      (s s₁ : Server os) → lock_table os s ≡ (returned true, s₁) → s₁.connected ≡ true
  lock_table-connected s s₁ h = elim (Bool-cases s.connected) [
    | inl e ↦ sym (ap (λ r. r.1.connected) h) ∙ (lock_table-KeepsConnected s ∙ e)
    | inr e ↦ let (_, (_, refused)) = query-refused [] s e in absurd (cc)
  ]

module _ (os : Os) (c : Settings) where
  -- `connect` returns, and it returns true exactly where there is a handle then: a connection that was
  -- open is closed, and a failure leaves none open.
  pub connect-connected :
      (s : Server os) → (connect os c s).0 ≡ returned (connect os c s).1.connected
  unfolding connect close log_mysql_error error
  connect-connected s = ground arith
