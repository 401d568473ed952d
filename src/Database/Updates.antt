-- ===== src/Database/Updates.antt =====
-- The queries that the database gets, and which of them change the table of the submissions.
use bacs_legacy.Base.{
  ◌≡◌, ◌∙◌, refl, sym, subst, ap, true, false, List, [], ◌∷◌, ◌++◌, Bytes, ℕ, some, if◌then◌else◌,
  arith,
}
use bacs_legacy.System.{Os, M}
use bacs_legacy.System.Triples.{View, Triple, Keeps, After-weaken}
use bacs_legacy.System.Facts.{Fact, Stable, is_update}

-- The updates among some queries, in order.
abbrev pub updates : List Bytes → List Bytes
updates [] = []
updates (q ∷ qs) = if is_update q then q ∷ updates qs else updates qs

updates-read :
    (qs : List Bytes) (q : Bytes) → is_update q ≡ false → updates (qs ++ q ∷ []) ≡ updates qs
updates-read [] q u = rw u refl
updates-read (r ∷ qs) q u = ground (arith, updates-read qs q u)

updates-append :
    (qs : List Bytes) (q : Bytes) → updates (qs ++ q ∷ []) ≡ updates qs ++ updates (q ∷ [])
updates-append [] q = refl
updates-append (r ∷ qs) q = ground (arith, updates-append qs q)

-- `sent` is what the database has got: each query in order, and nothing by the other calls.
pub record Records (os : Os) (sent : os.World → List Bytes) : Type 0 where
  pub query : (q : Bytes) (w : os.World) → sent (os.query q w).1 ≡ sent w ++ q ∷ []
  pub remove : (fn : Bytes) (w : os.World) → sent (os.remove fn w).1 ≡ sent w
  pub write_file :
      (fn text : Bytes) (w w' : os.World) → os.write_file fn text w ≡ some w' → sent w' ≡ sent w
  pub copy_file :
      (from to : Bytes) (w w' : os.World) → os.copy_file from to w ≡ some w' → sent w' ≡ sent w
  pub rename : (from to : Bytes) (w : os.World) → sent (os.rename from to w).1 ≡ sent w
  pub system : (cmd : Bytes) (w : os.World) → sent (os.system cmd w).1 ≡ sent w
  pub chmod : (fn : Bytes) (mode : ℕ) (w : os.World) → sent (os.chmod fn mode w).1 ≡ sent w
  pub unlink : (fn : Bytes) (w : os.World) → sent (os.unlink fn w).1 ≡ sent w
  pub random : (w : os.World) → sent (os.random w).1 ≡ sent w
  pub rand : (w : os.World) → sent (os.rand w).1 ≡ sent w
  pub clock : (w : os.World) → sent (os.clock w).1 ≡ sent w
  pub wait_signal : (sec nsec : ℕ) (w : os.World) → sent (os.wait_signal sec nsec w).1 ≡ sent w
  pub create_directories :
      (fn : Bytes) (w w' : os.World) → os.create_directories fn w ≡ some w' → sent w' ≡ sent w
  pub remove_all : (fn : Bytes) (w w' : os.World) → os.remove_all fn w ≡ some w' → sent w' ≡ sent w
  pub extract :
      (archive dir : Bytes) (w w' : os.World)
      → os.extract archive dir w ≡ some w'
      → sent w' ≡ sent w

module _ (os : Os) (sent : os.World → List Bytes) (records : Records os sent) where
  -- There is a connection, and the database has got these updates.
  abbrev pub got : List Bytes → Fact os
  got us = record { about = λ fn. false; holds = λ v. (v.0 ≡ true) × (updates (sent v.1) ≡ us) }

  kept :
      (us : List Bytes) (v : View os) (w : os.World)
      → sent w ≡ sent v.1
      → (got us).holds v
      → (got us).holds (v.0, w)
  kept us v w e p = (p.0, ap updates e ∙ p.1)

  query-kept :
      (us : List Bytes) (q : Bytes)
      → is_update q ≡ false
      → (v : View os) → (got us).holds v
      → (got us).holds (v.0, (os.query q v.1).1)
  query-kept us q u v p =
      (p.0, ap updates (records.query q v.1) ∙ (updates-read (sent v.1) q u ∙ p.1))

  pub query-got :
      (us : List Bytes) (q : Bytes) (v : View os)
      → (got us).holds v
      → (got (us ++ updates (q ∷ []))).holds (v.0, (os.query q v.1).1)
  query-got us q v p = (
    p.0,
    ap updates (records.query q v.1)
        ∙ (updates-append (sent v.1) q ∙ ap (λ xs. xs ++ updates (q ∷ [])) p.1),
  )

  pub got-Stable : (us : List Bytes) → Stable os (got us)
  got-Stable us = record {
    removed = λ fn v e. absurd (cc);
    remove_kept = λ fn v. kept us v _ (records.remove fn v.1);
    write_kept = λ fn text n v w e. kept us v w (records.write_file fn text v.1 w e);
    copy_kept = λ from to n v w e. kept us v w (records.copy_file from to v.1 w e);
    rename_kept = λ from to n v. kept us v _ (records.rename from to v.1);
    system_kept = λ cmd v. kept us v _ (records.system cmd v.1);
    chmod_kept = λ fn mode v. kept us v _ (records.chmod fn mode v.1);
    unlink_kept = λ fn v. kept us v _ (records.unlink fn v.1);
    random_kept = λ v. kept us v _ (records.random v.1);
    rand_kept = λ v. kept us v _ (records.rand v.1);
    clock_kept = λ v. kept us v _ (records.clock v.1);
    wait_signal_kept = λ sec nsec v. kept us v _ (records.wait_signal sec nsec v.1);
    query_kept = query-kept us;
    create_directories_kept = λ fn v w e. kept us v w (records.create_directories fn v.1 w e);
    remove_all_kept = λ fn v w e. kept us v w (records.remove_all fn v.1 w e);
    extract_kept = λ archive dir v w e. kept us v w (records.extract archive dir v.1 w e);
  }

  -- There is a connection, and the updates that the database has got are such as `R` says.
  abbrev pub Seen : (List Bytes → Type 0) → View os → Type 0
  Seen R v = (v.0 ≡ true) × R (updates (sent v.1))

  -- From each list of updates to the property of them.
  pub Seen-Triple :
      {A : Type 0} (R : List Bytes → Type 0) (Q : A → View os → Type 0) (m : M os A)
      → ((us : List Bytes) → R us → Triple os (got us).holds m Q)
      → Triple os (Seen R) m Q
  Seen-Triple R Q m h s p = h (updates (sent s.world)) p.1 s (p.0, refl)

  pub Seen-Keeps :
      {A : Type 0} (R : List Bytes → Type 0) (m : M os A)
      → ((us : List Bytes) → Keeps os (got us).holds m)
      → Keeps os (Seen R) m
  Seen-Keeps {A} R m h =
      Seen-Triple R (λ _. Seen R) m
        (λ us r s p.
          After-weaken os {A = A} (λ _. (got us).holds) (λ _. Seen R) (m s)
            (λ a v q. (q.0, subst R (sym q.1) r)) (h us s p))
