-- ===== src/Submit/Stores.antt =====
-- The result of a submission is stored once: `compile_and_test` of src/lib/submit.cpp.
use bacs_legacy.Base.{◌≡◌, refl, ap, ◌∙◌, true, false, Bool, List, [], ◌∷◌, ◌++◌, Bytes, arith}
use bacs_legacy.Util.Format.{format}
use bacs_legacy.Double.{Double}
use bacs_legacy.System.{Os, Server, returned}
use bacs_legacy.System.Triples.{View, Triple, After-intro, After-returned}
use bacs_legacy.System.Facts.{is_update}
use bacs_legacy.Config.{Settings}
use bacs_legacy.Run.{Vars}
use bacs_legacy.Database.Updates.{updates, Records, got, got-Stable, query-got}
use bacs_legacy.Problem.{Problem}
use bacs_legacy.Submission.{Submission, store_query}
use bacs_legacy.Submit.{compile_and_test}
use bacs_legacy.Submit.Final.{is_final, compile_and_test-final}
use bacs_legacy.Submit.Asked.{AsksOf, compile_and_test-Asks}
use bacs_legacy.Submit.Concluded.{Stores, StoredOf}
use bacs_legacy.Submit.Owned.{compile_and_test-Stored}

module _ (os : Os) (d : Double) (c : Settings) (sent : os.World → List Bytes)
    (records : Records os sent) where
  -- The text that starts the query.
  store_query_updates :
      (s : Submission d) (escaped : Bytes) → is_update (store_query os d c s escaped) ≡ true
  unfolding store_query format
  store_query_updates s escaped = refl

  one_update :
      (s : Submission d) (escaped : Bytes)
      → updates (store_query os d c s escaped ∷ []) ≡ store_query os d c s escaped ∷ []
  one_update s escaped = rw (store_query_updates s escaped) refl

  abbrev WithQuery : List Bytes → Bytes → View os → Type 0
  WithQuery us q = (got os sent records (us ++ updates (q ∷ []))).holds

  got-Stores : (us : List Bytes) → Stores os (got os sent records us) (WithQuery us)
  got-Stores us = record {
    after-Stable = λ q. got-Stable os sent records (us ++ updates (q ∷ []));
    sent = λ q v e. query-got os sent records us q v;
    lost = λ q v e p. absurd (cc p.0);
  }

  -- The submission has got one update behind `us`, with a final verdict and under the number `sid`.
  abbrev pub Judged : List Bytes → Bytes → Submission d → View os → Type 0
  Judged us sid s v =
      (escaped : Bytes) × (v.0 ≡ true)
      × (updates (sent v.1) ≡ us ++ store_query os d c s escaped ∷ [])
      × (is_final s.status ≡ true)
      × (s.sid ≡ sid)

  pub compile_and_test-Judged :
      (us : List Bytes) (p : Problem d) (s : Submission d) (unset dummies : Vars)
      → s.not_found ≡ false
      → Triple os
          (got os sent records us).holds
          (compile_and_test os d c p s unset dummies)
          (λ r. Judged us s.sid r.1)
  compile_and_test-Judged us p s unset dummies found st q =
      let x = got os sent records us in
      let stable = got-Stable os sent records us in
      let end = compile_and_test os d c p s unset dummies st in
      After-intro os (λ r. Judged us s.sid r.1) end
        (λ r e.
          let (escaped, owned) =
            After-returned os (StoredOf os d c x stable (WithQuery us) (got-Stores us)) end r
              (compile_and_test-Stored os d c x stable (λ dir name n. refl) (λ fn. refl)
                (WithQuery us) (got-Stores us) p s unset dummies found st q)
              e in
          let stored = owned (ground arith) in
          (
            escaped,
            stored.0,
            stored.1 ∙ ap (λ qs. us ++ qs) (one_update r.1 escaped),
            compile_and_test-final os d c p s unset dummies st r.0 r.1 found e,
            After-returned os (AsksOf os d c s.sid) end r
                (compile_and_test-Asks os d c s.sid p s unset dummies refl st tt) e,
          ))

  -- Where `compile_and_test` returns, a submission that was found has got exactly one update of the
  -- database, with a final verdict and under its own number, on every path: for a language that is
  -- not known, for a failure of the compiler, of the problem or of a test, and for a test that was
  -- passed. There is a connection to the database, which gets each query in order, and the other
  -- calls of the system send it nothing.
  pub compile_and_test-stores :
      (p : Problem d) (s : Submission d) (unset dummies : Vars) (st : Server os) (ok : Bool)
      (s' : Submission d)
      → s.not_found ≡ false
      → st.connected ≡ true
      → (compile_and_test os d c p s unset dummies st).0 ≡ returned (ok, s')
      → (escaped : Bytes) × (updates (sent (compile_and_test os d c p s unset dummies st).1.world)
          ≡ updates (sent st.world) ++ store_query os d c s' escaped ∷ [])
        × (is_final s'.status ≡ true)
        × (s'.sid ≡ s.sid)
  compile_and_test-stores p s unset dummies st ok s' found connected e =
      let us = updates (sent st.world) in
      let (escaped, connected', stored, final, same) =
        After-returned os (λ r. Judged us s.sid r.1) (compile_and_test os d c p s unset dummies st)
          (ok, s') (compile_and_test-Judged us p s unset dummies found st (connected, refl)) e in
      (escaped, stored, final, same)
