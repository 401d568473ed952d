-- ===== src/Submit/Tested.antt =====
-- What `test_submit` of src/lib/submit.cpp tells the database of a submission.
use bacs_legacy.Base.{
  ◌≡◌, ◌∙◌, sym, subst, Bool, true, false, Bool-cases, inl, inr, none, some, List, [], ◌∷◌, ◌++◌,
  Bytes, codes, Option, Option-cases, arith,
}
use bacs_legacy.Util.Format.{c_str, format}
use bacs_legacy.Double.{Double}
use bacs_legacy.System.{Os, Server, M, returned, ◌>>=◌, pure, crash}
use bacs_legacy.System.Triples.{
  View, Triple, After-weaken, After-intro, After-returned, bind-Triple, bind-Keeps, Keeps,
}
use bacs_legacy.Config.{Settings}
use bacs_legacy.TempFile.{TempFile, erase}
use bacs_legacy.TempFile.Owned.{erase-Quiet}
use bacs_legacy.Run.{Vars}
use bacs_legacy.Database.{db_qres}
use bacs_legacy.Database.Owned.{db_qres-Quiet}
use bacs_legacy.Database.Updates.{updates, Records, got, got-Stable, Seen, Seen-Keeps}
use bacs_legacy.Problem.{Problem}
use bacs_legacy.Submission.{Submission, blank, fill, new_submit, store_query}
use bacs_legacy.Submit.{compile_and_test, test_submit}
use bacs_legacy.Submit.Final.{is_final}
use bacs_legacy.Submit.Source.{SourceOf, row_query_reads}
use bacs_legacy.Submit.Owned.{compile_and_test-unfound}
use bacs_legacy.Submit.Stores.{Judged, compile_and_test-Judged}

module _ (os : Os) (d : Double) (c : Settings) (sent : os.World → List Bytes) (us : List Bytes)
    (sid : Bytes) where
  -- The constructor has read the submission `sid`, when the updates were `us`.
  abbrev pub ReadAs : Submission d → Type 0
  ReadAs s =
      (acm : Bool) × (need_info : Bool) × (st : Server os) × (updates (sent st.world) ≡ us)
      × ((new_submit os d c sid acm need_info st).0 ≡ returned s)

  -- The updates behind the test of the submission `sid`: those before, where it is not found, or
  -- those and one with the final verdict that `compile_and_test` has set.
  pub data Tested : List Bytes → Type 0 where
    unfound : (s : Submission d) → ReadAs s → s.not_found ≡ true → Tested us
    stored :
        (p : Problem d) (s s' : Submission d) (unset dummies : Vars) (st : Server os) (ok : Bool)
        (escaped : Bytes)
        → ReadAs s
        → s.not_found ≡ false
        → (compile_and_test os d c p s unset dummies st).0 ≡ returned (ok, s')
        → is_final s'.status ≡ true
        → s'.sid ≡ sid
        → Tested (us ++ store_query os d c s' escaped ∷ [])

fill-sid :
    (d : Double) (s : Submission d) (row : List Bytes) (r : Submission d)
    → fill d s row ≡ some r
    → r.sid ≡ s.sid
unfolding fill
fill-sid d s [] r e = let same : s ≡ r = cc in cc
fill-sid d s (pid ∷ []) r e = absurd (cc)
fill-sid d s (pid ∷ lang ∷ []) r e = absurd (cc)
fill-sid d s (pid ∷ lang ∷ solution ∷ []) r e = absurd (cc)
fill-sid d s (pid ∷ lang ∷ solution ∷ need_info ∷ []) r e = absurd (cc)
fill-sid d s (pid ∷ lang ∷ solution ∷ need_info ∷ acm ∷ row) r e = ground arith

module _ (os : Os) (d : Double) (c : Settings) (sent : os.World → List Bytes)
    (records : Records os sent) where
  abbrev Got : List Bytes → View os → Type 0
  Got us = (got os sent records us).holds

  new_submit-Triple :
      (us : List Bytes) (sid : Bytes) (acm need_info : Bool)
      → Triple os (Got us) (new_submit os d c sid acm need_info) (λ s v. (s.sid ≡ sid) × Got us v)
  unfolding new_submit blank
  new_submit-Triple us sid acm need_info =
      let q = format (
        codes "select problem_id, lang, solution, need_info, acm from submit where submit_id = "
        ++ c_str sid) in
      let b = blank d sid acm need_info in
      let made : Option (Submission d) → M os (Submission d) =
        λ o. elim o [ none ↦ crash | some s ↦ pure s ] in
      let asked : Submission d → View os → Type 0 = λ s v. (s.sid ≡ sid) × Got us v in
      bind-Triple os (Got us) (λ _. Got us) asked (db_qres os q) (λ rr. made (fill d b rr))
        (db_qres-Quiet os (got os sent records us) (got-Stable os sent records us) q
          (row_query_reads os d c (got os sent records us) (got-Stable os sent records us) sid))
        (λ rr. elim (Option-cases (fill d b rr)) [
          | inl e ↦ subst (λ o. Triple os (Got us) (made o) asked) (sym e) (λ st p. tt)
          | inr (s, e) ↦
              subst (λ o. Triple os (Got us) (made o) asked) (sym e)
                (λ st p. (fill-sid d b rr s e, p))
        ])

  abbrev Asked : List Bytes → Bytes → Submission d → View os → Type 0
  Asked us sid s v = ReadAs os d c sent us sid s × (s.sid ≡ sid) × Got us v

  new_submit-Asked :
      (us : List Bytes) (sid : Bytes) (acm need_info : Bool)
      → Triple os (Got us) (new_submit os d c sid acm need_info) (Asked us sid)
  new_submit-Asked us sid acm need_info st p =
      let end = new_submit os d c sid acm need_info st in
      After-intro os (Asked us sid) end (λ s e.
        let (same, now) =
          After-returned os (λ s v. (s.sid ≡ sid) × Got us v) end s
            (new_submit-Triple us sid acm need_info st p) e in
        ((acm, need_info, st, p.1, e), same, now))

  abbrev AfterTest : List Bytes → Bytes → View os → Type 0
  AfterTest us sid = Seen os sent records (Tested os d c sent us sid)

  compile_and_test-Tested :
      (us : List Bytes) (sid : Bytes) (p : Problem d) (s : Submission d) (unset dummies : Vars)
      → ReadAs os d c sent us sid s
      → s.sid ≡ sid
      → Triple os (Got us) (compile_and_test os d c p s unset dummies) (λ _. AfterTest us sid)
  compile_and_test-Tested us sid p s unset dummies read same st q = elim (Bool-cases s.not_found) [
    | inl e ↦
        After-weaken os (SourceOf os d (got os sent records us)) (λ _. AfterTest us sid)
          (compile_and_test os d c p s unset dummies st)
          (λ r v owned.
            let before = owned (ground arith) in
            (before.0, subst (Tested os d c sent us sid) (sym before.1) (unfound s read e)))
          (compile_and_test-unfound os d c (got os sent records us) p s unset dummies e st q)
    | inr e ↦
        let end = compile_and_test os d c p s unset dummies st in
        After-intro os (λ _. AfterTest us sid) end
          (λ r k.
            let (escaped, on, told, final, kept) =
              After-returned os (λ r. Judged os d c sent records us s.sid r.1) end r
                (compile_and_test-Judged os d c sent records us p s unset dummies e st q) k in
            let now = stored p s r.1 unset dummies st r.0 escaped read e k final (kept ∙ same) in
            (on, subst (Tested os d c sent us sid) (sym told) now))
  ]

  -- `test_submit` tells the database at most one thing: the final verdict on its submission.
  pub test_submit-Tested :
      (us : List Bytes) (sid : Bytes) (p : Problem d) (acm need_info : Bool) (unset dummies : Vars)
      → Triple os
          (Got us)
          (test_submit os d c p acm need_info sid unset dummies)
          (λ _. AfterTest us sid)
  unfolding test_submit
  test_submit-Tested us sid p acm need_info unset dummies =
      let drop_run : Bool × Submission d → M os Bool =
        λ r. erase os r.1.run_file >>= λ _. pure r.0 in
      let drop : Bool × Submission d → M os Bool = λ r. erase os r.1.src_file >>= λ _. drop_run r in
      let after = AfterTest us sid in
      let quiet : (t : TempFile) → Keeps os after (erase os t) = λ t.
        Seen-Keeps os sent records (Tested os d c sent us sid) (erase os t)
          (λ vs. erase-Quiet os c (got os sent records vs) (got-Stable os sent records vs) t) in
      bind-Triple os (Got us) (Asked us sid) (λ _. after) (new_submit os d c sid acm need_info)
        (λ s. compile_and_test os d c p s unset dummies >>= drop)
        (new_submit-Asked us sid acm need_info)
        (λ s st q.
          bind-Triple os (Got us) (λ _. after) (λ _. after)
            (compile_and_test os d c p s unset dummies) drop
            (compile_and_test-Tested us sid p s unset dummies q.0 q.1)
            (λ r.
              bind-Keeps os after (erase os r.1.src_file) (λ _. drop_run r) (quiet r.1.src_file)
                (λ _.
                  bind-Keeps os after (erase os r.1.run_file) (λ _. pure r.0) (quiet r.1.run_file)
                    (λ _ st q. q)))
            st q.2)
