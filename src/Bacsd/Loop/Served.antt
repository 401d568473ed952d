-- ===== src/Bacsd/Loop/Served.antt =====
-- What the loop of src/bin/bacsd.cpp over the submissions tells the database.
use bacs_legacy.Base.{
  ℕ, ◌≡◌, ◌∙◌, refl, sym, subst, Bool, true, false, Option, List, [], ◌∷◌, ◌++◌, Bytes, negsuc,
  ◌=ₛ◌,
}
use bacs_legacy.Double.{Double}
use bacs_legacy.System.{Os, Server, M, returned, ◌>>=◌, pure}
use bacs_legacy.System.Triples.{
  View, Triple, Keeps, After-returned, After-weaken, bind-Triple, if-Triple,
}
use bacs_legacy.System.Facts.{Lasting}
use bacs_legacy.Config.{Settings}
use bacs_legacy.Ping.{running}
use bacs_legacy.Problem.RunTests.Owned.{ping-Quiet}
use bacs_legacy.Database.Updates.{updates, Records, got, got-Stable, Seen, Seen-Triple, Seen-Keeps}
use bacs_legacy.Queue.{update_query, capture_new_submit}
use bacs_legacy.Queue.Marks.{with_mark, Marked, capture_new_submit-Triple}
use bacs_legacy.Submit.Tested.{Tested, test_submit-Tested}
use bacs_legacy.Bacsd.Loop.Keeps.{behind_test-Keeps, behind_found-Keeps, check_loop-Keeps}
use bacs_legacy.Bacsd.Loop.{
  Memory, Ending, Next, test_sid, ping_sid, behind_test, test_captured, behind_found, found_round,
  check_thread_proc,
}

module _ (os : Os) (d : Double) (c : Settings) (sent : os.World → List Bytes)
    (us : List Bytes) where
  -- The updates behind some rounds of the loop: each submission is marked, and then its final
  -- verdict is stored, or nothing where it is not found, before the next one is marked.
  pub data Served : List Bytes → Type 0 where
    begun : Served us
    one_more :
        {vs ws : List Bytes} (sid : Bytes)
        → (sid =ₛ []) ≡ false
        → Served vs
        → Tested os d c sent (vs ++ update_query sid ∷ []) sid ws
        → Served ws

module _ (os : Os) (d : Double) (c : Settings) (memory : Server os → Memory d)
    (sent : os.World → List Bytes) (records : Records os sent) (us : List Bytes) where
  abbrev Got : List Bytes → View os → Type 0
  Got vs = (got os sent records vs).holds

  abbrev Serving : View os → Type 0
  Serving = Seen os sent records (Served os d c sent us)

  Serving-Lasting : Lasting os Serving
  Serving-Lasting A m h =
      Seen-Keeps os sent records (Served os d c sent us) m
        (λ vs. h (got os sent records vs) (got-Stable os sent records vs))

  -- The test of a submission that is marked already.
  test_sid-Serves :
      (vs : List Bytes) (sid : Bytes)
      → (sid =ₛ []) ≡ false
      → Served os d c sent us vs
      → Triple os (Got (vs ++ update_query sid ∷ [])) (test_sid os d c memory sid) (λ _. Serving)
  test_sid-Serves vs sid number served s p =
      let m = memory s in
      let marked = vs ++ update_query sid ∷ [] in
      After-weaken os (λ _. Seen os sent records (Tested os d c sent marked sid)) (λ _. Serving)
        (test_sid os d c memory sid s) (λ fine v q. (q.0, one_more sid number served q.1))
        (test_submit-Tested os d c sent records marked sid m.problem m.acm m.need_info m.unset
          m.dummies s p)

  test_captured-Serves :
      (vs : List Bytes) (sid : Bytes)
      → Served os d c sent us vs
      → Triple os (Got (with_mark vs sid)) (test_captured os d c memory sid) (λ _. Serving)
  unfolding test_captured
  test_captured-Serves vs sid served =
      let x = got os sent records (with_mark vs sid) in
      let marked = Got (vs ++ update_query sid ∷ []) in
      let test = test_sid os d c memory sid >>= behind_test os d c memory sid in
      if-Triple os {A = Bool} x.holds (λ _. Serving) (sid =ₛ []) (pure true)
        (ping_sid os d c memory running sid >>= λ _. test)
        (λ e s p.
          let same : with_mark vs sid ≡ vs = rw e refl in
          (p.0, subst (Served os d c sent us) (sym (p.1 ∙ same)) served))
        (λ e.
          bind-Triple os x.holds (λ _. x.holds) (λ _. Serving) (ping_sid os d c memory running sid)
            (λ _. test)
            (ping-Quiet os d c x (got-Stable os sent records (with_mark vs sid)) running sid
              (negsuc 0) [] [])
            (λ _ s p.
              let new : with_mark vs sid ≡ vs ++ update_query sid ∷ [] = rw e refl in
              bind-Triple os marked (λ _. Serving) (λ _. Serving) (test_sid os d c memory sid)
                (behind_test os d c memory sid) (test_sid-Serves vs sid e served)
                (behind_test-Keeps os d c memory Serving Serving-Lasting sid) s (p.0, p.1 ∙ new)))

  found_round-Serves : (dbg : Bytes) → Keeps os Serving (found_round os d c memory dbg)
  unfolding found_round
  found_round-Serves dbg =
      let rest : Bytes × Bytes → M os Next =
        λ r. test_captured os d c memory r.0 >>= behind_found os d c memory r.1 in
      Seen-Triple os sent records (Served os d c sent us) (λ _. Serving)
        (capture_new_submit os c dbg >>= rest)
        (λ vs served.
          bind-Triple os (Got vs) (Marked os c sent records vs) (λ _. Serving)
            (capture_new_submit os c dbg) rest (capture_new_submit-Triple os c sent records vs dbg)
            (λ r.
              bind-Triple os (Marked os c sent records vs r) (λ _. Serving) (λ _. Serving)
                (test_captured os d c memory r.0) (behind_found os d c memory r.1)
                (test_captured-Serves vs r.0 served)
                (behind_found-Keeps os d c memory Serving Serving-Lasting r.1)))

module _ (os : Os) (d : Double) (c : Settings) (memory : Server os → Memory d)
    (sent : os.World → List Bytes) (records : Records os sent) where
  -- However long the loop over the submissions runs, the updates that it has sent behind those
  -- before are whole rounds: each submission that is taken is marked as running, and before the next
  -- one is taken the database has got exactly one more update, with the final verdict that its test
  -- has set, or none where the submission is not found. There is a connection to the database, which
  -- gets each query in order, and the other calls of the system send it nothing.
  pub check_thread_proc-Served :
      (rounds fuel : ℕ) (dbg : Bytes) (s : Server os) (r : Option Ending)
      → s.connected ≡ true
      → (check_thread_proc os d c memory rounds fuel dbg s).0 ≡ returned r
      → Served os d c sent
          (updates (sent s.world))
          (updates (sent (check_thread_proc os d c memory rounds fuel dbg s).1.world))
  unfolding check_thread_proc
  check_thread_proc-Served rounds fuel dbg s r connected e =
      let us = updates (sent s.world) in
      (After-returned os (λ _. Serving os d c memory sent records us)
        (check_thread_proc os d c memory rounds fuel dbg s) r
        (check_loop-Keeps os d c memory (Serving os d c memory sent records us)
          (Serving-Lasting os d c memory sent records us)
          (found_round-Serves os d c memory sent records us) rounds fuel
          (record { need_announce = true; dbg_submit_id = dbg }) s (connected, begun))
        e).1
