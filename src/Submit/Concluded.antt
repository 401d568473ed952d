-- ===== src/Submit/Concluded.antt =====
-- The end of the test of a submission, in src/lib/submit.cpp: its result is stored, and the object still
-- owns its source file.
use bacs_legacy.Base.{
  ◌≡◌, Bool, true, false, not, [], ◌∷◌, ◌++◌, Bytes, codes, negsuc, if◌then◌else◌,
}
use bacs_legacy.Util.Format.{c_str, format}
use bacs_legacy.Def.Names.{status_text}
use bacs_legacy.Double.{Double}
use bacs_legacy.System.{Os, M, ◌>>=◌, pure, log_add}
use bacs_legacy.System.Triples.{View, Triple, bind-Triple, if-Keeps}
use bacs_legacy.Config.{Settings}
use bacs_legacy.System.Facts.{Fact, Stable}
use bacs_legacy.TempFile.Owned.{Owned, Owned-framed}
use bacs_legacy.Run.{Vars}
use bacs_legacy.Database.{db_query}
use bacs_legacy.Database.Engine.{escape}
use bacs_legacy.Database.Owned.{db_query-Triple, escape-Keeps}
use bacs_legacy.Ping.{ping, submit_result}
use bacs_legacy.Problem.RunTests.Owned.{ping-Quiet}
use bacs_legacy.Submission.{Submission, clip_info, store_query, store_result}
use bacs_legacy.Submit.{cleanup, summary, conclude}
use bacs_legacy.Submit.Source.{Source, cleanup-Quiet}

-- What holds when the query of `store_result` is sent: `after q` of the query `q`, in place of the
-- fact.
pub record Stores (os : Os) (x : Fact os) (after : Bytes → View os → Type 0) : Type 1 where
  pub after-Stable : (q : Bytes) → Stable os (record x { holds = after q })
  pub sent : (q : Bytes) (v : View os) → v.0 ≡ true → x.holds v → after q (v.0, (os.query q v.1).1)
  pub lost : (q : Bytes) (v : View os) → v.0 ≡ false → x.holds v → after q v

module _ (os : Os) (d : Double) (c : Settings) (x : Fact os) (stable : Stable os x)
    (after : Bytes → View os → Type 0) (stores : Stores os x after) where
  abbrev pub Stored : Submission d → View os → Type 0
  Stored s v =
      (escaped : Bytes) × Owned os (record x { holds = after (store_query os d c s escaped) })
        (s.src_file ∷ []) v

  abbrev pub StoredOf : {A : Type 0} → A × Submission d → View os → Type 0
  StoredOf r = Stored r.1

  store-Owned :
      (s : Submission d) (q : Bytes)
      → Triple os
          (Owned os x (s.src_file ∷ []))
          (db_query os q)
          (λ _. Owned os (record x { holds = after q }) (s.src_file ∷ []))
  store-Owned s q =
      let mine = Owned os x (s.src_file ∷ []) in
      let stored = Owned os (record x { holds = after q }) (s.src_file ∷ []) in
      db_query-Triple os mine stored q (λ v e p f. stores.sent q v e (p f))
        (λ v e p f. stores.lost q v e (p f))

  store_result-Stored :
      (s : Submission d) → Triple os (Source os d x s) (store_result os d c s) StoredOf
  unfolding store_result store_query
  store_result-Stored s =
      let mine = Source os d x s in
      let asked : M os Bytes =
        if s.need_info then escape os (clip_info os d c s.info) else pure [] in
      let end : Bool → M os (Bool × Submission d) =
        λ stored. pure (stored, record s { info = clip_info os d c s.info }) in
      let store : Bytes → M os Bool = λ escaped. db_query os (store_query os d c s escaped) in
      bind-Triple os mine (λ _. mine) StoredOf asked (λ escaped. store escaped >>= end)
        (if-Keeps os mine s.need_info (escape os (clip_info os d c s.info)) (pure [])
          (escape-Keeps os mine (clip_info os d c s.info)) (λ st p. p))
        (λ escaped.
          let q = store_query os d c s escaped in
          bind-Triple os mine (λ _. Owned os (record x { holds = after q }) (s.src_file ∷ []))
            StoredOf (store escaped) end (store-Owned s q) (λ _ st p. (escaped, p)))

  pub conclude-Stored :
      (s : Submission d) (unset : Vars)
      → Triple os (Source os d x s) (conclude os d c s unset) StoredOf
  unfolding conclude
  conclude-Stored s unset =
      let mine = Source os d x s in
      let Result : Type 0 = Bool × Submission d in
      let told : Submission d → M os (Unit {0}) =
        λ s₁. ping os c submit_result s₁.sid (negsuc 0) s₁.pid (status_text s₁.status) in
      let end : Submission d → M os Result = λ s₁.
        log_add (format (codes "Finished testing [" ++ (c_str s₁.sid ++ codes "]")))
          (summary os d c s₁)
        >>= λ _. pure (not s₁.fatal_error, s₁) in
      let tell : Bool × Submission d → M os Result = λ r. told r.1 >>= λ _. end r.1 in
      bind-Triple os mine (λ _. mine) StoredOf (cleanup os d c s unset)
        (λ _. store_result os d c s >>= tell)
        (Owned-framed os x (s.src_file ∷ []) (cleanup os d c s unset)
          (cleanup-Quiet os d c x stable s unset))
        (λ _.
          bind-Triple os mine StoredOf StoredOf (store_result os d c s) tell (store_result-Stored s)
            (λ r st p.
              let (escaped, owned) = p in
              let y : Fact os = record x { holds = after (store_query os d c r.1 escaped) } in
              let stored = Owned os y (r.1.src_file ∷ []) in
              bind-Triple os stored (λ _. stored) StoredOf (told r.1) (λ _. end r.1)
                (Owned-framed os y (r.1.src_file ∷ []) (told r.1) (
                  ping-Quiet os d c y (stores.after-Stable (store_query os d c r.1 escaped))
                    submit_result r.1.sid (negsuc 0) r.1.pid (status_text r.1.status)))
                (λ _ st p. (escaped, p)) st owned))
