-- ===== src/TempFile/Owned.antt =====
-- Facts that are about temporary files, and which object will erase these.
use bacs_legacy.Base.{
  length, take, pos_part, ℕ, zero, suc, ◌≡◌, refl, ◌&&◌, ◌||◌, Bool, true, false, Bool-cases, inl,
  inr, Option, none, some, List, [], ◌∷◌, Bytes, ℤ, pos, ltb_ℤ, if◌then◌else◌, if_cases, arith,
}
use bacs_legacy.System.{Os, M, returned, ◌>>=◌, pure, crash, look}
use bacs_legacy.System.Triples.{
  View, view, After, Triple, bind-Triple, bind-Keeps, if-Triple, if-Keeps, After-weaken,
  After-always, Option-Keeps,
}
use bacs_legacy.Config.{Settings}
use bacs_legacy.System.Facts.{Fact, Stable, Quiet}
use bacs_legacy.TempFile.{
  TempFile, assign, candidate, unique_loop, gen_unique_filename, write_named, create, delete_file,
  read_size, file_exists, erase, read,
}

module _ (os : Os) (x : Fact os) where
  -- Will one of the objects erase a file that the fact is about?
  abbrev pub owns : List TempFile → Bool
  owns [] = false
  owns (t ∷ ts) = (t.file_created && x.about t.name) || owns ts

  -- The fact is true, if none of the objects is to erase a file that it is about.
  abbrev pub Owned : List TempFile → View os → Type 0
  Owned ts w = owns ts ≡ false → x.holds w

  -- An action that leaves the fact true keeps the owners.
  pub Owned-framed :
      {A : Type 0} (ts : List TempFile) (m : M os A)
      → Quiet os x m
      → Triple os (Owned ts) m (λ _. Owned ts)
  Owned-framed ts m q s p = elim (Bool-cases (owns ts)) [
    | inl e ↦ After-always os (λ _. Owned ts) (m s) (λ a w f. absurd (cc))
    | inr e ↦ After-weaken os (λ _. x.holds) (λ _. Owned ts) (m s) (λ a w g f. g) (q s (p e))
  ]

  pub Owned-cons : (t : TempFile) (ts : List TempFile) (w : View os) → Owned ts w → Owned (t ∷ ts) w
  Owned-cons t ts w h e = h (ground arith)

module _ (os : Os) (c : Settings) (x : Fact os) (stable : Stable os x) where
  unique_loop-Quiet : (fuel : ℕ) → Quiet os x (unique_loop os c fuel)
  unfolding unique_loop candidate
  unique_loop-Quiet zero s p = tt
  unique_loop-Quiet (suc fuel) s p =
      let (fn, s') = candidate os c s in
      let kept =
        stable.random_kept (s.connected, (os.random s.world).1)
          (stable.random_kept (view os s) p) in
      if_cases (After os (λ _. x.holds)) (file_exists os fn s'.world) (unique_loop os c fuel s')
        (returned fn, s') (λ _. unique_loop-Quiet fuel s' kept) (λ _. kept)

  write_named-Owned :
      (t : TempFile) (source fn : Bytes) (ts : List TempFile)
      → Triple os (Owned os x ts) (write_named os t source fn) (λ r. Owned os x (r.1 ∷ ts))
  unfolding write_named
  write_named-Owned t source fn ts s p = go (os.write_file fn source s.world) refl
    where
      go :
          (o : Option os.World)
          → os.write_file fn source s.world ≡ o
          → After os {A = Bool × TempFile}
              (λ r. Owned os x (r.1 ∷ ts))
              (elim o [
                | none ↦ (returned (false, t), s)
                | some w ↦ (returned (true, assign fn), record s { world = w })
              ])
      go none e = λ f. p (ground arith)
      go (some w) e =
          λ f. stable.write_kept fn source (ground arith) (view os s) w e (p (ground arith))

  -- What `create` makes is owned by the object that it gives back.
  pub create-Owned :
      (t : TempFile) (source : Bytes) (ts : List TempFile)
      → Triple os (Owned os x ts) (create os c t source) (λ r. Owned os x (r.1 ∷ ts))
  unfolding create gen_unique_filename
  create-Owned t source ts =
      bind-Triple os (Owned os x ts) (λ _. Owned os x ts) (λ r. Owned os x (r.1 ∷ ts))
        (gen_unique_filename os c) (write_named os t source)
        (Owned-framed os x ts (gen_unique_filename os c) (unique_loop-Quiet c.attempts))
        (λ fn. write_named-Owned t source fn ts)

  pub erase-Quiet : (t : TempFile) → Quiet os x (erase os t)
  unfolding erase delete_file
  erase-Quiet t =
      if-Keeps os x.holds t.file_created _ (pure (true, t))
        (λ s p. stable.remove_kept t.name (view os s) p) (λ s p. p)

  -- When an object has erased its file, the fact needs it no more.
  pub erase-Owned :
      (t : TempFile) (ts : List TempFile)
      → Triple os (Owned os x (t ∷ ts)) (erase os t) (λ _. Owned os x ts)
  unfolding erase delete_file
  erase-Owned t ts =
      if-Triple os (Owned os x (t ∷ ts)) (λ _. Owned os x ts) t.file_created _ (pure (true, t))
        (λ e s p f. elim (Bool-cases (x.about t.name)) [
          | inl same ↦ stable.removed t.name (view os s) same
          | inr other ↦ stable.remove_kept t.name (view os s) (p (ground arith))
        ])
        (λ e s p f. p (ground arith))

  pub erase-holds : (t : TempFile) → Triple os (Owned os x (t ∷ [])) (erase os t) (λ _. x.holds)
  erase-holds t s p =
      After-weaken os (λ _. Owned os x []) (λ _. x.holds) (erase os t s) (λ a w f. f refl)
        (erase-Owned t [] s p)

  pub read-Quiet : (t : TempFile) (size : ℤ) → Quiet os x (read os t size)
  unfolding read
  read-Quiet t size =
      let opened : Option Bytes → M os Bytes = λ o. elim o [
        | none ↦ pure []
        | some s ↦
            let n = read_size size (length s) in
            if ltb_ℤ n (pos 0) then crash else pure (take (pos_part n) s)
      ] in
      if-Keeps os x.holds t.file_created (look (os.read_file t.name) >>= opened) (pure [])
        (bind-Keeps os x.holds (look (os.read_file t.name)) opened (λ s p. p)
          (λ o.
            Option-Keeps os x.holds o (pure []) _ (λ s p. p)
              (λ text.
                let n = read_size size (length text) in
                if-Keeps os x.holds (ltb_ℤ n (pos 0)) crash (pure (take (pos_part n) text))
                  (λ s p. tt) (λ s p. p))))
        (λ s p. p)
