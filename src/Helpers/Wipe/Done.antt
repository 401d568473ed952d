-- ===== src/Helpers/Wipe/Done.antt =====
-- What the exit code 0 of src/bin/wipe.c says.
use bacs_legacy.Base.{
  ℕ, ◌≡◌, ◌≢◌, refl, ap, subst, true, false, Option, none, some, List, [], ◌∷◌, Bytes, pos, ◌==ℤ◌,
  ==ℤ_iff, if_cases, arith,
}
use bacs_legacy.System.{Os, Server, M, Outcome, returned, ◌>>=◌, pure}
use bacs_legacy.System.Rules.{bind_cases}
use bacs_legacy.Helpers.Wipe.{
  TypeFlag, ftw_dp, ftw_f, other_flag, set_bit, ends_with_slash, Walked, walk_fails, walk_stopped,
  walk_ended, rm_funct, walk, walk_found, nftw, remake, walk_bits, wipe_all, main,
}

set_bit-nonzero : (res : ℕ) → (set_bit res 1 ≢ 0) × (set_bit res 2 ≢ 0) × (set_bit res 4 ≢ 0)
set_bit-nonzero res = (ground arith, ground arith, ground arith)

module _ (os : Os) (entries : Bytes → os.World → Option (List (Bytes × TypeFlag))) where
  abbrev after : Server os → os.World → Server os
  after s w = record s { world = w }

  -- Every entry of a list was removed: the files by `unlink`, the directories by `rmdir`.
  pub data Removed : List (Bytes × TypeFlag) → Server os → Server os → Type 0 where
    none_left : (s : Server os) → Removed [] s s
    a_file :
        (path : Bytes) (rest : List (Bytes × TypeFlag)) (s s' : Server os)
        → (os.unlink path s.world).0 ≡ pos 0
        → Removed rest (after s (os.unlink path s.world).1) s'
        → Removed ((path, ftw_f) ∷ rest) s s'
    a_directory :
        (path : Bytes) (rest : List (Bytes × TypeFlag)) (s s' : Server os)
        → (os.rmdir path s.world).0 ≡ pos 0
        → Removed rest (after s (os.rmdir path s.world).1) s'
        → Removed ((path, ftw_dp) ∷ rest) s s'

  -- Every directory of a list was found and removed with all its entries, and then made again if its
  -- name ends with a slash.
  pub data Wiped : List Bytes → Server os → Server os → Type 0 where
    all_done : (s : Server os) → Wiped [] s s
    one_gone :
        (dir : Bytes) (dirs : List Bytes) (es : List (Bytes × TypeFlag)) (s s₁ s' : Server os)
        → entries dir s.world ≡ some es
        → Removed es s s₁
        → ends_with_slash dir ≡ false
        → Wiped dirs s₁ s'
        → Wiped (dir ∷ dirs) s s'
    one_remade :
        (dir : Bytes) (dirs : List Bytes) (es : List (Bytes × TypeFlag)) (s s₁ s' : Server os)
        → entries dir s.world ≡ some es
        → Removed es s s₁
        → ends_with_slash dir ≡ true
        → (os.mkdir dir 0o755 s₁.world).0 ≡ pos 0
        → Wiped dirs (after s₁ (os.mkdir dir 0o755 s₁.world).1) s'
        → Wiped (dir ∷ dirs) s s'

  walk-Removed :
      (es : List (Bytes × TypeFlag)) (s : Server os)
      → (walk os entries es s).0 ≡ returned walk_ended
      → Removed es s (walk os entries es s).1
  unfolding walk rm_funct
  walk-Removed [] s = λ h. none_left s
  walk-Removed ((path, ftw_f) ∷ rest) s =
      let s₁ = after s (os.unlink path s.world).1 in
      if_cases
        (λ (m : M os Walked).
          (m s₁).0 ≡ returned walk_ended → Removed ((path, ftw_f) ∷ rest) s (m s₁).1)
        ((os.unlink path s.world).0 ==ℤ pos 0) (walk os entries rest) (pure walk_stopped)
        (λ e h.
          a_file path rest s _ ((==ℤ_iff (os.unlink path s.world).0 (pos 0)).0 e)
            (walk-Removed rest s₁ h))
        (λ e h. absurd (cc))
  walk-Removed ((path, ftw_dp) ∷ rest) s =
      let s₁ = after s (os.rmdir path s.world).1 in
      if_cases
        (λ (m : M os Walked).
          (m s₁).0 ≡ returned walk_ended → Removed ((path, ftw_dp) ∷ rest) s (m s₁).1)
        ((os.rmdir path s.world).0 ==ℤ pos 0) (walk os entries rest) (pure walk_stopped)
        (λ e h.
          a_directory path rest s _ ((==ℤ_iff (os.rmdir path s.world).0 (pos 0)).0 e)
            (walk-Removed rest s₁ h))
        (λ e h. absurd (cc))
  walk-Removed ((path, other_flag) ∷ rest) s = λ h. absurd (cc)

  walk_found-Removed :
      (found : Option (List (Bytes × TypeFlag))) (s : Server os)
      → (walk_found os entries found s).0 ≡ returned walk_ended
      → (es : List (Bytes × TypeFlag)) × (found ≡ some es)
        × Removed es s (walk_found os entries found s).1
  unfolding walk_found
  walk_found-Removed none s h = absurd (cc)
  walk_found-Removed (some es) s h = (es, refl, walk-Removed es s h)

  nftw-Removed :
      (dir : Bytes) (s s₁ : Server os)
      → nftw os entries dir s ≡ (returned walk_ended, s₁)
      → (es : List (Bytes × TypeFlag)) × (entries dir s.world ≡ some es) × Removed es s s₁
  unfolding nftw
  nftw-Removed dir s s₁ e =
      let (es, found, removed) = walk_found-Removed (entries dir s.world) s (ap (λ r. r.0) e) in
      (es, found, subst (λ t. Removed es s t) (ap (λ r. r.1) e) removed)

  abbrev Fails : Outcome ℕ × Server os → Type 0
  Fails r = r.0 ≢ returned 0

  walk_bits-nonzero : (w : Walked) (res : ℕ) → res ≢ 0 → walk_bits os entries w res ≢ 0
  unfolding walk_bits
  walk_bits-nonzero walk_ended res h = h
  walk_bits-nonzero walk_stopped res h = (set_bit-nonzero res).1
  walk_bits-nonzero walk_fails res h = (set_bit-nonzero res).0

  -- What follows `remake`: nothing was to be made, the directory was made, or a bit is set.
  remake_cases :
      (P : Outcome ℕ × Server os → Type 0) (dir : Bytes) (res : ℕ) (f : ℕ → M os ℕ) (s : Server os)
      → (ends_with_slash dir ≡ false → P (f res s))
      → (ends_with_slash dir ≡ true
          → (os.mkdir dir 0o755 s.world).0 ≡ pos 0
          → P (f res (after s (os.mkdir dir 0o755 s.world).1)))
      → ((r : ℕ) → r ≢ 0 → P (f r (after s (os.mkdir dir 0o755 s.world).1)))
      → P ((remake os entries dir res >>= f) s)
  unfolding remake
  remake_cases P dir res f s plain made failed =
      let ret = (os.mkdir dir 0o755 s.world).0 in
      let s' = after s (os.mkdir dir 0o755 s.world).1 in
      if_cases (λ (m : M os ℕ). P ((m >>= f) s)) (ends_with_slash dir) _ (pure res)
        (λ slash.
          if_cases (λ r. P (f r s')) (ret ==ℤ pos 0) res (set_bit res 4)
            (λ e. made slash ((==ℤ_iff ret (pos 0)).0 e))
            (λ _. failed (set_bit res 4) (set_bit-nonzero res).2))
        plain

  -- Once a bit is set, the exit code is not 0.
  wipe_all-Fails :
      (dirs : List Bytes) (res : ℕ) (s : Server os)
      → res ≢ 0
      → Fails (wipe_all os entries dirs res s)
  unfolding wipe_all
  wipe_all-Fails [] res s h = λ e. h (cc)
  wipe_all-Fails (dir ∷ dirs) res s h =
      let last : Walked → ℕ → M os ℕ =
        λ w res'. wipe_all os entries dirs (walk_bits os entries w res') in
      bind_cases Fails (nftw os entries dir) (λ w. remake os entries dir res >>= last w) s
        (λ w s₁ _.
          let go : (r : ℕ) (t : Server os) → r ≢ 0 → Fails (last w r t) =
            λ r t n. wipe_all-Fails dirs (walk_bits os entries w r) t (walk_bits-nonzero w r n) in
          remake_cases Fails dir res (last w) s₁ (λ _. go res s₁ h) (λ _ _. go res _ h)
            (λ r n. go r _ n))
        (λ s₁ _ e. cc)

  abbrev Succeeds : List Bytes → Server os → Outcome ℕ × Server os → Type 0
  Succeeds dirs s r = r.0 ≡ returned 0 → Wiped dirs s r.1

  -- The rest of a round behind a walk.
  walked :
      (dir : Bytes) (dirs : List Bytes) (s s₁ : Server os) (w : Walked)
      → nftw os entries dir s ≡ (returned w, s₁)
      → ((t : Server os) → Succeeds dirs t (wipe_all os entries dirs 0 t))
      → Succeeds (dir ∷ dirs) s (
          (remake os entries dir 0 >>= λ res'.
          wipe_all os entries dirs (walk_bits os entries w res'))
            s₁)
  unfolding walk_bits
  walked dir dirs s s₁ walk_ended e ih =
      let (es, found, removed) = nftw-Removed dir s s₁ e in
      remake_cases (Succeeds (dir ∷ dirs) s) dir 0 (wipe_all os entries dirs) s₁
        (λ plain h. one_gone dir dirs es s s₁ _ found removed plain (ih s₁ h))
        (λ slash made h. one_remade dir dirs es s s₁ _ found removed slash made (ih _ h))
        (λ r n h. absurd (wipe_all-Fails dirs r _ n h))
  walked dir dirs s s₁ walk_stopped e ih =
      let rest : ℕ → M os ℕ = λ r. wipe_all os entries dirs (set_bit r 2) in
      let no : (r : ℕ) (t : Server os) → Succeeds (dir ∷ dirs) s (rest r t) =
        λ r t h. absurd (wipe_all-Fails dirs (set_bit r 2) t (set_bit-nonzero r).1 h) in
      remake_cases (Succeeds (dir ∷ dirs) s) dir 0 rest s₁ (λ _. no 0 s₁) (λ _ _. no 0 _)
        (λ r _. no r _)
  walked dir dirs s s₁ walk_fails e ih =
      let rest : ℕ → M os ℕ = λ r. wipe_all os entries dirs (set_bit r 1) in
      let no : (r : ℕ) (t : Server os) → Succeeds (dir ∷ dirs) s (rest r t) =
        λ r t h. absurd (wipe_all-Fails dirs (set_bit r 1) t (set_bit-nonzero r).0 h) in
      remake_cases (Succeeds (dir ∷ dirs) s) dir 0 rest s₁ (λ _. no 0 s₁) (λ _ _. no 0 _)
        (λ r _. no r _)

  wipe_all-Wiped :
      (dirs : List Bytes) (s : Server os) → Succeeds dirs s (wipe_all os entries dirs 0 s)
  unfolding wipe_all
  wipe_all-Wiped [] s = λ h. all_done s
  wipe_all-Wiped (dir ∷ dirs) s =
      bind_cases (Succeeds (dir ∷ dirs) s) (nftw os entries dir)
        (λ w. remake os entries dir 0 >>= λ res'.
          wipe_all os entries dirs (walk_bits os entries w res'))
        s (λ w s₁ e. walked dir dirs s s₁ w e (wipe_all-Wiped dirs)) (λ s₁ _ h. absurd (cc))

  -- `wipe` ends with the exit code 0 only if every directory that it was given was walked and each of
  -- its entries was removed, in the order of the walk, and if each one whose name ends with a slash
  -- was made again behind that.
  pub main-Wiped :
      (args : List Bytes) (s : Server os)
      → (main os entries args s).0 ≡ returned 0
      → Wiped args s (main os entries args s).1
  unfolding main
  main-Wiped [] s h = absurd (cc)
  main-Wiped (dir ∷ dirs) s h = wipe_all-Wiped (dir ∷ dirs) s h
