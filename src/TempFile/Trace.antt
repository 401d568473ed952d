-- ===== src/TempFile/Trace.antt =====
-- The names of temporary files, and the calls that make and remove files: `x` is one name of a file,
-- and the theorems hold for every name that `gen_unique_filename` may make.
use bacs_legacy.Base.{
  ℕ, ◌≡◌, ◌≢◌, refl, sym, ◌∙◌, Bool, true, false, Bool-cases, inl, inr, some, List, [], ◌∷◌, ◌++◌,
  Bytes, codes, ◌=ₛ◌, =ₛ_iff, ap, if◌then◌else◌,
}
use bacs_legacy.System.{Os}
use bacs_legacy.Config.{Settings, cfg}
use bacs_legacy.TempFile.{in_temp_dir}

-- The names of temporary files.
abbrev pub IsTempName : Os → Settings → Bytes → Type 0
IsTempName os c x = (s : Bytes) × (x ≡ in_temp_dir os c s)

-- The calls of the server that make or remove a file with a given name; `wrote` is for the name that
-- a text is written to, and for the one that a file is copied or renamed to.
pub data FileCall : Type 0 where
  wrote : Bytes → FileCall
  removed : Bytes → FileCall

-- Is there a file `x` to remove? The latest call comes first.
abbrev pub left : Bytes → List FileCall → Bool
left x [] = false
left x (wrote fn ∷ cs) = if fn =ₛ x then true else left x cs
left x (removed fn ∷ cs) = if fn =ₛ x then false else left x cs

-- `calls` is the record of these calls, the latest one first; no other call is in it.
pub record Traces (os : Os) (calls : os.World → List FileCall) : Type 0 where
  pub write_file :
      (fn text : Bytes) (w w' : os.World)
      → os.write_file fn text w ≡ some w'
      → calls w' ≡ wrote fn ∷ calls w
  pub copy_file :
      (from to : Bytes) (w w' : os.World)
      → os.copy_file from to w ≡ some w'
      → calls w' ≡ wrote to ∷ calls w
  pub rename : (from to : Bytes) (w : os.World) → calls (os.rename from to w).1 ≡ wrote to ∷ calls w
  pub remove : (fn : Bytes) (w : os.World) → calls (os.remove fn w).1 ≡ removed fn ∷ calls w
  pub unlink : (fn : Bytes) (w : os.World) → calls (os.unlink fn w).1 ≡ removed fn ∷ calls w
  pub system : (cmd : Bytes) (w : os.World) → calls (os.system cmd w).1 ≡ calls w
  pub chmod : (fn : Bytes) (mode : ℕ) (w : os.World) → calls (os.chmod fn mode w).1 ≡ calls w
  pub random : (w : os.World) → calls (os.random w).1 ≡ calls w
  pub rand : (w : os.World) → calls (os.rand w).1 ≡ calls w
  pub clock : (w : os.World) → calls (os.clock w).1 ≡ calls w
  pub wait_signal : (sec nsec : ℕ) (w : os.World) → calls (os.wait_signal sec nsec w).1 ≡ calls w
  pub query : (q : Bytes) (w : os.World) → calls (os.query q w).1 ≡ calls w
  pub create_directories :
      (fn : Bytes) (w w' : os.World) → os.create_directories fn w ≡ some w' → calls w' ≡ calls w
  pub remove_all :
      (fn : Bytes) (w w' : os.World) → os.remove_all fn w ≡ some w' → calls w' ≡ calls w
  pub extract :
      (archive dir : Bytes) (w w' : os.World)
      → os.extract archive dir w ≡ some w'
      → calls w' ≡ calls w

unfoldable pub last : Bytes → ℕ
last [] = 0
last (a ∷ []) = a
last (a ∷ b ∷ s) = last (b ∷ s)

last-append : (s t : Bytes) (b : ℕ) → last (s ++ b ∷ t) ≡ last (b ∷ t)
unfolding last
last-append [] t b = refl
last-append (a ∷ []) t b = refl
last-append (a ∷ a' ∷ s) t b = last-append (a' ∷ s) t b

-- A name that does not end in the last letter of `.tmp` is no name of a temporary file.
pub other_name :
    (os : Os) (c : Settings) (x : Bytes)
    → IsTempName os c x
    → (dir name : Bytes) → last (b'/' ∷ name) ≢ b'p'
    → ((dir ++ (codes "/" ++ name)) =ₛ x) ≡ false
unfolding last
other_name os c x (s, e) dir name n = elim (Bool-cases ((dir ++ b'/' ∷ name) =ₛ x)) [
  | inl same ↦
      let q = (=ₛ_iff (dir ++ b'/' ∷ name) x).0 same ∙ e in
      let l =
        last-append (cfg c (codes "general.temp_dir")) (b'_' ∷ s ++ codes ".tmp") b'/'
        ∙ last-append (b'_' ∷ s) (codes "tmp") b'.' in
      absurd (n (sym (last-append dir name b'/') ∙ (ap last q ∙ l)))
  | inr other ↦ other
]
