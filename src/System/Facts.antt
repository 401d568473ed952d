-- ===== src/System/Facts.antt =====
-- Facts of the world that the calls of the system leave true.
use bacs_legacy.Base.{ℕ, ◌≡◌, ◌≢◌, Bool, true, false, ◌∷◌, ◌++◌, Bytes, codes, begins, some}
use bacs_legacy.System.{Os, M}
use bacs_legacy.System.Triples.{View, Keeps}

-- A fact of the world, and the names of the files that it is about.
pub record Fact (os : Os) : Type 1 where
  pub about : Bytes → Bool
  pub holds : View os → Type 0

-- The queries that change the table of the submissions.
abbrev pub is_update : Bytes → Bool
is_update q = begins q (codes "update")

-- The calls of the system leave a fact true, but for those that write to a file that it is about, and
-- for the updates of the database; and it is true when such a file has been removed.
pub record Stable (os : Os) (x : Fact os) : Type 1 where
  pub removed : (fn : Bytes) (v : View os) → x.about fn ≡ true → x.holds (v.0, (os.remove fn v.1).1)
  pub remove_kept : (fn : Bytes) (v : View os) → x.holds v → x.holds (v.0, (os.remove fn v.1).1)
  pub write_kept :
      (fn text : Bytes)
      → x.about fn ≡ false
      → (v : View os) (w : os.World) → os.write_file fn text v.1 ≡ some w
      → x.holds v
      → x.holds (v.0, w)
  pub copy_kept :
      (from to : Bytes)
      → x.about to ≡ false
      → (v : View os) (w : os.World) → os.copy_file from to v.1 ≡ some w
      → x.holds v
      → x.holds (v.0, w)
  pub rename_kept :
      (from to : Bytes)
      → x.about to ≡ false
      → (v : View os) → x.holds v
      → x.holds (v.0, (os.rename from to v.1).1)
  pub system_kept : (cmd : Bytes) (v : View os) → x.holds v → x.holds (v.0, (os.system cmd v.1).1)
  pub chmod_kept :
      (fn : Bytes) (mode : ℕ) (v : View os) → x.holds v → x.holds (v.0, (os.chmod fn mode v.1).1)
  pub unlink_kept : (fn : Bytes) (v : View os) → x.holds v → x.holds (v.0, (os.unlink fn v.1).1)
  pub random_kept : (v : View os) → x.holds v → x.holds (v.0, (os.random v.1).1)
  pub rand_kept : (v : View os) → x.holds v → x.holds (v.0, (os.rand v.1).1)
  pub clock_kept : (v : View os) → x.holds v → x.holds (v.0, (os.clock v.1).1)
  pub wait_signal_kept :
      (sec nsec : ℕ) (v : View os) → x.holds v → x.holds (v.0, (os.wait_signal sec nsec v.1).1)
  pub query_kept :
      (q : Bytes)
      → is_update q ≡ false
      → (v : View os) → x.holds v
      → x.holds (v.0, (os.query q v.1).1)
  pub create_directories_kept :
      (fn : Bytes) (v : View os) (w : os.World)
      → os.create_directories fn v.1 ≡ some w
      → x.holds v
      → x.holds (v.0, w)
  pub remove_all_kept :
      (fn : Bytes) (v : View os) (w : os.World)
      → os.remove_all fn v.1 ≡ some w
      → x.holds v
      → x.holds (v.0, w)
  pub extract_kept :
      (archive destination : Bytes) (v : View os) (w : os.World)
      → os.extract archive destination v.1 ≡ some w
      → x.holds v
      → x.holds (v.0, w)

module _ (os : Os) (x : Fact os) where
  -- An action that leaves the fact true.
  abbrev pub Quiet : {A : Type 0} → M os A → Type 0
  Quiet m = Keeps os x.holds m

  -- The fact is about no file of a protocol: their names do not end like `.tmp`.
  abbrev pub Elsewhere : (Bytes → ℕ) → Type 0
  Elsewhere last =
      (dir name : Bytes) → last (b'/' ∷ name) ≢ b'p' → x.about (dir ++ (codes "/" ++ name)) ≡ false

-- A property of the world that an action keeps when the action leaves every stable fact true.
abbrev pub Lasting : (os : Os) → (View os → Type 0) → Type 1
Lasting os P =
    (A : Type 0) (m : M os A) → ((x : Fact os) → Stable os x → Quiet os x m) → Keeps os P m
