-- ===== src/TempFile/Gone.antt =====
-- The fact that no file with the name of a temporary file is left to remove.
use bacs_legacy.Base.{◌≡◌, ◌∙◌, ap, refl, Bool, true, false, List, ◌∷◌, Bytes, ◌=ₛ◌, if◌then◌else◌}
use bacs_legacy.System.{Os}
use bacs_legacy.System.Triples.{View}
use bacs_legacy.System.Facts.{Fact, Stable, Elsewhere}
use bacs_legacy.Config.{Settings}
use bacs_legacy.TempFile.Trace.{
  IsTempName, FileCall, wrote, removed, left, Traces, last, other_name,
}

module _ (os : Os) (calls : os.World → List FileCall) (x : Bytes) where
  abbrev pub gone : Fact os
  gone = record { about = λ fn. fn =ₛ x; holds = λ v. left x (calls v.1) ≡ false }

  pub kept :
      (v : View os) (w : os.World)
      → calls w ≡ calls v.1
      → left x (calls v.1) ≡ false
      → left x (calls w) ≡ false
  kept v w e h = ap (left x) e ∙ h

  written :
      (fn : Bytes) (v : View os) (w : os.World)
      → (fn =ₛ x) ≡ false
      → calls w ≡ wrote fn ∷ calls v.1
      → left x (calls v.1) ≡ false
      → left x (calls w) ≡ false
  written fn v w n e h = ap (left x) e ∙ rw n h

  erased :
      (fn : Bytes) (v : View os) (w : os.World)
      → calls w ≡ removed fn ∷ calls v.1
      → left x (calls v.1) ≡ false
      → left x (calls w) ≡ false
  erased fn v w e h = ap (left x) e ∙ stays (fn =ₛ x)
    where
      stays : (b : Bool) → (if b then false else left x (calls v.1)) ≡ false
      stays true = refl
      stays false = h

  pub gone-Stable : Traces os calls → Stable os gone
  gone-Stable traces = record {
    removed = λ fn v same. ap (left x) (traces.remove fn v.1) ∙ rw same refl;
    remove_kept = λ fn v. erased fn v _ (traces.remove fn v.1);
    write_kept = λ fn text n v w e. written fn v w n (traces.write_file fn text v.1 w e);
    copy_kept = λ from to n v w e. written to v w n (traces.copy_file from to v.1 w e);
    rename_kept = λ from to n v. written to v _ n (traces.rename from to v.1);
    system_kept = λ cmd v. kept v _ (traces.system cmd v.1);
    chmod_kept = λ fn mode v. kept v _ (traces.chmod fn mode v.1);
    unlink_kept = λ fn v. erased fn v _ (traces.unlink fn v.1);
    random_kept = λ v. kept v _ (traces.random v.1);
    rand_kept = λ v. kept v _ (traces.rand v.1);
    clock_kept = λ v. kept v _ (traces.clock v.1);
    wait_signal_kept = λ sec nsec v. kept v _ (traces.wait_signal sec nsec v.1);
    query_kept = λ q n v. kept v _ (traces.query q v.1);
    create_directories_kept = λ fn v w e. kept v w (traces.create_directories fn v.1 w e);
    remove_all_kept = λ fn v w e. kept v w (traces.remove_all fn v.1 w e);
    extract_kept = λ archive dir v w e. kept v w (traces.extract archive dir v.1 w e);
  }

  pub gone-Elsewhere : (c : Settings) → IsTempName os c x → Elsewhere os gone last
  gone-Elsewhere c temp = other_name os c x temp
