-- ===== src/Bacsd/Loop/Gone.antt =====
-- The loop of src/bin/bacsd.cpp over the submissions removes its temporary files.
use bacs_legacy.Base.{List, Bytes}
use bacs_legacy.Double.{Double}
use bacs_legacy.System.{Os, Server}
use bacs_legacy.System.Triples.{View, Keeps}
use bacs_legacy.Config.{Settings}
use bacs_legacy.TempFile.Trace.{IsTempName, FileCall, Traces}
use bacs_legacy.TempFile.Gone.{gone}
use bacs_legacy.Run.Fio.Steps.{Apart}
use bacs_legacy.Bacsd.Loop.{Memory}

module _ (os : Os) (d : Double) (c : Settings) (memory : Server os → Memory d)
    (calls : os.World → List FileCall) (traces : Traces os calls) (x : Bytes)
    (temp : IsTempName os c x) (apart : Apart os c (gone os calls x)) where
  abbrev XGone : View os → Type 0
  XGone = (gone os calls x).holds
