-- ===== src/Examples/Helping.antt =====
-- The helpers on the small machine.
use bacs_legacy.Base.{◌≡◌, refl, Option, some, List, Bytes, [], ◌∷◌, codes}
use bacs_legacy.System.{Server, returned}
use bacs_legacy.Helpers.JavaCompile.{main}
use bacs_legacy.Helpers.Wipe.{TypeFlag, ftw_f, ftw_dp}
use bacs_legacy.Helpers.Wipe.Done.{Wiped, main-Wiped}
use bacs_legacy.Examples.Machine.{Machine, machine, with_script}

abbrev idle : Server machine
idle = with_script []

compiled : (main machine (codes "prog" ∷ codes "Main.java" ∷ []) idle).0 ≡ returned 0
unfolding main
compiled = refl

-- A directory with a file, which is removed first.
abbrev listed : Bytes → Machine → Option (List (Bytes × TypeFlag))
listed dir w = some ((codes "d/f", ftw_f) ∷ (codes "d", ftw_dp) ∷ [])

wiped : (bacs_legacy.Helpers.Wipe.main machine listed (codes "d/" ∷ []) idle).0 ≡ returned 0
unfolding bacs_legacy.Helpers.Wipe.main
wiped = refl

main-Wiped_example :
    Wiped machine listed
      (codes "d/" ∷ [])
      idle
      (bacs_legacy.Helpers.Wipe.main machine listed (codes "d/" ∷ []) idle).1
main-Wiped_example = main-Wiped machine listed (codes "d/" ∷ []) idle wiped
