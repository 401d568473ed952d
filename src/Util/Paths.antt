-- ===== src/Util/Paths.antt =====
-- The parts of a file's name.
use bacs_legacy.Base.{
  ℕ, ◌≡◌, refl, none, some, [], ◌∷◌, ◌++◌, Bytes, length, arith, find_last_byte, take-length-append,
}
use bacs_legacy.Util.{dir_from_filename, name_from_filename}
use bacs_legacy.Util.Split.{Lacks, drop-past}

find_last_byte-Lacks : (c : ℕ) (s : Bytes) → Lacks c s → find_last_byte c s ≡ none
find_last_byte-Lacks c [] h = refl
find_last_byte-Lacks c (a ∷ s) h = ground (arith, find_last_byte-Lacks c s h.1)

find_last_byte-append :
    (c : ℕ) (s t : Bytes) → Lacks c t → find_last_byte c (s ++ c ∷ t) ≡ some (length s)
find_last_byte-append c [] t h = ground (arith, find_last_byte-Lacks c t h)
find_last_byte-append c (a ∷ s) t h = ground (arith, find_last_byte-append c s t h)

-- A path that was put together from a directory and a name is taken apart into them again.
pub filename_parts :
    (dir nm : Bytes)
    → Lacks b'/' nm
    → (dir_from_filename (dir ++ b'/' ∷ nm) ≡ dir) × (name_from_filename (dir ++ b'/' ∷ nm) ≡ nm)
unfolding dir_from_filename name_from_filename
filename_parts dir nm h = (
  rw (find_last_byte-append b'/' dir nm h, dir_from_filename) (take-length-append dir (b'/' ∷ nm)),
  rw (find_last_byte-append b'/' dir nm h, name_from_filename) (drop-past dir b'/' nm),
)
