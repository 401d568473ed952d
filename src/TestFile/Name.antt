-- ===== src/TestFile/Name.antt =====
-- The number that is read from a name.
use bacs_legacy.Base.{ℕ, ◌≡◌, refl, [], ◌∷◌, ◌++◌, Bytes, ℤ, IsInt, arith}
use bacs_legacy.Util.Split.{Lacks, parse_str-append}
use bacs_legacy.Util.Paths.{filename_parts}
use bacs_legacy.Util.Number.{i2s}
use bacs_legacy.Util.Number.RoundTrip.{s2i-i2s, i2s-Lacks}
use bacs_legacy.Def.{invalid_id}
use bacs_legacy.TestFile.{parse_id}

Lacks-append : (c : ℕ) (s t : Bytes) → Lacks c s → Lacks c t → Lacks c (s ++ t)
Lacks-append c [] t h k = k
Lacks-append c (a ∷ s) t h k = (h.0, Lacks-append c s t h.1 k)

-- A file `DIR/N.EXT` is the test number N, for every `int` N and every extension without a slash.
pub parse_id-i2s :
    (dir ext : Bytes) (n : ℤ)
    → IsInt n
    → Lacks b'/' ext
    → parse_id (dir ++ b'/' ∷ (i2s n ++ b'.' ∷ ext)) ≡ n
unfolding parse_id
parse_id-i2s dir ext n h k =
    let named =
      (filename_parts dir (i2s n ++ b'.' ∷ ext) (
        Lacks-append b'/' (i2s n) (b'.' ∷ ext) (i2s-Lacks n b'/' (cc) refl)
          ((λ e. absurd (omega arith)), k))).1 in
    rw (named, parse_str-append (i2s n) ext b'.' (i2s-Lacks n b'.' (cc) refl))
      (s2i-i2s n invalid_id h)
