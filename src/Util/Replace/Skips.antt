-- ===== src/Util/Replace/Skips.antt =====
-- Where `news` is shorter than `subs`, the next search starts too far to the right.
use bacs_legacy.Base.{
  ℕ, suc, ◌≡◌, ◌<◌, refl, true, false, none, some, [], ◌∷◌, ◌++◌, Bytes, length, drop, find_bytes,
  begins, length-append, length-drop, arith, drop-length-append,
}
use bacs_legacy.Util.Replace.{find_from, replace_at, replace_loop, str_replace}

begins-append : (t s : Bytes) → begins (t ++ s) t ≡ true
begins-append [] s = refl
begins-append (b ∷ t) s = ground (arith, begins-append t s)

find_bytes-here : (t s : Bytes) → find_bytes t (t ++ s) ≡ some 0
find_bytes-here [] [] = refl
find_bytes-here [] (a ∷ s) = refl
find_bytes-here (b ∷ t) s = ground (arith, begins-append (b ∷ t) s)

-- A text that is too short has no occurrence.
begins-short : (s t : Bytes) → length s < length t → begins s t ≡ false
begins-short s [] h = absurd (omega arith)
begins-short [] (b ∷ t) h = refl
begins-short (a ∷ s) (b ∷ t) h = ground (arith, begins-short s t)

find_bytes-short : (t s : Bytes) → length s < length t → find_bytes t s ≡ none
find_bytes-short t [] h = ground (arith, begins-short [] t)
find_bytes-short t (a ∷ s) h = ground (arith, begins-short (a ∷ s) t, find_bytes-short t s)

-- In a text that is exactly two occurrences of `subs`, side by side, only the first one is replaced
-- when the replacement is shorter than `subs`: the second one is left as it is.
pub str_replace_skips :
    (fuel : ℕ) (subs news : Bytes)
    → length news < length subs
    → str_replace (suc (suc fuel)) (subs ++ subs) subs news ≡ some (news ++ subs)
unfolding str_replace replace_loop find_from replace_at
str_replace_skips fuel subs news h = ground (
  arith,
  find_bytes-here subs subs,
  drop-length-append subs subs,
  length-append news subs,
  length-drop (length subs) (news ++ subs),
  find_bytes-short subs (drop (length subs) (news ++ subs)),
)
