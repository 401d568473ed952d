-- ===== src/Util/Split.antt =====
-- `parse_str` cuts a text at the first separator.
use bacs_legacy.Base.{
  ℕ, suc, ◌+◌, ◌≡◌, ◌≢◌, refl, none, some, [], ◌∷◌, ◌++◌, Bytes, length, All, arith, find_byte,
  drop, take-length-append,
}
use bacs_legacy.Util.{parse_str}

abbrev pub Lacks : ℕ → Bytes → Type 0
Lacks c = All (λ a. a ≢ c)

pub find_byte-Lacks : (c : ℕ) (s : Bytes) → Lacks c s → find_byte c s ≡ none
find_byte-Lacks c [] h = refl
find_byte-Lacks c (a ∷ s) h = ground (arith, find_byte-Lacks c s h.1)

find_byte-append : (c : ℕ) (s t : Bytes) → Lacks c s → find_byte c (s ++ c ∷ t) ≡ some (length s)
find_byte-append c [] t h = ground arith
find_byte-append c (a ∷ s) t h = ground (arith, find_byte-append c s t h.1)

-- drop (k + 1) skips a prefix of length k and one more byte.
pub drop-past : (s : Bytes) (c : ℕ) (t : Bytes) → drop (length s + 1) (s ++ c ∷ t) ≡ t
drop-past [] c t = refl
drop-past (a ∷ s) c t =
    let e : suc (length s) + 1 ≡ suc (length s + 1) = omega arith in rw e (drop-past s c t)

-- A text with no separator is kept whole, and the second string is empty.
pub parse_str_whole : (s : Bytes) (x : ℕ) → Lacks x s → parse_str s x ≡ (s, [])
unfolding parse_str
parse_str_whole s x h = rw (find_byte-Lacks x s h, parse_str)

-- The parts of a text that was joined with a separator come back, if the first part has none.
pub parse_str-append : (s t : Bytes) (x : ℕ) → Lacks x s → parse_str (s ++ x ∷ t) x ≡ (s, t)
unfolding parse_str
parse_str-append s t x h =
    rw (find_byte-append x s t h, parse_str, take-length-append s (x ∷ t), drop-past s x t)
