-- ===== src/Util/Number.antt =====
-- `i2s` and `s2i` of src/lib/util.cpp: `sprintf("%d")` and `sscanf("%d")`.
pub mod RoundTrip
use bacs_legacy.Base.{
  ℕ, zero, suc, ◌+◌, ◌-◌, ◌*◌, ◌/◌, ◌%◌, Bool, true, false, ◌&&◌, ◌||◌, Option, none, some, List,
  [], ◌∷◌, Bytes, ltb, leb, ◌==◌, if◌then◌else◌, ℤ, pos, negsuc, neg_ℕ, to_int,
}

-- The decimal digits of `n`, in front of `out`. A number has at most as many digits as its value
-- and one more, which is the fuel.
digits : ℕ → ℕ → Bytes → Bytes
digits zero n out = out
digits (suc fuel) n out =
    let more = digits fuel (n / 10) ((b'0' + n % 10) ∷ out) in
    if ltb n 10 then (b'0' + n) ∷ out else more

pub print_ℕ : ℕ → Bytes
unfolding digits
print_ℕ n = digits (suc n) n []

unfoldable pub i2s : ℤ → Bytes
unfolding print_ℕ
i2s (pos n) = print_ℕ n
i2s (negsuc n) = b'-' ∷ print_ℕ (suc n)

-- The whitespace that `%d` skips.
unfoldable pub is_space : ℕ → Bool
is_space c = c == b' ' || (leb 9 c && leb c 13)

abbrev pub is_digit : ℕ → Bool
is_digit c = leb b'0' c && leb c b'9'

-- The digits at the front, behind the number that was read so far, and the rest of the text.
read_digits : Bytes → ℕ → ℕ × Bytes
read_digits [] n = (n, [])
read_digits (c ∷ s) n =
    let more = read_digits s (n * 10 + (c - b'0')) in if is_digit c then more else (n, c ∷ s)

-- There is no conversion unless a digit comes first.
scan_ℕ : Bytes → Option (ℕ × Bytes)
unfolding read_digits
scan_ℕ [] = none
scan_ℕ (c ∷ s) = if is_digit c then some (read_digits (c ∷ s) 0) else none

abbrev with_sign : (ℕ → ℤ) → Option (ℕ × Bytes) → Option (ℤ × Bytes)
with_sign sign none = none
with_sign sign (some (n, rest)) = some (to_int (sign n), rest)

scan_signed : Bytes → Option (ℤ × Bytes)
unfolding scan_ℕ
scan_signed [] = none
scan_signed (c ∷ s) =
    if c == b'-'
    then with_sign neg_ℕ (scan_ℕ s)
    else if c == b'+'
    then with_sign pos (scan_ℕ s)
    else with_sign pos (scan_ℕ (c ∷ s))

skip_space : Bytes → Bytes
unfolding is_space
skip_space [] = []
skip_space (c ∷ s) = if is_space c then skip_space s else c ∷ s

-- One conversion `%d`: the number and the rest of the text. A number outside of `int` is reduced to
-- 32 bits, as a conversion through `long` does; the standard leaves this case undefined.
unfoldable pub scan_int : Bytes → Option (ℤ × Bytes)
unfolding scan_signed skip_space
scan_int s = scan_signed (skip_space s)

unfoldable pub s2i : Bytes → ℤ → ℤ
unfolding scan_int
s2i s default_value = elim (scan_int s) [ none ↦ default_value | some (x, rest) ↦ x ]
