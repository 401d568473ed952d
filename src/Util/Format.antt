-- ===== src/Util/Format.antt =====
-- `format` and `vformat` of src/lib/util.cpp, on a text whose directives are expanded already.
use bacs_legacy.Base.{
  ap, zero, suc, ℕ, ◌-◌, ◌^◌, ◌≤◌, ◌<◌, ◌≡◌, refl, [], ◌∷◌, Bytes, ◌==◌, if◌then◌else◌, length,
  take, length-take, arith,
}

-- `1 << 16 + 1` is `1 << 17`.
abbrev pub max_big_buf : ℕ
max_big_buf = 2 ^ 17

-- What `%s` prints of a string: its bytes up to the first zero.
unfoldable pub c_str : Bytes → Bytes
c_str [] = []
c_str (c ∷ s) = if c == 0 then [] else c ∷ c_str s

-- `vsnprintf` writes at most the size of the buffer less one, and the string is read back from it.
unfoldable pub format : Bytes → Bytes
format expanded = take (max_big_buf - 1) expanded

pub length-format : (s : Bytes) → length (format s) < max_big_buf
unfolding format
length-format s = omega (arith, length-take {0} (max_big_buf - 1) s)

take_all : (n : ℕ) (s : Bytes) → length s ≤ n → take n s ≡ s
take_all zero [] h = refl
take_all (suc n) [] h = refl
take_all zero (c ∷ s) h = absurd (omega arith)
take_all (suc n) (c ∷ s) h = ap (λ r. c ∷ r) (take_all n s (omega arith))

-- A text that fits into the buffer is not cut.
format_id : (s : Bytes) → length s < max_big_buf → format s ≡ s
unfolding format
format_id s h = take_all (max_big_buf - 1) s (omega arith)
