-- ===== src/Util/Number/RoundTrip.antt =====
-- Reading back what was printed.
use bacs_legacy.Base.{
  Bool-cases, ◌=ₛ◌, sym, ◌∙◌, inl, inr, ℕ, zero, suc, ◌+◌, ◌/◌, ◌%◌, ◌<◌, ◌≡◌, ◌≢◌, refl, true,
  false, some, [], ◌∷◌, ◌++◌, Bytes, ltb, ℤ, pos, negsuc, to_int, IsInt, to_int_id, arith,
  append-nil,
}
use bacs_legacy.Util.Split.{Lacks}
use bacs_legacy.Util.Number.{
  scan_int, digits, print_ℕ, i2s, is_space, is_digit, read_digits, scan_ℕ, scan_signed, skip_space,
  s2i,
}

-- The digits of `n` are read back in front of any text.
read_digits-digits :
    (fuel n : ℕ) (out : Bytes) → n < fuel → read_digits (digits fuel n out) 0 ≡ read_digits out n
unfolding digits read_digits
read_digits-digits zero n out h = elim h [ ]
read_digits-digits (suc fuel) n out h =
    ground (arith, read_digits-digits fuel (n / 10) ((b'0' + n % 10) ∷ out))

-- A printed number begins with a digit.
abbrev BeginsDigit : Bytes → Type 0
BeginsDigit t = (c : ℕ) × (s : Bytes) × (t ≡ c ∷ s) × (is_digit c ≡ true)

digits-BeginsDigit : (fuel n : ℕ) (out : Bytes) → n < fuel → BeginsDigit (digits fuel n out)
unfolding digits
digits-BeginsDigit zero n out h = elim h [ ]
digits-BeginsDigit (suc fuel) n out h = elim (Bool-cases (ltb n 10)) [
  | inl small ↦ (b'0' + n, out, rw small, ground arith)
  | inr large ↦ rw large (digits-BeginsDigit fuel (n / 10) ((b'0' + n % 10) ∷ out) (ground arith))
]

-- What may stand behind a number so that it ends there.
abbrev pub Ends : Bytes → Type 0
Ends [] = Unit
Ends (c ∷ s) = is_digit c ≡ false

digits-append :
    (fuel n : ℕ) (out rest : Bytes) → digits fuel n out ++ rest ≡ digits fuel n (out ++ rest)
unfolding digits
digits-append zero n out rest = refl
digits-append (suc fuel) n out rest =
    ground (arith, digits-append fuel (n / 10) ((b'0' + n % 10) ∷ out) rest)

read_digits_end : (rest : Bytes) (n : ℕ) → Ends rest → read_digits rest n ≡ (n, rest)
unfolding read_digits
read_digits_end [] n h = refl
read_digits_end (c ∷ s) n h = ground arith

module _ (n : ℕ) (rest : Bytes) where
  print_ℕ-BeginsDigit : BeginsDigit (print_ℕ n ++ rest)
  unfolding print_ℕ
  print_ℕ-BeginsDigit =
      rw (digits-append (suc n) n [] rest) (digits-BeginsDigit (suc n) n rest (omega arith))

  skip_space-print_ℕ : skip_space (print_ℕ n ++ rest) ≡ print_ℕ n ++ rest
  unfolding skip_space
  skip_space-print_ℕ = let (c, s, e, d) = print_ℕ-BeginsDigit in ground arith

  module _ (h : Ends rest) where
    read_digits-print_ℕ : read_digits (print_ℕ n ++ rest) 0 ≡ (n, rest)
    unfolding print_ℕ
    read_digits-print_ℕ =
        rw (digits-append (suc n) n [] rest)
          (read_digits-digits (suc n) n rest (omega arith) ∙ read_digits_end rest n h)

    scan_ℕ-print_ℕ : scan_ℕ (print_ℕ n ++ rest) ≡ some (n, rest)
    unfolding scan_ℕ
    scan_ℕ-print_ℕ = let (c, s, e, d) = print_ℕ-BeginsDigit in ground (arith, read_digits-print_ℕ)

    scan_signed-print_ℕ : scan_signed (print_ℕ n ++ rest) ≡ some (to_int (pos n), rest)
    unfolding scan_signed
    scan_signed-print_ℕ = let (c, s, e, d) = print_ℕ-BeginsDigit in ground (arith, scan_ℕ-print_ℕ)

-- A printed number is read back, and what stands behind it is left.
pub scan_int-i2s :
    (a : ℤ) (rest : Bytes) → IsInt a → Ends rest → scan_int (i2s a ++ rest) ≡ some (a, rest)
unfolding scan_int i2s
scan_int-i2s (pos n) rest h k =
    ground (arith, skip_space-print_ℕ n rest, scan_signed-print_ℕ n rest k, to_int_id (pos n) h)
scan_int-i2s (negsuc n) rest h k =
    ground (arith, scan_ℕ-print_ℕ (suc n) rest k, to_int_id (negsuc n) h)

digits-Lacks :
    (c : ℕ)
    → is_digit c ≡ false
    → (fuel n : ℕ) (out : Bytes) → Lacks c out
    → Lacks c (digits fuel n out)
unfolding digits
digits-Lacks c d zero n out h = h
digits-Lacks c d (suc fuel) n out h = elim (Bool-cases (ltb n 10)) [
  | inl small ↦ rw small (ground arith, h)
  | inr large ↦ rw large (digits-Lacks c d fuel (n / 10) ((b'0' + n % 10) ∷ out) (ground arith, h))
]

-- A printed number has digits and a minus sign, and nothing else.
pub i2s-Lacks : (a : ℤ) (c : ℕ) → c ≢ b'-' → is_digit c ≡ false → Lacks c (i2s a)
unfolding i2s print_ℕ
i2s-Lacks (pos n) c m d = digits-Lacks c d (suc n) n [] tt
i2s-Lacks (negsuc n) c m d = ((λ e. m (sym e)), digits-Lacks c d (suc (suc n)) (suc n) [] tt)

-- A printed number is not empty, nor is what ends in one.
pub append-i2s_nonempty : (s : Bytes) (a : ℤ) → (s ++ i2s a =ₛ []) ≡ false
unfolding i2s
append-i2s_nonempty [] (pos n) =
    let (c, t, e, d) = print_ℕ-BeginsDigit n [] in
    let q : print_ℕ n ≡ c ∷ t = cc (e, append-nil (print_ℕ n)) in rw q
append-i2s_nonempty [] (negsuc n) = refl
append-i2s_nonempty (b ∷ s) a = refl

-- Whitespace in front of a number is skipped.
pub scan_int-space : (c : ℕ) (s : Bytes) → is_space c ≡ true → scan_int (c ∷ s) ≡ scan_int s
unfolding scan_int
scan_int-space c s h = ground arith

-- Every `int` is read back from its decimal print, whatever the default.
pub s2i-i2s : (a d : ℤ) → IsInt a → s2i (i2s a) d ≡ a
unfolding s2i
s2i-i2s a d h = rw (← append-nil (i2s a)) (ground (arith, scan_int-i2s a [] h tt))

-- An empty text, or one that begins with a byte which is no blank, no sign and no digit, leaves the
-- default.
pub s2i_default :
    (c : ℕ) (s : Bytes) (d : ℤ)
    → is_space c ≡ false
    → is_digit c ≡ false
    → c ≢ b'-'
    → c ≢ b'+'
    → (s2i [] d ≡ d) × (s2i (c ∷ s) d ≡ d)
unfolding s2i
s2i_default c s d h k m p = (refl, ground arith)
