-- ===== src/IoName.antt =====
-- `check_iofile_name` of src/lib/common.cpp: the names that a problem may give its input and output
-- files.
use bacs_legacy.Base.{
  ℕ, suc, ◌+◌, ◌≤◌, ◌≡◌, Bool, true, false, ◌&&◌, ◌||◌, [], ◌∷◌, Bytes, leb, ◌==◌, if◌then◌else◌,
  all, arith,
}

-- The bytes that the loop passes over.
abbrev pub is_plain : ℕ → Bool
is_plain c =
    (leb b'0' c && leb c b'9')
    || (leb b'a' c && leb c b'z')
    || (leb b'A' c && leb c b'Z')
    || c == b'_'

abbrev dot : ℕ
dot = b'.'

-- The loop, with the dots that it has counted.
check_bytes : Bytes → ℕ → Bool
check_bytes [] dot_cnt = true
check_bytes (c ∷ fn) dot_cnt =
    let next = check_bytes fn dot_cnt in
    let next_dot = check_bytes fn (dot_cnt + 1) in
    if is_plain c
    then next
    else if c == dot
    then (if dot_cnt + 1 == 2 then false else next_dot)
    else false

unfoldable pub check_iofile_name : Bytes → Bool
unfolding check_bytes
check_iofile_name fn = check_bytes fn 0

-- How often a byte stands in a text.
abbrev pub count : ℕ → Bytes → ℕ
count c [] = 0
count c (a ∷ s) = if a == c then suc (count c s) else count c s

abbrev pub is_allowed : ℕ → Bool
is_allowed c = is_plain c || c == dot

check_bytes-count :
    (fn : Bytes) (dot_cnt : ℕ)
    → dot_cnt ≤ 1
    → check_bytes fn dot_cnt ≡ (all is_allowed fn && leb (dot_cnt + count dot fn) 1)
unfolding check_bytes
check_bytes-count [] d h = ground arith
check_bytes-count (c ∷ fn) d h =
    ground (arith, check_bytes-count fn d, check_bytes-count fn (d + 1))

-- A name is accepted exactly when it has only letters, digits, underscores and dots, and at most
-- one dot.
pub check_iofile_name-count :
    (fn : Bytes) → check_iofile_name fn ≡ (all is_allowed fn && leb (count dot fn) 1)
unfolding check_iofile_name
check_iofile_name-count fn = ground (arith, check_bytes-count fn 0)
