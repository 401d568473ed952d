-- ===== src/Util.antt =====
-- The string helpers of src/lib/util.cpp: `parse_str`, `is_whitespace`, `trim`, `str_lowercase`, and
-- the parts of a file's name. The other helpers are in the modules below.
pub mod Split
pub mod Paths
pub mod Format
pub mod Number
pub mod Replace
use bacs_legacy.Base.{
  ℕ, zero, suc, ◌+◌, ◌-◌, Bool, true, false, ◌&&◌, ◌||◌, Option, none, some, List, [], ◌∷◌, ◌++◌,
  map, Bytes, ◌==◌, ltb, leb, if◌then◌else◌, length, take, drop, get_elem?, substr, find_byte,
  find_last_byte,
}

-- `get_time_str`; the argument is the text of the local time that `asctime` gives, whose last byte, a
-- line feed, is cut off.
pub get_time_str : Bytes → Bytes
get_time_str asctime = take (length asctime - 1) asctime

-- The two strings that `parse_str` assigns.
unfoldable pub parse_str : Bytes → ℕ → Bytes × Bytes
parse_str s x = elim (find_byte x s) [ none ↦ (s, []) | some p ↦ (substr s 0 p, drop (p + 1) s) ]

unfoldable pub is_whitespace : ℕ → Bool
is_whitespace c = c == b' ' || c == b'\t' || c == b'\n' || c == b'\r'

-- `while (x < s.length() && is_whitespace(s[x])) ++x;`: the rounds, on the part of `s` from `x`
count_front : Bytes → ℕ
count_front [] = 0
count_front (c ∷ s) = if is_whitespace c then suc (count_front s) else 0

-- Is there whitespace at an index?
whitespace_at : Bytes → ℕ → Bool
unfolding is_whitespace
whitespace_at s i = elim (get_elem? s i) [ none ↦ false | some c ↦ is_whitespace c ]

-- `while (y >= 0 && is_whitespace(s[y])) --y;`: the argument and the result are `y + 1`
find_back : Bytes → ℕ → ℕ
unfolding whitespace_at
find_back s zero = 0
find_back s (suc y) = if whitespace_at s y then find_back s y else suc y

pub trim : Bytes → Bytes
unfolding count_front find_back
trim s =
    let x = count_front s in
    let y = find_back s (length s) in if ltb x y then substr s x (y - x) else []

-- `tolower` in the "C" locale, which `init_env` of src/bin/bacsd.cpp sets
abbrev pub to_lower : ℕ → ℕ
to_lower c = if leb b'A' c && leb c b'Z' then c + 32 else c

unfoldable pub str_lowercase : Bytes → Bytes
str_lowercase s = map to_lower s

unfoldable pub dir_from_filename : Bytes → Bytes
dir_from_filename fn = elim (find_last_byte b'/' fn) [ some k ↦ substr fn 0 k | none ↦ fn ]

unfoldable pub name_from_filename : Bytes → Bytes
name_from_filename fn = elim (find_last_byte b'/' fn) [ some k ↦ drop (k + 1) fn | none ↦ fn ]
