-- ===== src/Util/Replace.antt =====
-- `str_replace` of src/lib/util.cpp. The search for the next occurrence starts `subs.length()`
-- behind the last one, in the text that has been changed already.
pub mod Reference
pub mod Skips
use bacs_legacy.Base.{
  ℕ, zero, suc, ◌+◌, ◌-◌, Option, none, some, List, [], ◌∷◌, ◌++◌, Bytes, ltb, if◌then◌else◌,
  length, take, drop, find_bytes,
}

-- s.find(subs, x): no position stands behind the end
find_from : Bytes → Bytes → ℕ → Option ℕ
find_from subs s x =
    if ltb (length s) x
    then none
    else elim (find_bytes subs (drop x s)) [ none ↦ none | some k ↦ some (x + k) ]

-- s.replace(k, n, news)
replace_at : Bytes → ℕ → ℕ → Bytes → Bytes
replace_at s k n news = take k s ++ (news ++ drop (k + n) s)

-- The loop; `none` means that the fuel ran out.
replace_loop : ℕ → Bytes → Bytes → Bytes → ℕ → Option Bytes
unfolding find_from replace_at
replace_loop zero subs news s x = none
replace_loop (suc fuel) subs news s x = elim (find_from subs s x) [
  | none ↦ some s
  | some k ↦ replace_loop fuel subs news (replace_at s k (length subs) news) (k + length subs)
]

-- On fuel: an empty `subs` is found for ever, and so may be one that comes back with `news`.
unfoldable pub str_replace : ℕ → Bytes → Bytes → Bytes → Option Bytes
unfolding replace_loop
str_replace fuel s subs news = replace_loop fuel subs news s 0
