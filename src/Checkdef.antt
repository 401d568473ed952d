-- ===== src/Checkdef.antt =====
-- The default checker, src/bin/checkdef.cpp: it compares the output of a solution with the right
-- output, byte by byte, and its exit code is the verdict.
pub mod Verdict
pub mod Main
use bacs_legacy.Base.{
  ℕ, zero, suc, Bool, true, false, Option, none, some, List, [], ◌∷◌, Bytes, ◌==◌, if◌then◌else◌,
  length, codes, ◌||◌, ◌&&◌, not,
}

pub data ErrorCode : Type 0 where
  ok wa pe un : ErrorCode

-- What the process returns to the server.
unfoldable pub exit_code : ErrorCode → ℕ
exit_code ok = 0
exit_code wa = 2
exit_code pe = 4
exit_code un = 100

abbrev pub newline : ℕ
newline = b'\n'

abbrev pub carriage_return : ℕ
carriage_return = b'\r'

-- A `std::istream` over bytes. A read past the end sets the end-of-file and the fail bit at once.
pub record Stream : Type 0 where
  pub unread : Bytes
  pub eof : Bool

abbrev pub open_stream : Bytes → Stream
open_stream s = record { unread = s; eof = false }

abbrev at_end : Stream
at_end = record { unread = []; eof = true }

-- `s.putback(c)` of the byte that was read last
abbrev putback : ℕ → Stream → Stream
putback c s = record s { unread = c ∷ s.unread }

-- `while (in.get(c)) if (c != '\n' && c != '\r') return WA; return OK;`
check_bytes : Bytes → ErrorCode
check_bytes [] = ok
check_bytes (c ∷ s) = if not (c == newline) && not (c == carriage_return) then wa else check_bytes s

check_ln : Stream → ErrorCode
unfolding check_bytes
check_ln s = if s.eof then ok else check_bytes s.unread

-- `while (in.get(o) && o == '\r');`: the byte in `o` if the stream is still good, and the stream
skip_bytes : Bytes → Option ℕ × Stream
skip_bytes [] = (none, at_end)
skip_bytes (c ∷ s) = if c == carriage_return then skip_bytes s else (some c, open_stream s)

skip_cr : Stream → Option ℕ × Stream
unfolding skip_bytes
skip_cr s = if s.eof then (none, s) else skip_bytes s.unread

-- What stands behind the loop of `check_equal`.
after_loop : Option ℕ → Option ℕ → Stream → Stream → ErrorCode
after_loop none none out cout = if out.eof && cout.eof then ok else wa
after_loop none (some c) out cout = if out.eof then check_ln (putback c cout) else wa
after_loop (some o) none out cout = if cout.eof then check_ln (putback o out) else wa
after_loop (some o) (some c) out cout = wa

-- The loop of `check_equal`; `none` means that the fuel ran out.
check_loop : ℕ → Stream → Stream → Option ErrorCode
unfolding skip_cr
check_loop zero out cout = none
check_loop (suc fuel) out cout =
    let (o, out') = skip_cr out in
    let (c, cout') = skip_cr cout in
    elim o [
      | none ↦ some (after_loop none c out' cout')
      | some a ↦ elim c [
        | none ↦ some (after_loop (some a) none out' cout')
        | some b ↦ if a == b then check_loop fuel out' cout' else some wa
      ]
    ]

-- Each round reads at least one byte of `out`.
pub check_equal : Stream → Stream → Option ErrorCode
unfolding check_loop after_loop check_ln
check_equal out cout = check_loop (suc (length out.unread)) out cout

unfoldable pub test_equal : Bytes → Bytes → Option ErrorCode
unfolding check_equal
test_equal out cout = check_equal (open_stream out) (open_stream cout)
