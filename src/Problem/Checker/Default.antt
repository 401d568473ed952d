-- ===== src/Problem/Checker/Default.antt =====
-- The default checker, from the two texts to the verdict on the test.
use bacs_legacy.Base.{
  ◌≡◌, Option, none, some, [], ◌∷◌, Bytes, codes, pos, ◌=ₛ◌, arith, Option-cases, inl, inr,
  if◌then◌else◌,
}
use bacs_legacy.Def.{Status, accepted, wrong_answer, checker_error}
use bacs_legacy.Checkdef.{ErrorCode, exit_code, test_equal, check_equal, open_stream}
use bacs_legacy.Checkdef.Verdict.{canonical, test_equal-verdict}
use bacs_legacy.Checkdef.Main.{main}
use bacs_legacy.Problem.Checker.{status_of_exit}

-- The status that the server makes of what the checker's process returns.
abbrev pub status_of : Option ErrorCode → Option Status
status_of none = none
status_of (some e) = status_of_exit (codes "bacs_legacy") (pos (exit_code e))

compared :
    (out cout : Bytes)
    → status_of (check_equal (open_stream out) (open_stream cout))
      ≡ some (if canonical out =ₛ canonical cout then accepted else wrong_answer)
unfolding status_of_exit exit_code test_equal
compared out cout = ground (arith, test_equal-verdict out cout)

-- With the default checker a test is accepted when the output and the answer can be opened and are
-- equal in the canonical form, it is a wrong answer when they can be opened and differ, and it is an
-- error of the checker when one of them cannot be opened.
pub main-status :
    (name input output answer : Bytes) (open_file : Bytes → Option Bytes)
    → status_of (main (name ∷ input ∷ output ∷ answer ∷ []) open_file)
      ≡ some (elim (open_file output) [
        | none ↦ checker_error
        | some out ↦ elim (open_file answer) [
          | none ↦ checker_error
          | some cout ↦ if canonical out =ₛ canonical cout then accepted else wrong_answer
        ]
      ])
unfolding status_of_exit exit_code main
main-status name input output answer open_file = elim (Option-cases (open_file output)) [
  | inl e ↦ rw (e, main) (ground arith)
  | inr (out, e) ↦ elim (Option-cases (open_file answer)) [
    | inl k ↦ rw (e, main, k) (ground arith)
    | inr (cout, k) ↦ rw (e, main, k) (compared out cout)
  ]
]
