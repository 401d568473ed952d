-- ===== src/Problem/Checker.antt =====
-- `CProblem::get_checker_result` of src/lib/problem.cpp: the exit codes of the kinds of checkers.
pub mod Default
pub mod Outcomes
use bacs_legacy.Base.{
  ℕ, Bool, true, false, ◌||◌, Option, none, some, [], ◌∷◌, Bytes, codes, ℤ, pos, ◌==ℤ◌, ◌=ₛ◌,
  if◌then◌else◌,
}
use bacs_legacy.Def.{
  Status, accepted, wrong_answer, presentation_error, checker_error, check_res_ok, check_res_wa,
  check_res_wa_old, check_res_pe,
}
use bacs_legacy.System.{Os, M, ◌>>=◌, ◌>>◌, pure, log_error}

unfoldable pub legacy_status : ℤ → Status
legacy_status ex =
    if ex ==ℤ check_res_ok
    then accepted
    else if ex ==ℤ check_res_wa || ex ==ℤ check_res_wa_old
    then wrong_answer
    else if ex ==ℤ check_res_pe
    then presentation_error
    else checker_error

unfoldable pub ejudge_status : ℤ → Status
ejudge_status ex =
    if ex ==ℤ pos 0
    then accepted
    else if ex ==ℤ pos 5
    then wrong_answer
    else if ex ==ℤ pos 4
    then presentation_error
    else checker_error

unfoldable pub testlib_status : ℤ → Status
testlib_status ex =
    if ex ==ℤ pos 0
    then accepted
    else if ex ==ℤ pos 1
    then wrong_answer
    else if ex ==ℤ pos 2
    then presentation_error
    else checker_error

-- The status by the kind of the checker; none for a kind that is not known.
unfoldable pub status_of_exit : Bytes → ℤ → Option Status
unfolding legacy_status ejudge_status testlib_status
status_of_exit checker_return ex =
    if checker_return =ₛ codes "bacs_legacy"
    then some (legacy_status ex)
    else if checker_return =ₛ codes "ejudge"
    then some (ejudge_status ex)
    else if checker_return =ₛ codes "testlib" || checker_return =ₛ codes "none"
    then some (testlib_status ex)
    else none

module _ (os : Os) where
  unfoldable pub get_checker_result : Bytes → ℤ → M os Status
  unfolding status_of_exit
  get_checker_result checker_return ex = elim (status_of_exit checker_return ex) [
    | some s ↦ pure s
    | none ↦ do
      log_error (codes "Error: unexpected checker_error!")
          ((codes "checker_return", checker_return) ∷ [])
      pure checker_error
  ]

unfoldable pub is_checker_error : Status → Bool
is_checker_error checker_error = true
is_checker_error _ = false
