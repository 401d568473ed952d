-- ===== src/Problem/Checker/Outcomes.antt =====
-- Which statuses are the outcomes of a test, and which of them the checker of a test gives:
-- `CProblem::get_checker_result` of src/lib/problem.cpp.
use bacs_legacy.Base.{
  if_cases, Option-cases, ◌≡◌, inl, inr, refl, Bool, true, false, not, ◌||◌, Option, none, some,
  Bytes, codes, ℤ, ◌=ₛ◌, arith,
}
use bacs_legacy.Def.{
  Status, accepted, server_error, checker_error, memory_limit, time_limit, runtime_error,
  wrong_answer, presentation_error, realtime_limit, output_limit,
}
use bacs_legacy.System.{Os, Server, returned}
use bacs_legacy.Problem.Checker.{
  get_checker_result, is_checker_error, legacy_status, ejudge_status, testlib_status,
  status_of_exit,
}

-- What the outcomes of a test are: a verdict on the solution, where `run_test` returns true, or an
-- error of the server or of the checker, where it returns false. Other statuses are no outcome.
abbrev pub test_outcome : Status → Option Bool
test_outcome accepted = some true
test_outcome memory_limit = some true
test_outcome time_limit = some true
test_outcome runtime_error = some true
test_outcome wrong_answer = some true
test_outcome presentation_error = some true
test_outcome realtime_limit = some true
test_outcome output_limit = some true
test_outcome server_error = some false
test_outcome checker_error = some false
test_outcome _ = none

abbrev pub IsFromChecker : Status → Type 0
IsFromChecker status = test_outcome status ≡ some (not (is_checker_error status))

legacy_status-done : (ex : ℤ) → IsFromChecker (legacy_status ex)
unfolding legacy_status is_checker_error
legacy_status-done ex = ground arith

ejudge_status-done : (ex : ℤ) → IsFromChecker (ejudge_status ex)
unfolding ejudge_status is_checker_error
ejudge_status-done ex = ground arith

testlib_status-done : (ex : ℤ) → IsFromChecker (testlib_status ex)
unfolding testlib_status is_checker_error
testlib_status-done ex = ground arith

abbrev AllFromChecker : Option Status → Type 0
AllFromChecker o = (status : Status) → o ≡ some status → IsFromChecker status

some-AllFromChecker : (status : Status) → IsFromChecker status → AllFromChecker (some status)
some-AllFromChecker status h status' e = let q : status ≡ status' = cc in rw (← q) h

none-AllFromChecker : AllFromChecker none
none-AllFromChecker status e = cc

-- A checker's exit code never stands for an error of the server.
status_of_exit-done : (kind : Bytes) (ex : ℤ) → AllFromChecker (status_of_exit kind ex)
unfolding status_of_exit
status_of_exit-done kind ex =
    if_cases AllFromChecker (kind =ₛ codes "bacs_legacy") (some (legacy_status ex)) _
      (λ _. some-AllFromChecker _ (legacy_status-done ex))
      (λ _.
        if_cases AllFromChecker (kind =ₛ codes "ejudge") (some (ejudge_status ex)) _
          (λ _. some-AllFromChecker _ (ejudge_status-done ex))
          (λ _.
            if_cases AllFromChecker (kind =ₛ codes "testlib" || kind =ₛ codes "none")
              (some (testlib_status ex)) none (λ _. some-AllFromChecker _ (testlib_status-done ex))
              (λ _. none-AllFromChecker)))

module _ (os : Os) where
  pub get_checker_result-done :
      (kind : Bytes) (ex : ℤ) (s s' : Server os) (status : Status)
      → get_checker_result os kind ex s ≡ (returned status, s')
      → test_outcome status ≡ some (not (is_checker_error status))
  unfolding get_checker_result
  get_checker_result-done kind ex s s' status = elim (Option-cases (status_of_exit kind ex)) [
    | inl e ↦
        rw (e, get_checker_result)
          (λ h. let q : checker_error ≡ status = cc in rw (← q) (unfold is_checker_error in refl))
    | inr (r, e) ↦
        rw (e, get_checker_result)
          (λ h. let q : r ≡ status = cc in rw (← q) (status_of_exit-done kind ex r e))
  ]
