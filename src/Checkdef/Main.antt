-- ===== src/Checkdef/Main.antt =====
-- `main` and the self-test of src/bin/checkdef.cpp.
use bacs_legacy.Base.{
  ◌≡◌, refl, Bool, true, false, Option, none, some, List, [], ◌∷◌, ◌++◌, Bytes, ◌==◌, codes, ◌&&◌,
}
use bacs_legacy.Checkdef.{
  ErrorCode, ok, wa, un, exit_code, open_stream, check_ln, check_equal, test_equal, newline,
  carriage_return,
}

-- Does a run of `test_equal` give the code `e`?
gives : Option ErrorCode → ErrorCode → Bool
gives none e = false
gives (some r) e = exit_code r == exit_code e

abbrev nl : Bytes
nl = newline ∷ []

abbrev cr : Bytes
cr = carriage_return ∷ []

-- The assertions of `run_tests`, in their order.
run_tests : Bool
unfolding gives exit_code
run_tests =
    gives (some (check_ln (open_stream (nl ++ nl)))) ok
    && gives (some (check_ln (open_stream []))) ok
    && gives (test_equal [] []) ok
    && gives (test_equal (nl ++ nl) nl) ok
    && gives (test_equal (codes "n" ++ nl) (codes "n")) ok
    && gives (test_equal (codes "n") (codes "n" ++ nl ++ nl)) ok
    && gives (test_equal (codes "n" ++ nl ++ codes "n") (codes "n" ++ nl ++ codes "n" ++ nl)) ok
    && gives (test_equal (codes "123") (codes "1234")) wa
    && gives (test_equal (codes "123" ++ nl) (codes "1234")) wa
    && gives (test_equal (codes "123" ++ nl) (codes "123")) ok
    && gives (test_equal (cr ++ nl) cr) ok
    && gives (test_equal (codes "123") (cr ++ codes "123" ++ cr ++ nl ++ nl)) ok
    && gives
        (test_equal (cr ++ cr ++ codes "123" ++ nl ++ nl ++ nl ++ nl ++ cr ++ nl)
          (codes "123" ++ nl ++ nl))
        ok
    && gives (test_equal (codes "123" ++ nl) (codes "123" ++ cr ++ nl)) ok
    && gives (test_equal (codes "1" ++ cr ++ codes "2" ++ cr ++ codes "3") (codes "123" ++ nl)) ok
    && gives
        (test_equal (codes "123" ++ cr ++ nl ++ codes "321") (codes "123" ++ nl ++ codes "321")) ok

-- The argument `args` is `argv` with the program's name, and `open_file` the file system: `none`
-- where a stream would not be good. Every exception ends in `UN`.
unfoldable pub main : List Bytes → (Bytes → Option Bytes) → Option ErrorCode
main (name ∷ input ∷ output ∷ answer ∷ []) open_file = elim (open_file output) [
  | none ↦ some un
  | some out ↦ elim (open_file answer) [
    | none ↦ some un
    | some cout ↦ check_equal (open_stream out) (open_stream cout)
  ]
]
main args open_file = some un

run_tests_pass : run_tests ≡ true
unfolding run_tests test_equal check_ln
run_tests_pass = refl
