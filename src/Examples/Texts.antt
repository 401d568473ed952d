-- ===== src/Examples/Texts.antt =====
-- Texts, numbers and names.
use bacs_legacy.Base.{◌≡◌, ◌↔◌, ◌&&◌, all, leb, some, [], ◌++◌, codes, pos, arith}
use bacs_legacy.Checkdef.{ok, test_equal}
use bacs_legacy.Checkdef.Verdict.{canonical, verdict, test_equal-verdict, accepts_iff}
use bacs_legacy.Util.Replace.{str_replace}
use bacs_legacy.Util.Replace.Reference.{replace_all, str_replace-replace_all}
use bacs_legacy.Util.Replace.Skips.{str_replace_skips}
use bacs_legacy.Util.Number.{i2s}
use bacs_legacy.IoName.{check_iofile_name, check_iofile_name-count, is_allowed, count}
use bacs_legacy.TestFile.{parse_id}
use bacs_legacy.TestFile.Name.{parse_id-i2s}

accepts_iff_example :
    (test_equal (codes "1\r\n2\n\n") (codes "1\n2") ≡ some ok)
    ↔ (canonical (codes "1\r\n2\n\n") ≡ canonical (codes "1\n2"))
accepts_iff_example = accepts_iff (codes "1\r\n2\n\n") (codes "1\n2")

test_equal-verdict_example :
    test_equal (codes "1 \n") (codes "1\n") ≡ some (verdict (codes "1 \n") (codes "1\n"))
test_equal-verdict_example = test_equal-verdict (codes "1 \n") (codes "1\n")

str_replace-replace_all_example :
    str_replace 8 (codes "aXbXXaX") (codes "X") (codes "yz")
    ≡ some (replace_all 8 (codes "aXbXXaX") (codes "X") (codes "yz"))
str_replace-replace_all_example =
    str_replace-replace_all b'X' [] (codes "aXbXXaX") (codes "yz")
      ((λ e. absurd (omega arith)), ((λ e. absurd (omega arith)), tt)) (omega arith)

str_replace_skips_example :
    str_replace 9 (codes "{s}{s}") (codes "{s}") (codes "f") ≡ some (codes "f{s}")
str_replace_skips_example = str_replace_skips 7 (codes "{s}") (codes "f") (omega arith)

check_iofile_name-count_example :
    check_iofile_name (codes "a.in")
    ≡ (all is_allowed (codes "a.in") && leb (count b'.' (codes "a.in")) 1)
check_iofile_name-count_example = check_iofile_name-count (codes "a.in")

parse_id-i2s_example : parse_id (codes "tests/" ++ (i2s (pos 12) ++ codes ".in")) ≡ pos 12
parse_id-i2s_example =
    parse_id-i2s (codes "tests") (codes "in") (pos 12) (omega arith)
      ((λ e. absurd (omega arith)), ((λ e. absurd (omega arith)), tt))
