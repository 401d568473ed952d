-- ===== src/TestFile.antt =====
-- `CTest` of src/lib/test.cpp and `tests_sort_func` of src/lib/common.cpp: the number of a test is
-- read from the name of its input file.
pub mod Name
use bacs_legacy.Base.{
  ℕ, ◌+◌, Bool, Option, none, some, [], ◌∷◌, ◌++◌, Bytes, codes, ℤ, ltb_ℤ, take, find_last_byte,
  if◌then◌else◌,
}
use bacs_legacy.Util.{name_from_filename, parse_str}
use bacs_legacy.Util.Number.{s2i}
use bacs_legacy.Def.{invalid_id}

unfoldable pub parse_id : Bytes → ℤ
parse_id fn = s2i (parse_str (name_from_filename fn) b'.').0 invalid_id

-- `CTest`; `verbose` is the directory for the protocol of this test.
pub record TestFile : Type 0 where
  pub id : ℤ
  pub file_in : Bytes
  pub file_out : Option Bytes
  pub verbose : Option Bytes

-- `file_in.substr(0, file_in.find_last_of('.'))`: all of it, if there is no dot
unfoldable pub without_extension : Bytes → Bytes
without_extension fn = elim (find_last_byte b'.' fn) [ none ↦ fn | some k ↦ take k fn ]

-- The constructor; `exists` is `boost::filesystem::exists`.
unfoldable pub new_test : (Bytes → Bool) → Bytes → TestFile
unfolding without_extension
new_test exists file_in =
    let out = without_extension file_in ++ codes ".out" in
    record {
      id = parse_id file_in;
      file_in = file_in;
      file_out = if exists out then some out else none;
      verbose = none;
    }

unfoldable pub tests_sort_func : Bytes → Bytes → Bool
tests_sort_func f1 f2 = ltb_ℤ (parse_id f1) (parse_id f2)
