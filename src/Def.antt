-- ===== src/Def.antt =====
-- The enumerations of include/bacs/legacy/def.hpp with their numbers, and `status_to_str` of
-- src/lib/helper.cpp.
pub mod Names
use bacs_legacy.Base.{ℕ, ℤ, pos, Bool, true, false}

-- `ST`
pub data Status : Type 0 where
  server_error accepted compile_error memory_limit time_limit runtime_error : Status
  wrong_answer presentation_error security_violation invalid_problem realtime_limit : Status
  output_limit compile_time_limit pending running invalid_lang checker_error : Status

unfoldable pub status_code : Status → ℕ
status_code server_error = 0
status_code accepted = 1
status_code compile_error = 2
status_code memory_limit = 3
status_code time_limit = 4
status_code runtime_error = 5
status_code wrong_answer = 6
status_code presentation_error = 7
status_code security_violation = 8
status_code invalid_problem = 9
status_code realtime_limit = 10
status_code output_limit = 11
status_code compile_time_limit = 12
status_code pending = 100
status_code running = 101
status_code invalid_lang = 102
status_code checker_error = 103

-- `result == ST_ACCEPTED`
abbrev pub is_accepted : Status → Bool
is_accepted accepted = true
is_accepted _ = false

-- `RUN`: the numbers that `limit_run` writes and the server reads.
abbrev pub run_ok : ℤ
run_ok = pos 0

abbrev pub run_failed : ℤ
run_failed = pos 1

abbrev pub run_timeout : ℤ
run_timeout = pos 2

abbrev pub run_out_of_memory : ℤ
run_out_of_memory = pos 3

abbrev pub run_abnormal_exit : ℤ
run_abnormal_exit = pos 4

abbrev pub run_realtimeout : ℤ
run_realtimeout = pos 5

abbrev pub run_output_limit : ℤ
run_output_limit = pos 6

-- `CHECK_RES`
abbrev pub check_res_ok : ℤ
check_res_ok = pos 0

abbrev pub check_res_wa : ℤ
check_res_wa = pos 5

abbrev pub check_res_pe : ℤ
check_res_pe = pos 4

abbrev pub check_res_wa_old : ℤ
check_res_wa_old = pos 2

-- `COMPILE`
pub data CompileResult : Type 0 where
  compile_ok failed_to_compile compile_failed out_of_time : CompileResult

-- `INVALID_ID`
abbrev pub invalid_id : ℤ
invalid_id = pos 9999
