-- ===== src/Common/Status.antt =====
-- `Status` of common/status.hpp: a code, and a message for all codes but that of success.
use keva_db.Base.{Bool, true, false, [], Bytes}

-- `StatusCode`
pub data StatusCode : Type 0 where
  success_code err_code io_error_code protocol_error_code not_found_code wrong_type_code :
      StatusCode
  out_of_memory_code invalid_args_code timeout_code overflow_code : StatusCode

pub record Status : Type 0 where
  pub code : StatusCode
  pub message : Bytes

abbrev failure : StatusCode → Bytes → Status
failure code message = record { code = code; message = message }

abbrev pub success : Status
success = record { code = success_code; message = [] }

abbrev pub err : Bytes → Status
err = failure err_code

abbrev pub io_error : Bytes → Status
io_error = failure io_error_code

abbrev pub proto_error : Bytes → Status
proto_error = failure protocol_error_code

abbrev pub not_found : Bytes → Status
not_found = failure not_found_code

abbrev pub wrong_type : Bytes → Status
wrong_type = failure wrong_type_code

abbrev pub oom : Bytes → Status
oom = failure out_of_memory_code

abbrev pub invalid_args : Bytes → Status
invalid_args = failure invalid_args_code

abbrev pub overflow : Bytes → Status
overflow = failure overflow_code

abbrev is_success : StatusCode → Bool
is_success success_code = true
is_success _ = false

abbrev is_not_found_code : StatusCode → Bool
is_not_found_code not_found_code = true
is_not_found_code _ = false

abbrev pub ok : Status → Bool
ok s = is_success s.code

abbrev pub is_not_found : Status → Bool
is_not_found s = is_not_found_code s.code
