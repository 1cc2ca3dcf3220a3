-- ===== src/Errors.antt =====
-- The exceptions of the program: `cocktail-maker/pod.cppm`, `dispenser.cppm`, `station_config.cppm`,
-- `pod_protocol_session.cppm`, `core/retry.cppm` and `gui/src/process_context_bridge.cpp`. The error codes
-- are those of `proto::field::ErrorCodeCommon`.
use cocktail_maker.Prelude.{String, Bool, true, false}
use cocktail_maker.Prelude.Int.{ℤ}

pub data ErrorCode : Type 0 where
  code_dispenser_empty : ErrorCode
  code_dispenser_not_found : ErrorCode
  code_invalid_parameter : ErrorCode
  code_unsupported_in_current_state : ErrorCode
  code_hardware_fault : ErrorCode
  code_busy : ErrorCode
  code_not_calibrated : ErrorCode
  code_internal_error : ErrorCode
  code_values_limit : ErrorCode

-- `protocol_error`, `system_error` and `other_error` carry what they say; `other_error` is every other
-- `std::exception`.
pub data Exception : Type 0 where
  dispenser_empty_error : String → ℤ → Exception
  dispenser_not_found_error : String → ℤ → Exception
  ingredient_not_assigned_error : String → Exception
  pod_receive_error : String → ErrorCode → Exception
  pod_timeout_error : String → Exception
  timeout_error : Exception
  protocol_error : String → Exception
  recipe_not_found_error : String → Exception
  abort_error : Exception
  system_error : String → Exception
  other_error : String → Exception

-- `TimeoutError` and the classes that derive from it.
abbrev pub is_timeout : Exception → Bool
is_timeout (pod_timeout_error pod_id) = true
is_timeout timeout_error = true
is_timeout _ = false
