-- ===== src/Host/Wire/Errors.antt =====
-- crates/meepo-host/src/protocol/errors.rs: framing faults, and the errors of operations.
use meepo.Prelude.{ℕ, String, ltb, if◌then◌else◌}
use meepo.Prelude.Words.{chars, take_chars}

pub data ProtocolError : Type 0 where
  invalid_frame frame_too_large invalid_utf8 : ProtocolError
  invalid_json : String → ProtocolError

pub data OpErrorCode : Type 0 where
  host_not_ready host_draining operation_unavailable not_found session_archived session_busy :
      OpErrorCode
  operation_conflict capability_unavailable invalid_request projection_incomplete : OpErrorCode
  persistence_failed commit_outcome_unknown already_resolved outcome_unknown : OpErrorCode
  internal_failure revision_conflict : OpErrorCode

pub record OperationError : Type 0 where
  pub code : OpErrorCode
  pub message : String

abbrev max_error_message_chars : ℕ
max_error_message_chars = 1024

-- `OperationError::new`
unfoldable pub operation_error : OpErrorCode → String → OperationError
unfolding take_chars
operation_error code message = record {
  code = code;
  message =
      if ltb max_error_message_chars (chars message)
      then take_chars max_error_message_chars message
      else message;
}
