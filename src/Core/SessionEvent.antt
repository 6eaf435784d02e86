-- ===== src/Core/SessionEvent.antt =====
-- crates/meepo-core/src/session_event.rs: the stream vocabulary of the backends. The arguments of
-- each constructor follow the fields of the variant; the first three are id, turn_id and ts.
use meepo.Prelude.{ℕ, String, Bool, Option}
use meepo.Prelude.Int.{ℤ}
use meepo.Core.Event.{ToolRecoveryMode}

pub data StopReason : Type 0 where
  end_turn user_stop error plan_handoff graph_yield permission_handoff : StopReason
  step_limit max_tokens context_budget_exhausted : StopReason

pub data AbortReason : Type 0 where
  user_stop redirect timeout crash : AbortReason

pub data SessionEvent (V : Type 0) : Type 0 where
  -- message_id, start_offset, text
  text_delta : String → String → ℤ → String → Option ℕ → String → SessionEvent V
  -- message_id, text, provider_options
  text_complete : String → String → ℤ → String → String → Option V → SessionEvent V
  -- message_id, text
  thinking_delta : String → String → ℤ → String → String → SessionEvent V
  -- message_id, text, signature
  thinking_complete : String → String → ℤ → String → String → Option String → SessionEvent V
  -- tool_call_id, tool_name, args
  tool_call : String → String → ℤ → String → String → V → SessionEvent V
  -- operation_id, tool_call_id, tool_name, canonical_args_hash, recovery_mode
  tool_dispatch :
      String → String → ℤ → String → String → String → String → ToolRecoveryMode → SessionEvent V
  -- tool_call_id, tool_name, content, is_error
  tool_result : String → String → ℤ → String → String → String → Bool → SessionEvent V
  -- stop_reason
  complete : String → String → ℤ → StopReason → SessionEvent V
  -- recoverable, message, code, reason, details
  error :
      String
      → String
      → ℤ
      → Bool
      → String
      → Option String
      → Option String
      → Option V
      → SessionEvent V
  -- reason
  abort : String → String → ℤ → AbortReason → SessionEvent V
