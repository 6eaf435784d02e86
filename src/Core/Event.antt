-- ===== src/Core/Event.antt =====
-- crates/meepo-core/src/runtime_event.rs: the canonical runtime event. `V` stands for
-- `serde_json::Value`, whose shape the event contract never looks into.
use meepo.Prelude.{String, Bool, true, false, Option, none}
use meepo.Prelude.Int.{ℤ}
use meepo.Core.Decision.{PermissionDecision}
use meepo.Core.Fact.{ToolRecoveryFactEnvelope}

pub data Role : Type 0 where
  user model tool system : Role

pub data Author : Type 0 where
  user host agent tool system : Author

pub data Status : Type 0 where
  streaming completed failed aborted cancelled : Status

unfoldable pub is_terminal : Status → Bool
is_terminal streaming = false
is_terminal _ = true

pub data Origin : Type 0 where
  provider code_mode : Origin

pub data ModelVisibility : Type 0 where
  visible hidden : ModelVisibility

-- The arguments follow the fields of each variant.
pub data Content (V : Type 0) : Type 0 where
  -- text, provider_options, steering
  text : String → Option V → Option Bool → Content V
  -- text, signature, provider_options
  thinking : String → Option String → Option V → Content V
  -- id, name, args, provider_options, provider_executed
  function_call : String → String → V → Option V → Option Bool → Content V
  -- id, name, result, is_error, provider_executed, provider_output
  function_response : String → String → V → Option Bool → Option Bool → Option V → Content V
  -- message, code, reason, details
  error : String → Option String → Option String → Option V → Content V

abbrev pub tool_boundary_protocol_v1 : String
tool_boundary_protocol_v1 = "t1_after_preflight_v1"

pub data ToolRecoveryMode : Type 0 where
  replay_safe idempotent reconcile reattach outcome_unknown never_auto_retry : ToolRecoveryMode

pub record ToolDispatch : Type 0 where
  pub protocol : String
  pub operation_id : String
  pub provider_tool_call_id : String
  pub tool_name : String
  pub canonical_args_hash : String
  pub recovery_mode : ToolRecoveryMode

pub record ProtocolMarker : Type 0 where
  pub tool_boundary : String

pub record PermissionDecisionAction : Type 0 where
  pub request_id : String
  pub decision : PermissionDecision
  pub remember_for_turn : Option Bool
  pub tool_name : Option String

pub record RuntimeEventActions (V : Type 0) : Type 0 where
  pub state_delta : Option V
  pub artifact_delta : Option V
  pub permission_request : Option V
  pub permission_decision : Option PermissionDecisionAction
  pub permission_answer_accepted : Option V
  pub permission_closure_accepted : Option V
  pub user_question_request : Option V
  pub user_question_answer_accepted : Option V
  pub transfer_to_agent : Option String
  pub end_invocation : Option Bool
  pub token_usage : Option V
  pub tool_dispatch : Option ToolDispatch
  pub tool_recovery : Option ToolRecoveryFactEnvelope
  pub runtime_protocol : Option ProtocolMarker
  pub continuation_start : Option V
  pub workspace_fact : Option V

-- `RuntimeEventActions::default()`
abbrev pub default_actions : {V : Type 0} → RuntimeEventActions V
default_actions = record {
  state_delta = none;
  artifact_delta = none;
  permission_request = none;
  permission_decision = none;
  permission_answer_accepted = none;
  permission_closure_accepted = none;
  user_question_request = none;
  user_question_answer_accepted = none;
  transfer_to_agent = none;
  end_invocation = none;
  token_usage = none;
  tool_dispatch = none;
  tool_recovery = none;
  runtime_protocol = none;
  continuation_start = none;
  workspace_fact = none;
}

pub record RuntimeEventRefs : Type 0 where
  pub stored_message_id : Option String
  pub trace_event_id : Option String
  pub tool_call_id : Option String
  pub provider_event_id : Option String
  pub source_message_digest : Option String
  pub provider_request_trace_id : Option String
  pub artifact_id : Option String
  pub operation_id : Option String
  pub parent_tool_call_id : Option String
  pub parent_operation_id : Option String
  pub step_id : Option String
  pub source_invocation_id : Option String
  pub source_run_id : Option String
  pub source_turn_id : Option String
  pub source_runtime_event_high_water : Option ℤ

-- `RuntimeEventRefs::default()`
abbrev pub default_refs : RuntimeEventRefs
default_refs = record {
  stored_message_id = none;
  trace_event_id = none;
  tool_call_id = none;
  provider_event_id = none;
  source_message_digest = none;
  provider_request_trace_id = none;
  artifact_id = none;
  operation_id = none;
  parent_tool_call_id = none;
  parent_operation_id = none;
  step_id = none;
  source_invocation_id = none;
  source_run_id = none;
  source_turn_id = none;
  source_runtime_event_high_water = none;
}

pub record RuntimeEvent (V : Type 0) : Type 0 where
  pub session_id : String
  pub invocation_id : String
  pub run_id : String
  pub turn_id : String
  pub branch : Option String
  pub id : String
  pub ts : ℤ
  pub role : Role
  pub author : Author
  pub origin : Option Origin
  pub model_visibility : Option ModelVisibility
  pub status : Option Status
  pub content : Option (Content V)
  pub actions : Option (RuntimeEventActions V)
  pub refs : Option RuntimeEventRefs
  pub partial : Option Bool
