-- ===== src/Storage.antt =====
-- crates/meepo-storage/src/lib.rs: the rows and the database of the SQLite store. A table is the list
-- of its rows, the oldest `rowid` first; the statements have their SQL meaning, so that the only
-- errors are a broken constraint and a value that does not serialize. Each operation holds the
-- connection's lock for the whole of its statements.
pub mod Table
pub mod Events
pub mod Catalog
pub mod Admissions
pub mod Interactions
pub mod Claims
pub mod Operations
use meepo.Prelude.{ℕ, String, Bool, Option, List, []}
use meepo.Prelude.Int.{ℤ}

-- What reaches the callers as a boxed error.
pub data StoreError : Type 0 where
  constraint_failed : StoreError
  json_failed : StoreError

pub record RuntimeEventRow : Type 0 where
  pub event_id : String
  pub session_id : String
  pub invocation_id : String
  pub run_id : String
  pub turn_id : String
  pub event_seq : ℕ
  pub event_kind : String
  pub payload_json : String
  pub committed_at : ℤ

pub record InteractionRequestRow : Type 0 where
  pub request_id : String
  pub session_id : String
  pub turn_id : String
  pub run_id : String
  pub request_kind : String
  pub created_at : ℤ
  pub record_json : String

pub record InteractionOutcomeRow : Type 0 where
  pub request_id : String
  pub record_json : String

pub record ToolOperation : Type 0 where
  pub operation_id : String
  pub invocation_id : String
  pub run_id : String
  pub turn_id : String
  pub provider_tool_call_id : String
  pub tool_name : String
  pub canonical_args_hash : String
  pub recovery_mode : String
  pub current_state : String
  pub call_event_id : String
  pub result_event_id : Option String
  pub dispatch_event_id : Option String
  pub version : ℤ

pub record ContinuationClaim : Type 0 where
  pub claim_id : String
  pub source_session_id : String
  pub source_invocation_id : String
  pub source_run_id : String
  pub source_turn_id : String
  pub source_event_high_water : ℤ
  pub source_prefix_digest : String
  pub boundary_digest : String
  pub boundary_json : String
  pub provider_projection_version : ℤ
  pub provider_replay_digest : String
  pub target_session_id : String
  pub target_invocation_id : String
  pub target_run_id : String
  pub target_turn_id : String
  pub target_run_header_json : String
  pub claimed_at : ℤ
  pub start_event_id : Option String
  pub start_kind : Option String
  pub protocol_version : ℤ

-- `sequence` is not negative, as the table demands.
pub record TaskRunEvent : Type 0 where
  pub task_run_id : String
  pub sequence : ℕ
  pub event_id : String
  pub record_json : String

-- `admitted_at` is in seconds since the epoch.
pub record RootAdmissionRecord : Type 0 where
  pub session_id : String
  pub turn_id : String
  pub run_id : String
  pub previous_root_turn_id : Option String
  pub identity_json : String
  pub admitted_at : ℕ
  pub poisoned : Bool

pub record SessionRecord : Type 0 where
  pub session_id : String
  pub name : String
  pub labels : List String
  pub revision : ℕ
  pub is_archived : Bool
  pub cwd : String
  pub config_json : String
  pub read_marker : Option String
  pub created_at : ℕ
  pub updated_at : ℕ

pub record SqliteStore : Type 0 where
  pub runtime_events : List RuntimeEventRow
  pub interaction_requests : List InteractionRequestRow
  pub interaction_outcomes : List InteractionOutcomeRow
  pub tool_operations : List ToolOperation
  pub continuation_claims : List ContinuationClaim
  pub task_run_events : List TaskRunEvent
  pub root_admission_chain : List RootAdmissionRecord
  pub sessions : List SessionRecord

-- A fresh database: `INIT_SQL` makes the tables.
abbrev pub in_memory : SqliteStore
in_memory = record {
  runtime_events = [];
  interaction_requests = [];
  interaction_outcomes = [];
  tool_operations = [];
  continuation_claims = [];
  task_run_events = [];
  root_admission_chain = [];
  sessions = [];
}
