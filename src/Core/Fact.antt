-- ===== src/Core/Fact.antt =====
-- crates/meepo-core/src/recovery_fact.rs: the payloads that a recovery continuation appends.
use meepo.Prelude.{ℕ, String, List, Option}

pub data ToolReconcileObservation : Type 0 where
  matches_expected_state matches_prior_state diverged unreadable : ToolReconcileObservation

pub record ToolReconcileResultFact : Type 0 where
  pub protocol : String
  pub operation_id : String
  pub observation : ToolReconcileObservation
  pub observation_schema : String
  pub observation_digest : String

pub data ToolRecoveryDisposition : Type 0 where
  completed parked : ToolRecoveryDisposition

pub record ToolRecoveryDecisionFact : Type 0 where
  pub protocol : String
  pub operation_id : String
  pub disposition : ToolRecoveryDisposition
  pub reason_code : String
  pub evidence_event_ids : List String
  pub outcome_event_id : Option String

-- The first argument is the envelope's version (u32).
pub data ToolRecoveryFactEnvelope : Type 0 where
  reconcile_result : ℕ → ToolReconcileResultFact → ToolRecoveryFactEnvelope
  recovery_decision : ℕ → ToolRecoveryDecisionFact → ToolRecoveryFactEnvelope

abbrev pub tool_reconcile_result_fact_kind : String
tool_reconcile_result_fact_kind = "maka.tool.reconcile_result"

abbrev pub tool_recovery_decision_fact_kind : String
tool_recovery_decision_fact_kind = "maka.tool.recovery_decision"

unfoldable pub kind_str : ToolRecoveryFactEnvelope → String
kind_str (reconcile_result v f) = tool_reconcile_result_fact_kind
kind_str (recovery_decision v f) = tool_recovery_decision_fact_kind
