-- ===== src/Recovery.antt =====
-- crates/meepo-runtime/src/recovery.rs: the classification of the tool operations of a ledger, and
-- the plan for its replay. `none` is a panic of the scan.
pub mod Plan
pub mod Bundle
use meepo.Prelude.{
  ℕ, String, Bool, true, false, Option, none, some, List, [], ◌∷◌, ◌&&◌, ◌||◌, any, is_some,
  is_empty, length, nat_eq, not, first, if◌then◌else◌,
}
use meepo.Core.Fact.{ToolRecoveryDisposition, ToolRecoveryFactEnvelope}
use meepo.Core.Event.{RuntimeEvent, RuntimeEventActions, ProtocolMarker}
use meepo.Ledger.{
  ToolLedgerIssue, ToolLedgerIssueCode, ToolLedgerScanOperation, ToolLedgerScanResult,
  scan_tool_ledger, tool_recovery_of,
}

pub data ToolRecoveryStatus : Type 0 where
  completed indeterminate corruption definitely_not_dispatched parked : ToolRecoveryStatus

pub data ToolRecoveryReason : Type 0 where
  matching_response dispatch_without_response new_protocol_before_dispatch : ToolRecoveryReason
  legacy_dispatch_unknown orphan_response orphan_dispatch duplicate_call : ToolRecoveryReason
  duplicate_dispatch duplicate_response identity_conflict duplicate_event_id : ToolRecoveryReason
  recovery_bundle_completed recovery_bundle_parked recovery_fact_corruption : ToolRecoveryReason
  recovery_fact_without_operation : ToolRecoveryReason

pub record ToolRecoveryDecision : Type 0 where
  pub tool_call_id : String
  pub tool_name : Option String
  pub status : ToolRecoveryStatus
  pub reason : ToolRecoveryReason

pub data RecoveryPlan : Type 0 where
  safe_replay blocked : RecoveryPlan

pub record RecoveryResolution : Type 0 where
  pub decisions : List ToolRecoveryDecision
  pub has_corruption : Bool
  pub has_indeterminate : Bool
  pub plan : RecoveryPlan

pub data RecoveryInterpretation : Type 0 where
  absent : RecoveryInterpretation
  valid : ToolRecoveryDisposition → RecoveryInterpretation
  corruption : RecoveryInterpretation

unfoldable pub reason_from_issue : ToolLedgerIssueCode → ToolRecoveryReason
reason_from_issue ToolLedgerIssueCode.duplicate_event_id = duplicate_event_id
reason_from_issue ToolLedgerIssueCode.duplicate_call = duplicate_call
reason_from_issue ToolLedgerIssueCode.duplicate_response = duplicate_response
reason_from_issue ToolLedgerIssueCode.duplicate_dispatch = duplicate_dispatch
reason_from_issue ToolLedgerIssueCode.orphan_response = orphan_response
reason_from_issue ToolLedgerIssueCode.orphan_dispatch = orphan_dispatch
reason_from_issue ToolLedgerIssueCode.identity_conflict = identity_conflict
reason_from_issue ToolLedgerIssueCode.recovery_fact_without_operation =
    recovery_fact_without_operation

abbrev pub disposition_of : Option ToolRecoveryFactEnvelope → RecoveryInterpretation
disposition_of (some (ToolRecoveryFactEnvelope.recovery_decision v f)) = valid f.disposition
disposition_of _ = RecoveryInterpretation.corruption

abbrev pub is_indeterminate : ToolRecoveryStatus → Bool
is_indeterminate indeterminate = true
is_indeterminate _ = false

abbrev pub is_parked : ToolRecoveryStatus → Bool
is_parked parked = true
is_parked _ = false

-- the arms on the interpretation, where `d` is the default classification
abbrev pub settle :
    ToolRecoveryStatus × ToolRecoveryReason
    → RecoveryInterpretation
    → ToolRecoveryStatus × ToolRecoveryReason
settle d (valid ToolRecoveryDisposition.completed) =
    (ToolRecoveryStatus.completed, recovery_bundle_completed)
settle d (valid ToolRecoveryDisposition.parked) =
    (ToolRecoveryStatus.parked, recovery_bundle_parked)
settle d RecoveryInterpretation.corruption =
    (ToolRecoveryStatus.corruption, recovery_fact_corruption)
settle d absent = d

module _ {V : Type 0} where
  -- `op.decision_events[0].actions`, then its `tool_recovery`
  abbrev first_decision : List (RuntimeEvent V) → RecoveryInterpretation
  first_decision [] = RecoveryInterpretation.corruption
  first_decision (e ∷ es) = disposition_of (tool_recovery_of e.actions)

  unfoldable pub interpret_recovery_bundle : ToolLedgerScanOperation V → RecoveryInterpretation
  interpret_recovery_bundle op =
      if is_empty op.reconcile_events && is_empty op.decision_events
      then absent
      else if not (nat_eq (length op.reconcile_events) 1)
          || not (nat_eq (length op.decision_events) 1)
      then RecoveryInterpretation.corruption
      else first_decision op.decision_events

  -- The classification without a recovery bundle.
  unfoldable pub default_status :
      ToolLedgerScanOperation V → Bool → ToolRecoveryStatus × ToolRecoveryReason
  default_status op t1_protocol =
      if is_some op.response_event
      then (completed, matching_response)
      else if is_some op.dispatch_event
      then (indeterminate, dispatch_without_response)
      else if t1_protocol
      then (definitely_not_dispatched, new_protocol_before_dispatch)
      else (indeterminate, legacy_dispatch_unknown)

  -- what follows the tests on the issues and the call
  unfoldable pub classify_called :
      ToolLedgerScanOperation V → Bool → ToolRecoveryStatus × ToolRecoveryReason
  unfolding default_status interpret_recovery_bundle
  classify_called op t1_protocol =
      if not (is_empty op.reconcile_events) || not (is_empty op.decision_events)
      then settle (default_status op t1_protocol) (interpret_recovery_bundle op)
      else default_status op t1_protocol

  abbrev classify_unflagged :
      Option (RuntimeEvent V)
      → ToolLedgerScanOperation V
      → Bool
      → ToolRecoveryStatus × ToolRecoveryReason
  classify_unflagged none op t1_protocol = (ToolRecoveryStatus.corruption, orphan_response)
  classify_unflagged (some e) op t1_protocol = classify_called op t1_protocol

  abbrev classify_by :
      Option ToolLedgerIssue
      → ToolLedgerScanOperation V
      → Bool
      → ToolRecoveryStatus × ToolRecoveryReason
  classify_by (some issue) op t1_protocol =
      (ToolRecoveryStatus.corruption, reason_from_issue issue.code)
  classify_by none op t1_protocol = classify_unflagged op.call_event op t1_protocol

  unfoldable pub classify_operation :
      ToolLedgerScanOperation V → Bool → ToolRecoveryStatus × ToolRecoveryReason
  unfolding classify_called reason_from_issue
  classify_operation op t1_protocol = classify_by (first op.issues) op t1_protocol

  abbrev pub decision : ToolLedgerScanOperation V → Bool → ToolRecoveryDecision
  decision op t1_protocol = record {
    tool_call_id = op.tool_call_id;
    tool_name = op.tool_name;
    status = (classify_operation op t1_protocol).0;
    reason = (classify_operation op t1_protocol).1;
  }

  -- the loop over `scan.operations`: the decisions and `has_indeterminate`
  unfoldable pub decide : List (ToolLedgerScanOperation V) → Bool → List ToolRecoveryDecision × Bool
  decide [] t1_protocol = ([], false)
  decide (op ∷ ops) t1_protocol =
      let (rest, flag) = decide ops t1_protocol in
      let d = decision op t1_protocol in (d ∷ rest, is_indeterminate d.status || flag)

  abbrev marker_of : Option (RuntimeEventActions V) → Option ProtocolMarker
  marker_of none = none
  marker_of (some a) = a.runtime_protocol

  -- `events.first()` carries a `runtimeProtocol` marker.
  unfoldable pub t1_active : List (RuntimeEvent V) → Bool
  t1_active [] = false
  t1_active (e ∷ es) = is_some (marker_of e.actions)

  unfoldable pub resolve_scan : ToolLedgerScanResult V → Bool → RecoveryResolution
  unfolding decide
  resolve_scan scan t1_protocol =
      let (ds, flag) = decide scan.operations t1_protocol in
      record {
        decisions = ds;
        has_corruption = scan.has_corruption;
        has_indeterminate = flag;
        plan =
            if scan.has_corruption || flag || any (λ d. is_parked d.status) ds
            then blocked
            else safe_replay;
      }

  abbrev resolve_result : Option (ToolLedgerScanResult V) → Bool → Option RecoveryResolution
  resolve_result none t1_protocol = none
  resolve_result (some scan) t1_protocol = some (resolve_scan scan t1_protocol)

  unfoldable pub resolve_recovery : List (RuntimeEvent V) → Option RecoveryResolution
  unfolding resolve_scan
  resolve_recovery events = resolve_result (scan_tool_ledger events) (t1_active events)
