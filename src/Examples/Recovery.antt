-- ===== src/Examples/Recovery.antt =====
-- Runs of the ledger scan and of the recovery plan.
use mathlib.Core.Bool.{false≢true}
use mathlib.Core.Option
use meepo.Prelude.{◌≡◌, refl, String, false, none, some, List, [], ◌∷◌, All, map, eq_iff}
use meepo.Prelude.Dict
use meepo.Ledger.{
  scan_tool_ledger, scan_events, scan_event, on_lane, classify_lane, on_call, on_dispatch,
  on_response,
}
use meepo.Recovery.{classify_operation}
use meepo.Runtime.Runner.{user_event}
use meepo.Runtime.Mapping.{map_session_event}
use meepo.Examples.{
  sample_ledger, crashed_ledger, sample_event, sample_call, sample_dispatch, sample_complete,
  RuntimeEvent, map_session_event,
}
use meepo.Recovery.{
  RecoveryResolution, resolve_recovery, ToolRecoveryStatus, ToolRecoveryReason, safe_replay,
}
use meepo.Ledger.{scan_tool_ledger, on_call}
use meepo.Recovery.Plan.{IsSettled, resolve_recovery_total, safe_replay-IsSettled}
use meepo.Core.Fact.{ToolRecoveryDecisionFact, ToolRecoveryDisposition}
use meepo.Core.Event.{ToolDispatch, ToolRecoveryMode}
use meepo.Recovery.Bundle.{as_call, as_dispatch, as_decision, lone_decision_replayed}

abbrev settled_resolution : RecoveryResolution
settled_resolution = record {
  decisions =
      record {
        tool_call_id = "c1";
        tool_name = some "Read";
        status = ToolRecoveryStatus.completed;
        reason = ToolRecoveryReason.matching_response;
      }
      ∷ [];
  has_corruption = false;
  has_indeterminate = false;
  plan = safe_replay;
}

settled : resolve_recovery sample_ledger ≡ some settled_resolution
unfolding resolve_recovery scan_tool_ledger scan_events scan_event on_lane classify_lane user_event
    map_session_event on_call Dict.get on_dispatch Dict.insert on_response classify_operation
settled = refl

resolve_recovery_total_example :
    (r : RecoveryResolution) × (resolve_recovery crashed_ledger ≡ some r)
resolve_recovery_total_example = resolve_recovery_total crashed_ledger

safe_replay-IsSettled_example :
    (settled_resolution.has_corruption ≡ false)
    × (settled_resolution.has_indeterminate ≡ false)
    × All IsSettled settled_resolution.decisions
safe_replay-IsSettled_example = safe_replay-IsSettled sample_ledger settled_resolution settled refl

abbrev parked_fact : ToolRecoveryDecisionFact
parked_fact = record {
  protocol = "p";
  operation_id = "o1";
  disposition = ToolRecoveryDisposition.parked;
  reason_code = "r";
  evidence_event_ids = [];
  outcome_event_id = none;
}

abbrev dispatched : ToolDispatch
dispatched = record {
  protocol = "t1";
  operation_id = "o1";
  provider_tool_call_id = "c1";
  tool_name = "Read";
  canonical_args_hash = "h";
  recovery_mode = ToolRecoveryMode.replay_safe;
}

abbrev lone_ledger : List (RuntimeEvent String)
lone_ledger =
    as_call (sample_event sample_call) "c1" "Read" "{}"
    ∷ as_dispatch (sample_event sample_dispatch) dispatched
    ∷ as_decision (sample_event sample_complete) parked_fact
    ∷ []

lone_decision_replayed_example :
    (Option.map (λ r. r.plan) (resolve_recovery lone_ledger) ≡ some safe_replay)
    × (Option.map (λ r. map (λ d. d.status) r.decisions) (resolve_recovery lone_ledger)
        ≡ some (ToolRecoveryStatus.corruption ∷ []))
unfolding map_session_event
lone_decision_replayed_example =
    lone_decision_replayed (sample_event sample_call) (sample_event sample_dispatch)
      (sample_event sample_complete) "Read" "{}" dispatched parked_fact
      (λ e. false≢true ((eq_iff "e1" "e2").1 e)) (λ e. false≢true ((eq_iff "e1" "e4").1 e))
      (λ e. false≢true ((eq_iff "e2" "e4").1 e)) refl refl
