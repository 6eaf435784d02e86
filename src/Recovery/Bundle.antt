-- ===== src/Recovery/Bundle.antt =====
-- Recovery bundles that are not canonical: the operation is found corrupt, and the plan stays at
-- replay, although the operation was dispatched and never answered.
use meepo.Prelude.{sym, String, ◌≡◌, ◌≢◌, false, none, some, [], ◌∷◌, ◌==◌, eq_iff, map, arith}
use meepo.Prelude.Dict
use meepo.Core.Fact.{ToolRecoveryDecisionFact, recovery_decision}
use mathlib.Core.Option
use meepo.Core.Event.{default_actions, Role, Content, RuntimeEvent, ToolDispatch}
use meepo.Ledger.{
  call_key, scan_tool_ledger, scan_events, scan_event, classify_lane, on_lane, on_call, on_dispatch,
  on_recovery,
}
use meepo.Recovery.{safe_replay, corruption, resolve_recovery, classify_operation, t1_active}

-- The answer of a text comparison that is known to fail.
neq : (s t : String) → s ≢ t → (s == t) ≡ false
neq s t h = ground (arith, eq_iff s t)

module _ {V : Type 0} where
  -- Any event turned into a model's call, into the dispatch of a call, or into a recovery decision.
  abbrev pub as_call : RuntimeEvent V → String → String → V → RuntimeEvent V
  as_call e call_id name args = record e {
    role = Role.model;
    content = some (Content.function_call call_id name args none none);
  }

  abbrev pub as_dispatch : RuntimeEvent V → ToolDispatch → RuntimeEvent V
  as_dispatch e d = record e {
    role = Role.system;
    content = none;
    actions = some (record default_actions { tool_dispatch = some d });
  }

  abbrev pub as_decision : RuntimeEvent V → ToolRecoveryDecisionFact → RuntimeEvent V
  as_decision e f = record e {
    role = Role.system;
    content = none;
    actions = some (record default_actions { tool_recovery = some (recovery_decision 1 f) });
  }

  -- A ledger holds a call, its dispatch, and a recovery decision on the dispatched operation, with no
  -- observation before it and no response. Whatever the decision says, the operation is found
  -- corrupt, and the plan is to replay all the same.
  pub lone_decision_replayed :
      (c d f : RuntimeEvent V) (name : String) (args : V) (disp : ToolDispatch)
      (fact : ToolRecoveryDecisionFact)
      → c.id ≢ d.id
      → c.id ≢ f.id
      → d.id ≢ f.id
      → c.invocation_id ≡ d.invocation_id
      → fact.operation_id ≡ disp.operation_id
      → let r = resolve_recovery (
          as_call c disp.provider_tool_call_id name args
          ∷ as_dispatch d disp
          ∷ as_decision f fact
          ∷ []) in
        (Option.map (λ r. r.plan) r ≡ some safe_replay)
        × (Option.map (λ r. map (λ d. d.status) r.decisions) r ≡ some (corruption ∷ []))
  unfolding resolve_recovery scan_tool_ledger scan_events scan_event on_lane on_call on_dispatch
      on_recovery classify_operation t1_active Dict.get Dict.insert classify_lane
  lone_decision_replayed c d f name args disp fact n1 n2 n3 hi ho = ground (
    arith,
    neq d.id c.id (λ e. n1 (sym e)),
    neq c.id d.id n1,
    neq c.id f.id n2,
    neq d.id f.id n3,
    eq_iff (call_key c.invocation_id disp.provider_tool_call_id)
        (call_key d.invocation_id disp.provider_tool_call_id),
    eq_iff disp.operation_id fact.operation_id,
  )
