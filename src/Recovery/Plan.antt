-- ===== src/Recovery/Plan.antt =====
-- When the plan is to replay: what each operation of the ledger was then found to be.
use meepo.Prelude.{
  ◌≡◌, refl, ap, subst, Bool, true, false, ◌⊎◌, Option, none, some, List, [], ◌∷◌, All, any,
  is_empty, is_some, arith,
}
use meepo.Core.Event.{RuntimeEvent}
use meepo.Ledger.{
  ToolLedgerIssue, finish_all, ToolLedgerScanOperation, ToolLedgerScanResult, scan_tool_ledger,
  Scan, finish, start, scan_events,
}
use meepo.Ledger.Invariant.{Inv, Sound, Ok}
use meepo.Ledger.Arms.{scan_events-Inv, start-Inv}
use meepo.Recovery.{
  ToolRecoveryDecision, RecoveryResolution, safe_replay, completed, definitely_not_dispatched,
  corruption, recovery_fact_corruption, is_indeterminate, is_parked, classify_operation, decision,
  decide, t1_active, resolve_scan, resolve_recovery,
}

-- What the plan to replay allows an operation to be. The last case is a recovery bundle that is not
-- canonical: the operation is reported as corrupt, and the plan is not blocked by it.
abbrev pub IsSettled : ToolRecoveryDecision → Type 0
IsSettled d =
    (d.status ≡ completed)
    ⊎ (d.status ≡ definitely_not_dispatched)
    ⊎ ((d.status ≡ corruption) × (d.reason ≡ recovery_fact_corruption))

module _ {V : Type 0} where
  finish_all_total : (o : Option (Scan V)) → Ok Inv o → (s : Scan V) × (o ≡ some s) × Inv s
  finish_all_total none h = absurd h
  finish_all_total (some s) h = (s, refl, h)

  scan_end :
      (events : List (RuntimeEvent V))
      → (s : Scan V) × (scan_tool_ledger events ≡ some (finish s)) × Inv s
  unfolding scan_tool_ledger
  scan_end events =
      let (s, e, v) =
        finish_all_total (scan_events events start) (scan_events-Inv events start start-Inv) in
      (s, ap finish_all e, v)

  -- The scan never indexes its operations out of range: it returns a result for every ledger.
  pub scan_total :
      (events : List (RuntimeEvent V))
      → (r : ToolLedgerScanResult V) × (scan_tool_ledger events ≡ some r)
  scan_total events = let (s, e, v) = scan_end events in (finish s, e)

  IsSettled-or_pending :
      (op : ToolLedgerScanOperation V) (t1 : Bool)
      → is_empty op.issues ≡ true
      → is_some op.call_event ≡ true
      → IsSettled (decision op t1)
        ⊎ (is_indeterminate (decision op t1).status ≡ true)
        ⊎ (is_parked (decision op t1).status ≡ true)
  unfolding classify_operation
  IsSettled-or_pending op t1 h k = ground arith

  decide-IsSettled :
      (found : List ToolLedgerIssue) (ops : List (ToolLedgerScanOperation V)) (t1 : Bool)
      → All (Sound found) ops
      → is_empty found ≡ true
      → (decide ops t1).1 ≡ false
      → any (λ d. is_parked d.status) (decide ops t1).0 ≡ false
      → All IsSettled (decide ops t1).0
  unfolding decide
  decide-IsSettled found [] t1 h e f p = tt
  decide-IsSettled found (op ∷ ops) t1 h e f p = (
    ground (arith, h.0.reported e, h.0.has_call, IsSettled-or_pending op t1),
    decide-IsSettled found ops t1 h.1 e (ground arith) (ground arith),
  )

  resolve_scan-IsSettled :
      (s : Scan V) (t1 : Bool)
      → Inv s
      → (resolve_scan (finish s) t1).plan ≡ safe_replay
      → ((resolve_scan (finish s) t1).has_corruption ≡ false)
        × ((resolve_scan (finish s) t1).has_indeterminate ≡ false)
        × All IsSettled (resolve_scan (finish s) t1).decisions
  unfolding resolve_scan
  resolve_scan-IsSettled s t1 v p = (
    ground arith,
    ground arith,
    decide-IsSettled s.issues s.operations t1 v.sound (ground arith) (ground arith) (ground arith),
  )

  resolve_end :
      (events : List (RuntimeEvent V))
      → (s : Scan V) × (resolve_recovery events ≡ some (resolve_scan (finish s) (t1_active events)))
        × Inv s
  unfolding resolve_recovery
  resolve_end events = let (s, e, v) = scan_end events in (s, rw e, v)

  -- Every ledger is resolved: the scan behind it never panics.
  pub resolve_recovery_total :
      (events : List (RuntimeEvent V))
      → (r : RecoveryResolution) × (resolve_recovery events ≡ some r)
  resolve_recovery_total events =
      let (s, e, v) = resolve_end events in (resolve_scan (finish s) (t1_active events), e)

  -- If the plan is to replay, the ledger has no structural issue and no indeterminate operation, and
  -- every operation is completed or was definitely not dispatched, but for those whose recovery
  -- bundle is not canonical.
  pub safe_replay-IsSettled :
      (events : List (RuntimeEvent V)) (r : RecoveryResolution)
      → resolve_recovery events ≡ some r
      → r.plan ≡ safe_replay
      → (r.has_corruption ≡ false) × (r.has_indeterminate ≡ false) × All IsSettled r.decisions
  safe_replay-IsSettled events r h p =
      let (s, e, v) = resolve_end events in
      let q : resolve_scan (finish s) (t1_active events) ≡ r = cc (e, h) in
      subst
        (λ r.
          r.plan ≡ safe_replay
          → (r.has_corruption ≡ false) × (r.has_indeterminate ≡ false) × All IsSettled r.decisions)
        q (resolve_scan-IsSettled s (t1_active events) v) p
