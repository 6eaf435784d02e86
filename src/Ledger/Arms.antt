-- ===== src/Ledger/Arms.antt =====
-- The arms of the scan's match, and so the scan, keep what holds between two events.
use meepo.Prelude.{
  ℕ, ◌<◌, ◌≡◌, refl, String, Option, none, some, List, [], ◌∷◌, ◌++◌, is_some, length,
  length-modify, Bool-cases, subst, sym, contains, arith, inl, inr,
}
use meepo.Prelude.Dict
use meepo.Core.Fact.{ToolRecoveryFactEnvelope}
use meepo.Core.Event.{Content, RuntimeEvent, RuntimeEventActions, ToolDispatch}
use meepo.Ledger.{
  ToolLedgerIssue, ToolLedgerLane, ToolLedgerScanOperation, Scan, start, add_issue, with_issue,
  push_issue, bind_operation, with_update, on_call, on_dispatch, on_recovery, on_response, on_lane,
  name_is, classify_lane, call_key, reconcile_result_lane, scan_event, scan_events, update, push_op,
  add_fact, find_operation, fact_operation_id, known_call, known_dispatch, orphan_dispatched,
  known_fact, known_response, optional, tool_dispatch_of, duplicate_event_id, issue, called_op,
  dispatched_op, fact_issue, tool_recovery_of, duplicate_call, duplicate_dispatch, orphan_dispatch,
  duplicate_response, orphan_response, identity_conflict, set_dispatch, responded_op,
}
use meepo.Ledger.Invariant.{
  lt-of-get, Ok, Ok-with_operation, update-Inv, with_update-Inv, update-in, with_issue-Inv,
  push_issue-in, push_issue-Inv, length-snoc, bind-Inv, push_op-Inv, orphan-Inv, orphan-kept, Ok-at,
  Sound, Inv,
}

module _ {V : Type 0} where
  call_bound :
      (key : String) (s : Scan V)
      → Inv s
      → (i : ℕ) → Dict.get s.by_call key ≡ some i
      → i < length s.operations
  call_bound key s v i e = lt-of-get _ s.by_call key i v.calls e

  known_call-Inv :
      (e : RuntimeEvent V) (c : String) (s : Scan V) (i : ℕ) (op : ToolLedgerScanOperation V)
      → i < length s.operations
      → Inv s
      → Ok Inv (known_call e c s i op)
  unfolding known_call
  known_call-Inv e c s i op b v = elim (Bool-cases (is_some op.call_event)) [
    | inl h ↦ rw h (push_issue-Inv (some i) (issue duplicate_call e c) s b v)
    | inr h ↦
        let f : ToolLedgerScanOperation V → ToolLedgerScanOperation V =
          λ o. record o { call_event = some e } in
        rw (h, update-in i f s b)
          (push_issue-Inv (some i) (issue identity_conflict e c) (with_update i f s)
            (subst (λ n. i < n) (sym (length-modify s.operations i f)) b)
            (with_update-Inv i f s (λ o k. record { has_call = λ _. refl; reported = k.reported })
              v))
  ]

  on_call-Inv : (e : RuntimeEvent V) (c n : String) (s : Scan V) → Inv s → Ok Inv (on_call e c n s)
  unfolding on_call
  on_call-Inv e c n s v =
      Ok-with_operation Inv (Dict.get s.by_call (call_key e.invocation_id c)) s (known_call e c s)
        (some (push_op (call_key e.invocation_id c) (called_op e c n) s))
        (call_bound (call_key e.invocation_id c) s v)
        (λ i op found _.
          known_call-Inv e c s i op (call_bound (call_key e.invocation_id c) s v i found) v)
        (λ _.
          push_op-Inv (call_key e.invocation_id c) (called_op e c n) s
            (record { has_call = λ _. refl; reported = λ _. refl }) v)

  known_dispatch-Inv :
      (e : RuntimeEvent V) (d : ToolDispatch) (s : Scan V) (i : ℕ) (op : ToolLedgerScanOperation V)
      → i < length s.operations
      → Inv s
      → Ok Inv (known_dispatch e d s i op)
  unfolding known_dispatch
  known_dispatch-Inv e d s i op b v = elim (Bool-cases (is_some op.dispatch_event)) [
    | inl h ↦
        rw h (push_issue-Inv (some i) (issue duplicate_dispatch e d.provider_tool_call_id) s b v)
    | inr h ↦
        rw (h, update-in i (set_dispatch e d) s b)
          (bind-Inv d.operation_id i (with_update i (set_dispatch e d) s)
            (subst (λ n. i < n) (sym (length-modify s.operations i (set_dispatch e d))) b)
            (with_update-Inv i (set_dispatch e d) s
              (λ o k. record { has_call = k.has_call; reported = k.reported }) v))
  ]

  orphan_dispatched-Inv :
      (e : RuntimeEvent V) (d : ToolDispatch) (s : Scan V)
      → Inv s
      → Ok Inv (orphan_dispatched e d s)
  unfolding orphan_dispatched push_issue
  orphan_dispatched-Inv e d s v =
      let key = call_key e.invocation_id d.provider_tool_call_id in
      let op = dispatched_op e d in
      let x = issue orphan_dispatch e d.provider_tool_call_id in
      let flagged = with_issue (some (length s.operations)) x (push_op key op s) in
      let n = length-snoc s.operations op in
      Ok-at Inv (s.operations ++ op ∷ []) (length s.operations)
        (λ _. some (bind_operation d.operation_id (length s.operations) flagged)) (omega (arith, n))
        (λ _ _.
          bind-Inv d.operation_id (length s.operations) flagged
            (omega (
              arith,
              length-modify (s.operations ++ op ∷ []) (length s.operations) (add_issue x),
              n,
            ))
            (orphan-kept key op x s v))

  on_dispatch-Inv :
      (e : RuntimeEvent V) (d : ToolDispatch) (s : Scan V) → Inv s → Ok Inv (on_dispatch e d s)
  unfolding on_dispatch
  on_dispatch-Inv e d s v =
      let key = call_key e.invocation_id d.provider_tool_call_id in
      Ok-with_operation Inv (Dict.get s.by_call key) s (known_dispatch e d s)
        (orphan_dispatched e d s) (call_bound key s v)
        (λ i op found _. known_dispatch-Inv e d s i op (call_bound key s v i found) v)
        (λ _. orphan_dispatched-Inv e d s v)

  fact_bound :
      (s : Scan V)
      → Inv s
      → (o : Option String) (i : ℕ) → find_operation o s ≡ some i
      → i < length s.operations
  fact_bound s v none i h = cc
  fact_bound s v (some id) i h = lt-of-get _ s.by_operation id i v.ops h

  add_fact-Sound :
      (l : ToolLedgerLane) (e : RuntimeEvent V) (g : List ToolLedgerIssue)
      (op : ToolLedgerScanOperation V)
      → Sound g op
      → Sound g (add_fact l e op)
  add_fact-Sound reconcile_result_lane e g op h = record {
    has_call = h.has_call;
    reported = h.reported;
  }
  add_fact-Sound _ e g op h = record { has_call = h.has_call; reported = h.reported }

  on_recovery-Inv :
      (e : RuntimeEvent V) (f : ToolRecoveryFactEnvelope) (s : Scan V)
      → Inv s
      → Ok Inv (on_recovery e f s)
  unfolding on_recovery known_fact
  on_recovery-Inv e f s v =
      Ok-with_operation Inv (find_operation (fact_operation_id f) s) s (known_fact e s)
        (push_issue none (fact_issue e f) s) (fact_bound s v (fact_operation_id f))
        (λ i op found _.
          update-Inv i (add_fact (classify_lane e) e) s
            (fact_bound s v (fact_operation_id f) i found)
            (add_fact-Sound (classify_lane e) e s.issues) v)
        (λ _. push_issue-Inv none (fact_issue e f) s tt v)

  -- the response is set behind an issue, or behind none
  answered-Inv :
      (e : RuntimeEvent V) (i : ℕ) (s : Scan V)
      → i < length s.operations
      → Inv s
      → Ok Inv (update i (λ o. record o { response_event = some e }) s)
  answered-Inv e i s b v =
      update-Inv i (λ o. record o { response_event = some e }) s b
        (λ o k. record { has_call = k.has_call; reported = k.reported }) v

  known_response-Inv :
      (e : RuntimeEvent V) (c n : String) (s : Scan V) (i : ℕ) (op : ToolLedgerScanOperation V)
      → i < length s.operations
      → Inv s
      → Ok Inv (known_response e c n s i op)
  unfolding known_response
  known_response-Inv e c n s i op b v = elim (Bool-cases (is_some op.response_event)) [
    | inl h ↦ rw h (push_issue-Inv (some i) (issue duplicate_response e c) s b v)
    | inr h ↦ elim (Bool-cases (name_is op.tool_name n)) [
      | inl k ↦ rw (h, k) (answered-Inv e i s b v)
      | inr k ↦
          let x = issue identity_conflict e c in
          rw (h, k, push_issue-in i x s b)
            (answered-Inv e i (with_issue (some i) x s)
              (subst (λ n. i < n) (sym (length-modify s.operations i (add_issue x))) b)
              (with_issue-Inv (some i) x s v))
    ]
  ]

  on_response-Inv :
      (e : RuntimeEvent V) (c n : String) (s : Scan V) → Inv s → Ok Inv (on_response e c n s)
  unfolding on_response
  on_response-Inv e c n s v =
      let key = call_key e.invocation_id c in
      Ok-with_operation Inv (Dict.get s.by_call key) s (known_response e c n s)
        (push_issue (some (length s.operations)) (issue orphan_response e c)
          (push_op key (responded_op e c n) s))
        (call_bound key s v)
        (λ i op found _. known_response-Inv e c n s i op (call_bound key s v i found) v)
        (λ _. orphan-Inv key (responded_op e c n) (issue orphan_response e c) s v)

  -- An arm for a payload that may be missing.
  Ok-optional :
      {A : Type 0} (s : Scan V) (o : Option A) (k : A → Option (Scan V))
      → Inv s
      → ((a : A) → Ok Inv (k a))
      → Ok Inv (optional s o k)
  Ok-optional s none k v h = v
  Ok-optional s (some a) k v h = h a

  on_lane-Inv :
      (l : ToolLedgerLane) (c : Option (Content V)) (as' : Option (RuntimeEventActions V))
      (e : RuntimeEvent V) (s : Scan V)
      → Inv s
      → Ok Inv (on_lane l c as' e s)
  unfolding on_lane
  on_lane-Inv ToolLedgerLane.function_call (some (Content.function_call i n a p x)) as' e s v =
      on_call-Inv e i n s v
  on_lane-Inv ToolLedgerLane.tool_dispatch c as' e s v =
      Ok-optional s (tool_dispatch_of as') (λ d. on_dispatch e d s) v (λ d. on_dispatch-Inv e d s v)
  on_lane-Inv ToolLedgerLane.reconcile_result_lane c as' e s v =
      Ok-optional s (tool_recovery_of as') (λ f. on_recovery e f s) v (λ f. on_recovery-Inv e f s v)
  on_lane-Inv ToolLedgerLane.recovery_decision_lane c as' e s v =
      Ok-optional s (tool_recovery_of as') (λ f. on_recovery e f s) v (λ f. on_recovery-Inv e f s v)
  on_lane-Inv ToolLedgerLane.function_response (some (Content.function_response i n r b x o)) as' e
        s v =
      on_response-Inv e i n s v
  on_lane-Inv _ _ _ _ s v = v

  scan_event-Inv : (e : RuntimeEvent V) (s : Scan V) → Inv s → Ok Inv (scan_event e s)
  unfolding scan_event
  scan_event-Inv e s v = elim (Bool-cases (contains s.seen_event_ids e.id)) [
    | inl h ↦ rw h (
        push_issue-Inv none
          (record { code = duplicate_event_id; event_id = e.id; tool_call_id = none }) s tt v)
    | inr h ↦ rw h (
        on_lane-Inv (classify_lane e) e.content e.actions e _
          (record { calls = v.calls; ops = v.ops; sound = v.sound }))
  ]

  -- The loop ends with the invariant, whatever the ledger.
  pub scan_events-Inv :
      (es : List (RuntimeEvent V)) (s : Scan V) → Inv s → Ok Inv (scan_events es s)
  unfolding scan_events
  scan_events-Inv [] s v = v
  scan_events-Inv (e ∷ es) s v = go (scan_event e s) (scan_event-Inv e s v) (scan_events-Inv es)
    where
      go :
          (o : Option (Scan V))
          → Ok Inv o
          → ((s : Scan V) → Inv s → Ok Inv (scan_events es s))
          → Ok Inv (elim o [ none ↦ none | some s' ↦ scan_events es s' ])
      go none h k = h
      go (some s) h k = k s h

  pub start-Inv : Inv {V = V} start
  start-Inv = record { calls = tt; ops = tt; sound = tt }
