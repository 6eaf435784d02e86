-- ===== src/Ledger.antt =====
-- crates/meepo-core/src/tool_ledger_scanner.rs: the scan of a ledger for tool operations. A state of
-- the scan holds the local variables of `scan_tool_ledger`; `none` is the panic of an index out of
-- range, `operations[idx]`.
pub mod Invariant
pub mod Arms
use meepo.Prelude.{
  ℕ, String, Bool, true, false, Option, none, some, List, [], ◌∷◌, ◌++◌, ◌==◌, is_some, is_empty,
  not, contains, length, get_elem?, modify, if◌then◌else◌,
}
use meepo.Prelude.Dict
use meepo.Core.Fact.{
  ToolRecoveryFactEnvelope, reconcile_result, recovery_decision, kind_str,
  tool_reconcile_result_fact_kind,
}
use meepo.Core.Event.{Role, Content, RuntimeEvent, RuntimeEventActions, ToolDispatch}
use Prim.Native.String.{◌++◌ as str_append}

pub data ToolLedgerLane : Type 0 where
  ordinary function_call tool_dispatch function_response : ToolLedgerLane
  reconcile_result_lane recovery_decision_lane : ToolLedgerLane

pub data ToolLedgerIssueCode : Type 0 where
  duplicate_event_id duplicate_call duplicate_dispatch duplicate_response : ToolLedgerIssueCode
  orphan_response orphan_dispatch identity_conflict : ToolLedgerIssueCode
  recovery_fact_without_operation : ToolLedgerIssueCode

pub record ToolLedgerIssue : Type 0 where
  pub code : ToolLedgerIssueCode
  pub event_id : String
  pub tool_call_id : Option String

pub record ToolLedgerScanOperation (V : Type 0) : Type 0 where
  pub tool_call_id : String
  pub tool_name : Option String
  pub operation_id : Option String
  pub call_event : Option (RuntimeEvent V)
  pub dispatch_event : Option (RuntimeEvent V)
  pub response_event : Option (RuntimeEvent V)
  pub reconcile_events : List (RuntimeEvent V)
  pub decision_events : List (RuntimeEvent V)
  pub issues : List ToolLedgerIssue

pub record ToolLedgerScanResult (V : Type 0) : Type 0 where
  pub operations : List (ToolLedgerScanOperation V)
  pub issues : List ToolLedgerIssue
  pub has_corruption : Bool

pub record Scan (V : Type 0) : Type 0 where
  pub operations : List (ToolLedgerScanOperation V)
  pub issues : List ToolLedgerIssue
  pub seen_event_ids : List String
  pub by_call : List (String × ℕ)
  pub by_operation : List (String × ℕ)

abbrev pub start : {V : Type 0} → Scan V
start = record {
  operations = [];
  issues = [];
  seen_event_ids = [];
  by_call = [];
  by_operation = [];
}

unfoldable pub call_key : String → String → String
call_key invocation_id tool_call_id = str_append invocation_id (str_append "\u{1f}" tool_call_id)

unfoldable pub fact_operation_id : ToolRecoveryFactEnvelope → Option String
fact_operation_id (reconcile_result v f) = some f.operation_id
fact_operation_id (recovery_decision v f) = some f.operation_id

-- the arm for `(Role::System, None)`
abbrev pub system_lane : Option ToolRecoveryFactEnvelope → Option ToolDispatch → ToolLedgerLane
system_lane (some f) d =
    if kind_str f == tool_reconcile_result_fact_kind
    then reconcile_result_lane
    else recovery_decision_lane
system_lane none (some d) = tool_dispatch
system_lane none none = ordinary

abbrev name_is : Option String → String → Bool
name_is none n = false
name_is (some m) n = m == n

module _ {V : Type 0} where
  abbrev pub tool_dispatch_of : Option (RuntimeEventActions V) → Option ToolDispatch
  tool_dispatch_of none = none
  tool_dispatch_of (some a) = a.tool_dispatch

  abbrev pub tool_recovery_of : Option (RuntimeEventActions V) → Option ToolRecoveryFactEnvelope
  tool_recovery_of none = none
  tool_recovery_of (some a) = a.tool_recovery

  abbrev lane_of : Role → Option (Content V) → Option (RuntimeEventActions V) → ToolLedgerLane
  lane_of Role.model (some (Content.function_call i n a p x)) as' = function_call
  lane_of Role.tool (some (Content.function_response i n r e x o)) as' = function_response
  lane_of Role.system none as' = system_lane (tool_recovery_of as') (tool_dispatch_of as')
  lane_of _ _ _ = ordinary

  unfoldable pub classify_lane : RuntimeEvent V → ToolLedgerLane
  unfolding kind_str
  classify_lane e = lane_of e.role e.content e.actions

  abbrev pub add_issue : ToolLedgerIssue → ToolLedgerScanOperation V → ToolLedgerScanOperation V
  add_issue i op = record op { issues = op.issues ++ i ∷ [] }

  abbrev pub new_operation : String → Option String → ToolLedgerScanOperation V
  new_operation call_id name = record {
    tool_call_id = call_id;
    tool_name = name;
    operation_id = none;
    call_event = none;
    dispatch_event = none;
    response_event = none;
    reconcile_events = [];
    decision_events = [];
    issues = [];
  }

  abbrev pub with_update :
      ℕ → (ToolLedgerScanOperation V → ToolLedgerScanOperation V) → Scan V → Scan V
  with_update idx f s = record s { operations = modify s.operations idx f }

  -- `operations[idx]`, where `none` is the panic
  abbrev pub at :
      List (ToolLedgerScanOperation V)
      → ℕ
      → (ToolLedgerScanOperation V → Option (Scan V))
      → Option (Scan V)
  at ops idx k = elim (get_elem? ops idx) [ none ↦ none | some op ↦ k op ]

  -- `operations[idx].f = …`
  abbrev pub update :
      ℕ → (ToolLedgerScanOperation V → ToolLedgerScanOperation V) → Scan V → Option (Scan V)
  update idx f s = at s.operations idx (λ _. some (with_update idx f s))

  -- one statement behind another
  abbrev pub followed : Option (Scan V) → (Scan V → Option (Scan V)) → Option (Scan V)
  followed none k = none
  followed (some s) k = k s

  -- what `push_issue` writes where the index is in range
  abbrev pub with_issue : Option ℕ → ToolLedgerIssue → Scan V → Scan V
  with_issue none i s = record s { issues = s.issues ++ i ∷ [] }
  with_issue (some idx) i s = record s {
    issues = s.issues ++ i ∷ [];
    operations = modify s.operations idx (add_issue i);
  }

  -- `operations[i].issues.push(issue)` panics where the index is out of range.
  unfoldable pub push_issue : Option ℕ → ToolLedgerIssue → Scan V → Option (Scan V)
  push_issue none i s = some (with_issue none i s)
  push_issue (some idx) i s = at s.operations idx (λ _. some (with_issue (some idx) i s))

  -- `if let Some(&idx) = o { … } else { … }`
  abbrev pub if_let : Option ℕ → (ℕ → Option (Scan V)) → Option (Scan V) → Option (Scan V)
  if_let none f n = n
  if_let (some idx) f n = f idx

  abbrev pub issue : ToolLedgerIssueCode → RuntimeEvent V → String → ToolLedgerIssue
  issue c e call_id = record { code = c; event_id = e.id; tool_call_id = some call_id }

  -- `operations.push(op)` and `by_call.insert(key, idx)`
  abbrev pub push_op : String → ToolLedgerScanOperation V → Scan V → Scan V
  push_op key op s = record s {
    operations = s.operations ++ op ∷ [];
    by_call = Dict.insert s.by_call key (length s.operations);
  }

  -- `if let Some(&idx) = o { … operations[idx] … } else { … }`
  abbrev pub with_operation :
      Option ℕ
      → Scan V
      → (ℕ → ToolLedgerScanOperation V → Option (Scan V))
      → Option (Scan V)
      → Option (Scan V)
  with_operation o s k n = if_let o (λ idx. at s.operations idx (k idx)) n

  -- the arm `ToolLedgerLane::FunctionCall`, where the key is known
  pub known_call :
      RuntimeEvent V → String → Scan V → ℕ → ToolLedgerScanOperation V → Option (Scan V)
  unfolding push_issue
  known_call e call_id s idx op =
      if is_some op.call_event
      then push_issue (some idx) (issue duplicate_call e call_id) s
      else followed (update idx (λ o. record o { call_event = some e }) s)
          (push_issue (some idx) (issue identity_conflict e call_id))

  abbrev pub called_op : RuntimeEvent V → String → String → ToolLedgerScanOperation V
  called_op e call_id name = record (new_operation call_id (some name)) { call_event = some e }

  unfoldable pub on_call : RuntimeEvent V → String → String → Scan V → Option (Scan V)
  unfolding known_call call_key
  on_call e call_id name s =
      with_operation (Dict.get s.by_call (call_key e.invocation_id call_id)) s
        (known_call e call_id s)
        (some (push_op (call_key e.invocation_id call_id) (called_op e call_id name) s))

  abbrev pub bind_operation : String → ℕ → Scan V → Scan V
  bind_operation id idx s = record s { by_operation = Dict.insert s.by_operation id idx }

  abbrev pub set_dispatch :
      RuntimeEvent V → ToolDispatch → ToolLedgerScanOperation V → ToolLedgerScanOperation V
  set_dispatch e d o = record o { dispatch_event = some e; operation_id = some d.operation_id }

  -- the arm `ToolLedgerLane::ToolDispatch`, where the key is known
  pub known_dispatch :
      RuntimeEvent V → ToolDispatch → Scan V → ℕ → ToolLedgerScanOperation V → Option (Scan V)
  unfolding push_issue
  known_dispatch e d s idx op =
      if is_some op.dispatch_event
      then push_issue (some idx) (issue duplicate_dispatch e d.provider_tool_call_id) s
      else followed (update idx (set_dispatch e d) s)
          (λ s'. some (bind_operation d.operation_id idx s'))

  abbrev pub dispatched_op : RuntimeEvent V → ToolDispatch → ToolLedgerScanOperation V
  dispatched_op e d = record (new_operation d.provider_tool_call_id (some d.tool_name)) {
    operation_id = some d.operation_id;
    dispatch_event = some e;
  }

  -- the same arm, where no call precedes
  pub orphan_dispatched : RuntimeEvent V → ToolDispatch → Scan V → Option (Scan V)
  unfolding push_issue call_key
  orphan_dispatched e d s =
      push_issue (some (length s.operations)) (issue orphan_dispatch e d.provider_tool_call_id) (
        bind_operation d.operation_id (length s.operations)
          (push_op (call_key e.invocation_id d.provider_tool_call_id) (dispatched_op e d) s))

  unfoldable pub on_dispatch : RuntimeEvent V → ToolDispatch → Scan V → Option (Scan V)
  unfolding known_dispatch orphan_dispatched
  on_dispatch e d s =
      with_operation (Dict.get s.by_call (call_key e.invocation_id d.provider_tool_call_id)) s
        (known_dispatch e d s) (orphan_dispatched e d s)

  abbrev pub add_fact :
      ToolLedgerLane → RuntimeEvent V → ToolLedgerScanOperation V → ToolLedgerScanOperation V
  add_fact reconcile_result_lane e op = record op {
    reconcile_events = op.reconcile_events ++ e ∷ [];
  }
  add_fact recovery_decision_lane e op = record op {
    decision_events = op.decision_events ++ e ∷ [];
  }
  add_fact _ e op = op

  abbrev pub find_operation : Option String → Scan V → Option ℕ
  find_operation none s = none
  find_operation (some id) s = Dict.get s.by_operation id

  -- the arm for the two recovery lanes, where the operation is known
  pub known_fact : RuntimeEvent V → Scan V → ℕ → ToolLedgerScanOperation V → Option (Scan V)
  unfolding classify_lane
  known_fact e s idx op = update idx (add_fact (classify_lane e) e) s

  pub fact_issue : RuntimeEvent V → ToolRecoveryFactEnvelope → ToolLedgerIssue
  unfolding fact_operation_id
  fact_issue e f = record {
    code = recovery_fact_without_operation;
    event_id = e.id;
    tool_call_id = fact_operation_id f;
  }

  unfoldable pub on_recovery : RuntimeEvent V → ToolRecoveryFactEnvelope → Scan V → Option (Scan V)
  unfolding known_fact fact_issue push_issue
  on_recovery e f s =
      with_operation (find_operation (fact_operation_id f) s) s (known_fact e s)
        (push_issue none (fact_issue e f) s)

  -- the arm `ToolLedgerLane::FunctionResponse`, where the key is known
  pub known_response :
      RuntimeEvent V → String → String → Scan V → ℕ → ToolLedgerScanOperation V → Option (Scan V)
  unfolding push_issue
  known_response e call_id name s idx op =
      if is_some op.response_event
      then push_issue (some idx) (issue duplicate_response e call_id) s
      else followed
          (if name_is op.tool_name name
            then some s
            else push_issue (some idx) (issue identity_conflict e call_id) s)
          (update idx (λ o. record o { response_event = some e }))

  abbrev pub responded_op : RuntimeEvent V → String → String → ToolLedgerScanOperation V
  responded_op e call_id name = record (new_operation call_id (some name)) {
    response_event = some e;
  }

  unfoldable pub on_response : RuntimeEvent V → String → String → Scan V → Option (Scan V)
  unfolding known_response push_issue call_key
  on_response e call_id name s =
      with_operation (Dict.get s.by_call (call_key e.invocation_id call_id)) s
        (known_response e call_id name s)
        (push_issue (some (length s.operations)) (issue orphan_response e call_id)
          (push_op (call_key e.invocation_id call_id) (responded_op e call_id name) s))

  -- `let Some(x) = o else { continue };`
  abbrev pub optional : {A : Type 0} → Scan V → Option A → (A → Option (Scan V)) → Option (Scan V)
  optional s none k = some s
  optional s (some a) k = k a

  -- each arm, with the `else { continue }` of its patterns
  unfoldable pub on_lane :
      ToolLedgerLane
      → Option (Content V)
      → Option (RuntimeEventActions V)
      → RuntimeEvent V
      → Scan V
      → Option (Scan V)
  on_lane function_call (some (Content.function_call i n a p x)) as' e s = on_call e i n s
  on_lane tool_dispatch c as' e s = optional s (tool_dispatch_of as') (λ d. on_dispatch e d s)
  on_lane reconcile_result_lane c as' e s =
      optional s (tool_recovery_of as') (λ f. on_recovery e f s)
  on_lane recovery_decision_lane c as' e s =
      optional s (tool_recovery_of as') (λ f. on_recovery e f s)
  on_lane function_response (some (Content.function_response i n r b x o)) as' e s =
      on_response e i n s
  on_lane _ _ _ _ s = some s

  -- one round of the loop
  unfoldable pub scan_event : RuntimeEvent V → Scan V → Option (Scan V)
  scan_event e s =
      if contains s.seen_event_ids e.id
      then push_issue none
          (record { code = duplicate_event_id; event_id = e.id; tool_call_id = none }) s
      else on_lane (classify_lane e) e.content e.actions e
          (record s { seen_event_ids = e.id ∷ s.seen_event_ids })

  unfoldable pub scan_events : List (RuntimeEvent V) → Scan V → Option (Scan V)
  scan_events [] s = some s
  scan_events (e ∷ es) s = elim (scan_event e s) [ none ↦ none | some s' ↦ scan_events es s' ]

  abbrev pub finish : Scan V → ToolLedgerScanResult V
  finish s = record {
    operations = s.operations;
    issues = s.issues;
    has_corruption = not (is_empty s.issues);
  }

  abbrev pub finish_all : Option (Scan V) → Option (ToolLedgerScanResult V)
  finish_all none = none
  finish_all (some s) = some (finish s)

  unfoldable pub scan_tool_ledger : List (RuntimeEvent V) → Option (ToolLedgerScanResult V)
  scan_tool_ledger events = finish_all (scan_events events start)
