-- ===== src/Storage/Operations.antt =====
-- crates/meepo-storage/src/lib.rs: the tool operations, and the events of headless task runs. `T` is
-- `meepo_headless::TaskEvent`; `to_string` and `from_str` stand for serde_json and may fail.
use meepo.Prelude.{
  ℕ, String, Bool, false, ◌||◌, ◌&&◌, Option, none, some, List, [], ◌∷◌, keep, ltb, leb, nat_eq,
  if◌then◌else◌, Result, ok, err, ◌==◌, ◌>>=◌,
}
use meepo.Prelude.Int.{ℤ, pos, negsuc}
use meepo.Prelude.Text.{join, show}
use meepo.Storage.{SqliteStore, ToolOperation, TaskRunEvent, StoreError}
use meepo.Storage.Table.{insert_or_replace, order_by}

abbrev is_positive_version : ℤ → Bool
is_positive_version (pos n) = ltb 0 n
is_positive_version (negsuc n) = false

-- the PRIMARY KEY, and UNIQUE (invocation_id, provider_tool_call_id)
unfoldable same_operation : ToolOperation → ToolOperation → Bool
same_operation a b =
    (a.operation_id == b.operation_id)
    || ((a.invocation_id == b.invocation_id)
        && (a.provider_tool_call_id == b.provider_tool_call_id))

unfoldable pub record_tool_operation : ToolOperation → SqliteStore → Result SqliteStore StoreError
unfolding insert_or_replace same_operation
record_tool_operation op st =
    if is_positive_version op.version
    then ok (record st { tool_operations = insert_or_replace same_operation op st.tool_operations })
    else err StoreError.constraint_failed

unfoldable pub find_operation : List ToolOperation → String → Option ToolOperation
find_operation [] oid = none
find_operation (o ∷ rows) oid = if o.operation_id == oid then some o else find_operation rows oid

unfoldable read_tool_operation : SqliteStore → String → Option ToolOperation
unfolding find_operation
read_tool_operation st oid = find_operation st.tool_operations oid

-- the PRIMARY KEY (task_run_id, sequence)
abbrev same_sequence : TaskRunEvent → TaskRunEvent → Bool
same_sequence a b = (a.task_run_id == b.task_run_id) && nat_eq a.sequence b.sequence

unfoldable append_task_run_event : TaskRunEvent → SqliteStore → SqliteStore
unfolding insert_or_replace
append_task_run_event e st = record st {
  task_run_events = insert_or_replace same_sequence e st.task_run_events;
}

abbrev of_task : String → TaskRunEvent → Bool
of_task tid e = e.task_run_id == tid

-- `ORDER BY sequence ASC`
unfoldable read_task_run_events : SqliteStore → String → List TaskRunEvent
unfolding order_by
read_task_run_events st tid =
    order_by (λ a b. leb a.sequence b.sequence) (keep (of_task tid) st.task_run_events)

abbrev appended_record : String → ℕ → SqliteStore → Option String → Result SqliteStore StoreError
appended_record tid n st none = err StoreError.json_failed
appended_record tid n st (some json) = ok (
    append_task_run_event
      (record {
        task_run_id = tid;
        sequence = n;
        event_id = join tid (join "-" (show n));
        record_json = json;
      })
      st)

module _ {T : Type 0} where
  -- `TaskRunStore::append_event`
  unfoldable append_event :
      (T → Option String) → SqliteStore → String → ℕ → T → Result SqliteStore StoreError
  append_event to_string st tid n e = appended_record tid n st (to_string e)

  abbrev parsed_record : Option T → Result (List T) StoreError → Result (List T) StoreError
  parsed_record none rest = err StoreError.json_failed
  parsed_record (some e) rest = rest >>= λ es. ok (e ∷ es)

  unfoldable parse_records : (String → Option T) → List TaskRunEvent → Result (List T) StoreError
  parse_records from_str [] = ok []
  parse_records from_str (r ∷ rows) =
      parsed_record (from_str r.record_json) (parse_records from_str rows)

  -- `TaskRunStore::read_events`
  unfoldable read_events : (String → Option T) → SqliteStore → String → Result (List T) StoreError
  unfolding read_task_run_events parse_records
  read_events from_str st tid = parse_records from_str (read_task_run_events st tid)
