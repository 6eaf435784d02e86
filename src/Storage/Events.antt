-- ===== src/Storage/Events.antt =====
-- crates/meepo-storage/src/lib.rs: the runtime events, as the store's `RuntimeEventStore`. `to_json`
-- stands for `RuntimeEvent::to_canonical_json` and `from_str` for `serde_json::from_str`; both may
-- fail.
pub mod Numbering
pub mod Order
pub mod Reads
use Prim.Native.Nat.{Ordering}
use Prim.Native.String.{compare}
use meepo.Prelude.{
  ℕ, suc, max, String, Bool, true, false, ◌&&◌, ◌||◌, Option, none, some, List, [], ◌∷◌, ◌==◌, any,
  keep, map, length, ltb, nat_eq, if◌then◌else◌, Result, ok, err, ◌>>=◌,
}
use meepo.Core.Event.{RuntimeEvent, Content, Status}
use meepo.Core.Store.{Durability, is_terminal_event}
use meepo.Storage.{RuntimeEventRow, SqliteStore, StoreError}
use meepo.Storage.Table.{insert_row, order_by}

abbrev pub durability : SqliteStore → Durability
durability st = Durability.canonical

-- the PRIMARY KEY and the UNIQUE constraint of the table
abbrev pub same_event : RuntimeEventRow → RuntimeEventRow → Bool
same_event r s =
    (r.event_id == s.event_id)
    || ((r.invocation_id == s.invocation_id) && nat_eq r.event_seq s.event_seq)

abbrev pub of_invocation : String → RuntimeEventRow → Bool
of_invocation iid r = r.invocation_id == iid

abbrev pub of_run : String → String → RuntimeEventRow → Bool
of_run sid rid r = (r.session_id == sid) && (r.run_id == rid)

-- `COALESCE(MAX(..), 0)`
unfoldable pub maximum : List ℕ → ℕ
maximum [] = 0
maximum (n ∷ ns) = max n (maximum ns)

unfoldable pub event_seqs : List RuntimeEventRow → String → List ℕ
event_seqs rows iid = map (λ r. r.event_seq) (keep (of_invocation iid) rows)

unfoldable pub next_event_seq : List RuntimeEventRow → String → ℕ
unfolding event_seqs maximum
next_event_seq rows iid = suc (maximum (event_seqs rows iid))

abbrev text_leq : String → String → Bool
text_leq a b = elim (compare a b) [ Ordering.gt ↦ false | _ ↦ true ]

-- `ORDER BY event_seq ASC, event_id ASC`
abbrev pub seq_leq : RuntimeEventRow → RuntimeEventRow → Bool
seq_leq r s =
    ltb r.event_seq s.event_seq
    || (nat_eq r.event_seq s.event_seq && text_leq r.event_id s.event_id)

unfoldable pub read_runtime_event_high_water : SqliteStore → String → String → ℕ
read_runtime_event_high_water st sid rid = length (keep (of_run sid rid) st.runtime_events)

abbrev pub with_events :
    SqliteStore → Result (List RuntimeEventRow) StoreError → Result SqliteStore StoreError
with_events st (ok rows) = ok (record st { runtime_events = rows })
with_events st (err e) = err e

module _ {V : Type 0} where
  abbrev pub runtime_event_kind : Option (Content V) → Option Status → String
  runtime_event_kind (some (Content.text t o s)) st = "text"
  runtime_event_kind (some (Content.thinking t s o)) st = "thinking"
  runtime_event_kind (some (Content.function_call i n a o p)) st = "function_call"
  runtime_event_kind (some (Content.function_response i n r x p o)) st = "function_response"
  runtime_event_kind (some (Content.error m c r d)) st = "error"
  runtime_event_kind none (some s) = "terminal"
  runtime_event_kind none none = "event"

  unfoldable pub event_row : String → ℕ → RuntimeEvent V → RuntimeEventRow
  event_row payload next e = record {
    event_id = e.id;
    session_id = e.session_id;
    invocation_id = e.invocation_id;
    run_id = e.run_id;
    turn_id = e.turn_id;
    event_seq = next;
    event_kind = runtime_event_kind e.content e.status;
    payload_json = payload;
    committed_at = e.ts;
  }

  unfoldable pub append_row :
      Option String
      → List RuntimeEventRow
      → RuntimeEvent V
      → Result (List RuntimeEventRow) StoreError
  unfolding insert_row next_event_seq event_row
  append_row none rows e = err StoreError.json_failed
  append_row (some payload) rows e =
      insert_row same_event (event_row payload (next_event_seq rows e.invocation_id) e) rows

  -- The row takes the event's own ids: the session and the run of the call are not looked at.
  unfoldable pub append_runtime_event :
      (RuntimeEvent V → Option String)
      → SqliteStore
      → String
      → String
      → RuntimeEvent V
      → Bool
      → Result SqliteStore StoreError
  unfolding append_row
  append_runtime_event to_json st sid rid e durable =
      with_events st (append_row (to_json e) st.runtime_events e)

  abbrev parsed :
      Option (RuntimeEvent V)
      → Result (List (RuntimeEvent V)) StoreError
      → Result (List (RuntimeEvent V)) StoreError
  parsed none rest = err StoreError.json_failed
  parsed (some e) rest = rest >>= λ es. ok (e ∷ es)

  -- the rows of a query, parsed one by one up to the first failure
  unfoldable pub parse_rows :
      (String → Option (RuntimeEvent V))
      → List RuntimeEventRow
      → Result (List (RuntimeEvent V)) StoreError
  parse_rows from_str [] = ok []
  parse_rows from_str (r ∷ rows) = parsed (from_str r.payload_json) (parse_rows from_str rows)

  unfoldable pub read_runtime_events :
      (String → Option (RuntimeEvent V))
      → SqliteStore
      → String
      → String
      → Result (List (RuntimeEvent V)) StoreError
  unfolding parse_rows order_by
  read_runtime_events from_str st sid rid =
      parse_rows from_str (order_by seq_leq (keep (of_run sid rid) st.runtime_events))

  -- `ORDER BY rowid ASC` is the order of the table.
  unfoldable pub read_session_runtime_events :
      (String → Option (RuntimeEvent V))
      → SqliteStore
      → String
      → Result (List (RuntimeEvent V)) StoreError
  unfolding parse_rows
  read_session_runtime_events from_str st sid =
      parse_rows from_str (keep (λ r. r.session_id == sid) st.runtime_events)

  -- The read and the append hold the lock one after the other; nothing else writes in between here.
  unfoldable pub ensure_terminal_runtime_event_durable :
      (RuntimeEvent V → Option String)
      → (String → Option (RuntimeEvent V))
      → SqliteStore
      → String
      → String
      → RuntimeEvent V
      → Result SqliteStore StoreError
  unfolding read_runtime_events append_runtime_event
  ensure_terminal_runtime_event_durable to_json from_str st sid rid e =
      read_runtime_events from_str st sid rid >>= λ existing.
      if any is_terminal_event existing
      then ok st
      else append_runtime_event to_json st sid rid e true
