-- ===== src/Core/Store.antt =====
-- crates/meepo-core/src/store.rs: the append-only ledger port, and its in-memory implementation. A
-- method returns the new store; the in-memory ones never fail.
pub mod Laws
use Prim.Native.Nat.{Ordering}
use Prim.Native.String.{compare}
use meepo.Prelude.{
  String, Bool, true, false, ◌&&◌, Option, none, some, List, [], ◌∷◌, ◌++◌, ◌==◌, any,
  if◌then◌else◌,
}
use meepo.Core.Event.{Status, RuntimeEvent, is_terminal}

pub data Durability : Type 0 where
  best_effort canonical : Durability

-- The port. `append` and `ensure_terminal` give the store that a call leaves, whether it fails or not:
-- the runtime drops their results. `read_session` is the result with its error taken as empty.
pub record RuntimeEventStore (V : Type 0) : Type 1 where
  pub State : Type 0
  pub append : State → String → String → RuntimeEvent V → Bool → State
  pub ensure_terminal : State → String → String → RuntimeEvent V → State
  pub read_session : State → String → List (RuntimeEvent V)

-- `runs`: (session_id, run_id) to events, in append order
pub record InMemoryRuntimeEventStore (V : Type 0) : Type 0 where
  pub durability : Durability
  pub runs : List (String × String × List (RuntimeEvent V))

abbrev pub status_is_terminal : Option Status → Bool
status_is_terminal none = false
status_is_terminal (some s) = is_terminal s

module _ {V : Type 0} where
  -- `e.status.is_some_and(|s| s.is_terminal())`
  abbrev pub is_terminal_event : RuntimeEvent V → Bool
  is_terminal_event e = status_is_terminal e.status

  unfoldable pub run_events :
      List (String × String × List (RuntimeEvent V)) → String → String → List (RuntimeEvent V)
  run_events [] sid rid = []
  run_events ((s, r, es) ∷ m) sid rid =
      if (s == sid) && (r == rid) then es else run_events m sid rid

  -- `runs.entry((session_id, run_id)).or_default().push(event)`
  unfoldable pub push_event :
      List (String × String × List (RuntimeEvent V))
      → String
      → String
      → RuntimeEvent V
      → List (String × String × List (RuntimeEvent V))
  push_event [] sid rid e = (sid, rid, e ∷ []) ∷ []
  push_event ((s, r, es) ∷ m) sid rid e =
      if (s == sid) && (r == rid)
      then (s, r, es ++ e ∷ []) ∷ m
      else (s, r, es) ∷ push_event m sid rid e

  unfoldable pub append_runtime_event :
      InMemoryRuntimeEventStore V
      → String
      → String
      → RuntimeEvent V
      → Bool
      → InMemoryRuntimeEventStore V
  unfolding push_event
  append_runtime_event st sid rid e durable = record st { runs = push_event st.runs sid rid e }

  unfoldable pub read_runtime_events :
      InMemoryRuntimeEventStore V → String → String → List (RuntimeEvent V)
  unfolding run_events
  read_runtime_events st sid rid = run_events st.runs sid rid

  unfoldable pub ensure_terminal_runtime_event_durable :
      InMemoryRuntimeEventStore V → String → String → RuntimeEvent V → InMemoryRuntimeEventStore V
  unfolding run_events push_event
  ensure_terminal_runtime_event_durable st sid rid e =
      if any is_terminal_event (run_events st.runs sid rid)
      then st
      else record st { runs = push_event st.runs sid rid e }

  unfoldable pub session_events :
      List (String × String × List (RuntimeEvent V)) → String → List (RuntimeEvent V)
  session_events [] sid = []
  session_events ((s, r, es) ∷ m) sid =
      let rest = session_events m sid in if s == sid then es ++ rest else rest

  -- `all.sort_by(|a, b| a.id.cmp(&b.id))`, a stable sort
  unfoldable pub insert_by_id : RuntimeEvent V → List (RuntimeEvent V) → List (RuntimeEvent V)
  insert_by_id e [] = e ∷ []
  insert_by_id e (x ∷ xs) = elim (compare e.id x.id) [
    | Ordering.gt ↦ x ∷ insert_by_id e xs
    | _ ↦ e ∷ x ∷ xs
  ]

  unfoldable pub sort_by_id : List (RuntimeEvent V) → List (RuntimeEvent V)
  unfolding insert_by_id
  sort_by_id [] = []
  sort_by_id (e ∷ es) = insert_by_id e (sort_by_id es)

  unfoldable pub read_session_runtime_events :
      InMemoryRuntimeEventStore V → String → List (RuntimeEvent V)
  unfolding session_events sort_by_id
  read_session_runtime_events st sid = sort_by_id (session_events st.runs sid)

-- the in-memory store as an implementation of the port
abbrev pub in_memory : (V : Type 0) → RuntimeEventStore V
in_memory V = record {
  State = InMemoryRuntimeEventStore V;
  append = append_runtime_event;
  ensure_terminal = ensure_terminal_runtime_event_durable;
  read_session = read_session_runtime_events;
}
