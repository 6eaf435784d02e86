-- ===== src/Examples/Core.antt =====
-- Runs of the in-memory ledger.
use meepo.Core.Event.{is_terminal}
use meepo.Runtime.Mapping.{map_session_event}
use mathlib.Core.List.{[]}
use meepo.Prelude.{[], refl, ◌≡◌, max}
use meepo.Examples.{sample_event, sample_call, sample_complete, String, false, map_session_event}
use meepo.Core.Store.{
  InMemoryRuntimeEventStore, read_runtime_events, append_runtime_event, Durability,
  ensure_terminal_runtime_event_durable,
}
use meepo.Core.Store.Laws.{count_terminal, count_terminal-ensure}

abbrev pub empty_store : InMemoryRuntimeEventStore String
empty_store = record { durability = Durability.best_effort; runs = [] }

abbrev one_run : InMemoryRuntimeEventStore String
one_run = append_runtime_event empty_store "s" "run-1" (sample_event sample_call) false

count_terminal-ensure_example :
    count_terminal (
      read_runtime_events
        (ensure_terminal_runtime_event_durable one_run "s" "run-1" (sample_event sample_complete))
        "s"
        "run-1")
    ≡ max 1 (count_terminal (read_runtime_events one_run "s" "run-1"))
unfolding map_session_event is_terminal
count_terminal-ensure_example =
    count_terminal-ensure one_run "s" "run-1" (sample_event sample_complete) refl
