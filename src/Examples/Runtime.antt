-- ===== src/Examples/Runtime.antt =====
-- Runs of the mapping, the projection, compaction, checkpoints, the runner and the session.
use meepo.Prelude.Text.{show}
use meepo.Runtime.Runner.{user_event}
use meepo.Prelude.{
  ◌≡◌, ◌≤◌, ◌<◌, ◌+◌, ◌⊎◌, refl, max, String, true, false, none, some, List, [], ◌∷◌, ◌++◌, length,
  take, ok,
}
use meepo.Prelude.Int.{pos}
use meepo.Examples.{
  sample_ledger, crashed_ledger, sample_dispatch, sample_backend, sample_context, sample_summary,
  same_text, ChatMessage,
}
use meepo.Runtime.Mapping.{map_session_event}
use meepo.Core.Event.{RuntimeEvent}
use meepo.Ledger.{classify_lane}
use meepo.Core.Store.{InMemoryRuntimeEventStore, Durability, read_runtime_events, in_memory}
use meepo.Runtime.Mapping.Lanes.{expected_lane, classify_lane-map_session_event}
use meepo.Runtime.Compaction.{compact_if_needed_with, default_keep_recent}
use meepo.Runtime.Compaction.Laws.{is_wire_valid, is_wire_valid-compact}
use meepo.Runtime.Checkpoint.{
  HistoryCompactCheckpoint, build_checkpoint, verify_checkpoint_prefix, digest_input,
}
use meepo.Runtime.Runner.{BackendSendInput, run}
use meepo.Runtime.Session.{
  SessionManager, is_running, turn_input, SessionStatus, TurnResult, send_turn_streaming, send_turn,
}
use meepo.Runtime.Checkpoint.Coverage.{verify-build, verify-covers}
use meepo.Runtime.Runner.Laws.{expected_run, run-expected}
use meepo.Core.Store.Laws.{count_terminal}
use meepo.Runtime.Session.RunIds.{run_number, run_number-send_turn}
use meepo.Runtime.Session.Returns.{next_run, turn_events}
use meepo.Runtime.Session.Terminal.{count_ending, send_turn-count_terminal}

classify_lane-map_session_event_example :
    classify_lane (map_session_event same_text sample_dispatch sample_context)
    ≡ expected_lane sample_dispatch
classify_lane-map_session_event_example =
    classify_lane-map_session_event same_text sample_dispatch sample_context

abbrev long_history : List (ChatMessage String)
long_history =
    ChatMessage.user "one"
    ∷ ChatMessage.assistant none (record { id = "c1"; name = "Read"; args = "{}" } ∷ []) []
    ∷ ChatMessage.tool "c1" "text"
    ∷ ChatMessage.assistant (some "two") [] []
    ∷ []

is_wire_valid-compact_example :
    is_wire_valid false
      (compact_if_needed_with same_text sample_summary long_history 3 2 none).messages
    ≡ true
unfolding is_wire_valid
is_wire_valid-compact_example =
    is_wire_valid-compact same_text sample_summary long_history 3 2 none refl

abbrev event_text : RuntimeEvent String → String
event_text e = e.id

abbrev sample_checkpoint : HistoryCompactCheckpoint
sample_checkpoint = record {
  checkpoint_id = "ckpt-s-3";
  session_id = "s";
  created_at_ts = pos 9;
  event_count = 3;
  turn_count = 1;
  through_run_id = "run-1";
  through_turn_id = "turn-1";
  through_event_id = "e2";
  source_digest = "sha256:inv-1-user\ne1\ne2\n";
  summary = "they talked";
  previous_checkpoint_id = none;
}

built_sample :
    build_checkpoint event_text same_text "s" crashed_ledger "they talked " none (pos 9)
    ≡ some sample_checkpoint
unfolding build_checkpoint user_event map_session_event show
built_sample = refl

verify-build_example :
    verify_checkpoint_prefix event_text same_text sample_checkpoint
      (crashed_ledger ++ sample_ledger)
    ≡ ok tt
verify-build_example =
    verify-build event_text same_text "s" "they talked " crashed_ledger sample_ledger none (pos 9)
      sample_checkpoint built_sample

verified_sample :
    verify_checkpoint_prefix event_text same_text sample_checkpoint sample_ledger ≡ ok tt
unfolding verify_checkpoint_prefix map_session_event user_event
verified_sample = refl

verify-covers_example :
    (length crashed_ledger ≤ length sample_ledger)
    × (digest_input event_text (take (length crashed_ledger) sample_ledger)
        ≡ digest_input event_text crashed_ledger)
verify-covers_example =
    verify-covers event_text same_text (λ s t e. e) "s" "they talked " crashed_ledger sample_ledger
      none (pos 9) sample_checkpoint built_sample verified_sample

abbrev fresh_session : SessionManager String
fresh_session = record {
  session_id = "s";
  status = SessionStatus.waiting_for_user;
  messages = [];
  compact_summary = none;
  recovery_needed = false;
}

abbrev sample_input : BackendSendInput String
sample_input = turn_input fresh_session none []

run-expected_example :
    run sample_backend sample_context sample_input none
    ≡ some (expected_run sample_backend sample_context sample_input none)
run-expected_example = run-expected sample_backend sample_context sample_input none

abbrev empty_store : InMemoryRuntimeEventStore String
empty_store = record { durability = Durability.best_effort; runs = [] }

send_turn-count_terminal_example :
    (r : TurnResult String × SessionManager String × InMemoryRuntimeEventStore String)
    × (send_turn_streaming fresh_session sample_backend
          (in_memory String)
          empty_store
          "hello"
          none
          []
        ≡ some r)
    × (count_terminal (read_runtime_events r.2 "s" (next_run fresh_session "hello"))
        ≡ max 1 (count_ending (turn_events fresh_session sample_backend "hello" none [])))
unfolding is_running read_runtime_events
send_turn-count_terminal_example =
    send_turn-count_terminal fresh_session sample_backend empty_store "hello" none [] refl refl

run_number-send_turn_example :
    (r : TurnResult String × SessionManager String × InMemoryRuntimeEventStore String) × (send_turn
        fresh_session sample_backend
        (in_memory String)
        empty_store
        "hello"
        none
        []
      ≡ some r)
    × (((r.1.compact_summary ≡ none) × (run_number fresh_session < run_number r.1))
        ⊎ ((m : String) × (r.1.compact_summary ≡ some m)
            × (run_number r.1
                ≤ default_keep_recent
                  + 2
                  + length (turn_events fresh_session sample_backend "hello" none []))))
unfolding is_running
run_number-send_turn_example =
    run_number-send_turn fresh_session sample_backend (in_memory String) empty_store "hello" none []
      refl
