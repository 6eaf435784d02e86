-- ===== src/Examples.antt =====
-- Sample data that the examples share: one turn with a tool, over JSON values that are their text.
pub mod Core
pub mod Recovery
pub mod Runtime
pub mod Host
pub mod Permission
pub mod InteractionHub
pub mod Storage
pub mod Continuity
pub mod Turns
pub mod Requests
pub mod Wire
pub mod Headless
pub mod Sandbox
use meepo.Prelude.{String, Bool, true, false, Option, none, some, List, [], ◌∷◌, map, ok, Result}
use meepo.Prelude.Int.{pos}
use meepo.Core.Event.{RuntimeEvent, ToolRecoveryMode}
use meepo.Core.SessionEvent.{SessionEvent, StopReason, AbortReason}
use meepo.Core.Chat.{ChatMessage}
use meepo.Runtime.Mapping.{InvocationContext, map_session_event}
use meepo.Runtime.Runner.{AgentBackend, user_event}

abbrev pub same_text : String → String
same_text s = s

abbrev pub some_text : String → Option String
some_text s = some s

abbrev pub sample_context : InvocationContext
sample_context = record {
  session_id = "s";
  run_id = "run-1";
  invocation_id = "inv-1";
  turn_id = "turn-1";
}

abbrev pub sample_call : SessionEvent String
sample_call = SessionEvent.tool_call "e1" "turn-1" (pos 1) "c1" "Read" "{}"

abbrev pub sample_dispatch : SessionEvent String
sample_dispatch =
    SessionEvent.tool_dispatch "e2" "turn-1" (pos 2) "o1" "c1" "Read" "hash"
      ToolRecoveryMode.replay_safe

abbrev pub sample_result : SessionEvent String
sample_result = SessionEvent.tool_result "e3" "turn-1" (pos 3) "c1" "Read" "text" false

abbrev pub sample_complete : SessionEvent String
sample_complete = SessionEvent.complete "e4" "turn-1" (pos 4) StopReason.end_turn

abbrev pub sample_abort : SessionEvent String
sample_abort = SessionEvent.abort "e5" "turn-1" (pos 5) AbortReason.user_stop

abbrev pub sample_stream : List (SessionEvent String)
sample_stream = sample_call ∷ sample_dispatch ∷ sample_result ∷ sample_complete ∷ []

abbrev pub sample_event : SessionEvent String → RuntimeEvent String
sample_event e = map_session_event same_text e sample_context

-- The ledger of the turn: the user's message, then the stream.
abbrev pub sample_ledger : List (RuntimeEvent String)
sample_ledger = user_event sample_context "read it" ∷ map sample_event sample_stream

-- The ledger of a crash behind the dispatch.
abbrev pub crashed_ledger : List (RuntimeEvent String)
crashed_ledger =
    user_event sample_context "read it" ∷ map sample_event (sample_call ∷ sample_dispatch ∷ [])

abbrev pub sample_summary : List (ChatMessage String) → Result String String
sample_summary ms = ok "they talked"

-- A backend whose stream is the sample's, whatever it is asked.
abbrev pub sample_backend : AgentBackend String
sample_backend = record {
  string_value = same_text;
  to_string = same_text;
  compact_history = sample_summary;
  send_cancellable = λ input. sample_stream;
}
