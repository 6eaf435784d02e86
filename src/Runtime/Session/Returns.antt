-- ===== src/Runtime/Session/Returns.antt =====
-- crates/meepo-runtime/src/session.rs: what one admitted turn returns.
use meepo.Prelude.{◌++◌, refl, ◌≡◌, String, Option, List, length, last, false, some, map}
use meepo.Runtime.Session.{
  SessionManager, AgentBackend, numbered, with_message, BackendSendInput, InvocationContext,
  TurnResult, RuntimeEventStore, send_turn_streaming, turn_input, turn_context, finalize_turn,
  is_running,
}
use meepo.Core.SessionEvent.{SessionEvent}
use meepo.Runtime.Runner.{RunResult, stream_of, terminal_of, run_status, progress_of, compacted}
use meepo.Runtime.Runner.Laws.{opening, collect-run_stream}
use meepo.Runtime.Mapping.{map_session_event}

module _ {V : Type 0} where
  -- The stream of the backend for one turn of the session.
  abbrev pub turn_events :
      SessionManager V → AgentBackend V → String → Option String → List V → List (SessionEvent V)
  turn_events s backend user_message system_prompt tools =
      stream_of backend (turn_input (with_message s user_message) system_prompt tools)
        s.compact_summary

  -- The run that the next turn of the session writes its events under.
  abbrev pub next_run : SessionManager V → String → String
  next_run s user_message = numbered "run-" (length (with_message s user_message).messages)

  module _ (s : SessionManager V) (backend : AgentBackend V) (user_message : String)
      (system_prompt : Option String) (tools : List V) where
    abbrev input : BackendSendInput V
    input = turn_input (with_message s user_message) system_prompt tools

    abbrev ctx : InvocationContext
    ctx = turn_context (with_message s user_message)

    abbrev pub turn_result : RunResult V
    turn_result = record {
      events =
          opening ctx (last input.messages)
          ++ map (λ se. map_session_event backend.string_value se ctx)
              (turn_events s backend user_message system_prompt tools);
      terminal = terminal_of backend ctx input s.compact_summary;
      status = run_status (terminal_of backend ctx input s.compact_summary);
      messages = (progress_of backend input s.compact_summary).messages;
      compact_summary = (compacted backend input s.compact_summary).summary;
    }

    -- What the turn leaves: the session and the store after `finalize_turn` on the turn's result.
    abbrev pub returned :
        (st : RuntimeEventStore V) → st.State → TurnResult V × SessionManager V × st.State
    returned st store =
        finalize_turn (with_message s user_message) st store (next_run s user_message)
          turn_result.terminal turn_result.events turn_result.messages turn_result.compact_summary
          turn_result.status

    pub send_turn_streaming-returned :
        (st : RuntimeEventStore V) (store : st.State)
        → is_running s.status ≡ false
        → send_turn_streaming s backend st store user_message system_prompt tools
          ≡ some (returned st store)
    unfolding send_turn_streaming
    send_turn_streaming-returned st store h =
        rw (h, collect-run_stream backend ctx input s.compact_summary) refl
