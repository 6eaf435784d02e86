-- ===== src/Runtime/Runner.antt =====
-- crates/meepo-runtime/src/runner.rs: one invocation. The backend is a parameter: its summarizer, and
-- the stream of session events that a send yields, as the list of them. A stop request only changes
-- which list that is.
pub mod Conversation
pub mod Laws
use meepo.Prelude.{
  ℕ, String, Bool, true, false, Option, none, some, List, [], ◌∷◌, ◌++◌, last, Result,
  if◌then◌else◌,
}
use meepo.Prelude.Int.{ℤ, pos}
use meepo.Prelude.Text.{join, is_empty_text}
use meepo.Core.Event.{
  Role, Author, Status, Content, RuntimeEvent, default_actions, tool_boundary_protocol_v1,
}
use meepo.Core.SessionEvent.{SessionEvent}
use meepo.Core.Chat.{ChatMessage, AssistantToolCall}
use meepo.Runtime.Mapping.{InvocationContext, map_session_event}
use meepo.Runtime.Compaction.{CompactResult, compact_if_needed_rolling}

pub data RunStatus : Type 0 where
  completed failed aborted : RunStatus

pub record BackendSendInput (V : Type 0) : Type 0 where
  pub turn_id : String
  pub run_id : Option String
  pub invocation_id : Option String
  pub max_steps : Option ℕ
  pub messages : List (ChatMessage V)
  pub system_prompt : Option String
  pub tools : List V

-- What the runner uses of `AgentBackend` and of `serde_json::Value`.
pub record AgentBackend (V : Type 0) : Type 0 where
  pub string_value : String → V
  pub to_string : V → String
  pub compact_history : List (ChatMessage V) → Result String String
  pub send_cancellable : BackendSendInput V → List (SessionEvent V)

pub data TurnEvent (V : Type 0) : Type 0 where
  event : RuntimeEvent V → TurnEvent V
  -- terminal, status, messages, compact_summary
  done : RuntimeEvent V → RunStatus → List (ChatMessage V) → Option String → TurnEvent V

pub record RunResult (V : Type 0) : Type 0 where
  pub events : List (RuntimeEvent V)
  pub terminal : RuntimeEvent V
  pub status : RunStatus
  pub messages : List (ChatMessage V)
  pub compact_summary : Option String

-- the local variables of the stream loop
pub record Progress (V : Type 0) : Type 0 where
  pub messages : List (ChatMessage V)
  pub pending_text : String
  pub terminal_se : Option (SessionEvent V)

-- the local variables of the collecting loop, in `run` and in the callers of a turn stream
pub record Collected (V : Type 0) : Type 0 where
  pub events : List (RuntimeEvent V)
  pub terminal : Option (RuntimeEvent V)
  pub status : RunStatus
  pub messages : List (ChatMessage V)
  pub compact_summary : Option String

abbrev pub nothing_yet : {V : Type 0} → Collected V
nothing_yet = record {
  events = [];
  terminal = none;
  status = RunStatus.failed;
  messages = [];
  compact_summary = none;
}

abbrev status_run : Option Status → RunStatus
status_run (some Status.completed) = RunStatus.completed
status_run (some Status.aborted) = RunStatus.aborted
status_run _ = RunStatus.failed

-- `if pending_text.is_empty() { None } else { Some(take(pending_text)) }`
abbrev pub taken : String → Option String
taken t = if is_empty_text t then none else some t

module _ {V : Type 0} where
  unfoldable pub run_status : RuntimeEvent V → RunStatus
  run_status terminal = status_run terminal.status

  unfoldable pub user_event : InvocationContext → String → RuntimeEvent V
  user_event ctx content = record {
    session_id = ctx.session_id;
    invocation_id = ctx.invocation_id;
    run_id = ctx.run_id;
    turn_id = ctx.turn_id;
    branch = none;
    id = join ctx.invocation_id "-user";
    ts = pos 0;
    role = Role.user;
    author = Author.user;
    origin = none;
    model_visibility = none;
    status = none;
    content = some (Content.text content none none);
    actions = some (record default_actions {
      runtime_protocol = some (record { tool_boundary = tool_boundary_protocol_v1 });
    });
    refs = none;
    partial = none;
  }

  -- the text that the terminal arm pushes
  abbrev pub flush_text : Progress V → List (ChatMessage V)
  flush_text p =
      if is_empty_text p.pending_text
      then p.messages
      else p.messages ++ ChatMessage.assistant (some p.pending_text) [] [] ∷ []

  abbrev terminate : SessionEvent V → Progress V → Progress V
  terminate se p = record { messages = flush_text p; pending_text = ""; terminal_se = some se }

  -- one round of the stream loop: the match on the session event
  unfoldable pub consume : SessionEvent V → Progress V → Progress V
  consume (SessionEvent.text_complete i t ts m x o) p = record p { pending_text = x }
  consume (SessionEvent.text_delta i t ts m o x) p = record p {
    pending_text = join p.pending_text x;
  }
  consume (SessionEvent.tool_call i t ts c n a) p = record p {
    messages =
        p.messages
        ++ ChatMessage.assistant (taken p.pending_text) (record { id = c; name = n; args = a } ∷ [])
            []
          ∷ [];
    pending_text = "";
  }
  consume (SessionEvent.tool_result i t ts c n x e) p = record p {
    messages = p.messages ++ ChatMessage.tool c x ∷ [];
  }
  consume (SessionEvent.complete i t ts r) p = terminate (SessionEvent.complete i t ts r) p
  consume (SessionEvent.error i t ts b m c r d) p =
      terminate (SessionEvent.error i t ts b m c r d) p
  consume (SessionEvent.abort i t ts r) p = terminate (SessionEvent.abort i t ts r) p
  consume _ p = p

  unfoldable pub consume_all : List (SessionEvent V) → Progress V → Progress V
  unfolding consume
  consume_all [] p = p
  consume_all (se ∷ ses) p = consume_all ses (consume se p)

  -- `terminal_se.unwrap_or_else(…)`
  unfoldable pub or_missing : String → Option (SessionEvent V) → SessionEvent V
  or_missing turn_id (some se) = se
  or_missing turn_id none =
      SessionEvent.error (join turn_id "-missing-terminal") turn_id (pos 0) false
        "backend stream ended without a terminal event" (some "missing_terminal_event")
        (some "missing_terminal_event") none

  abbrev first_event :
      InvocationContext → Option (ChatMessage V) → List (TurnEvent V) → List (TurnEvent V)
  first_event ctx (some (ChatMessage.user content)) rest = event (user_event ctx content) ∷ rest
  first_event ctx _ rest = rest

  -- the events yielded for the stream, then `rest`
  unfoldable pub yield_all :
      (String → V)
      → InvocationContext
      → List (SessionEvent V)
      → List (TurnEvent V)
      → List (TurnEvent V)
  yield_all string_value ctx [] rest = rest
  yield_all string_value ctx (se ∷ ses) rest =
      event (map_session_event string_value se ctx) ∷ yield_all string_value ctx ses rest

  abbrev pub compacted : AgentBackend V → BackendSendInput V → Option String → CompactResult V
  compacted backend input previous =
      compact_if_needed_rolling backend.to_string backend.compact_history input.messages previous

  abbrev pub stream_of : AgentBackend V → BackendSendInput V → Option String → List (SessionEvent V)
  stream_of backend input previous =
      backend.send_cancellable
        (record input { messages = (compacted backend input previous).messages })

  abbrev pub progress_of : AgentBackend V → BackendSendInput V → Option String → Progress V
  progress_of backend input previous = consume_all (stream_of backend input previous) (record {
    messages = (compacted backend input previous).messages;
    pending_text = "";
    terminal_se = none;
  })

  abbrev pub terminal_of :
      AgentBackend V → InvocationContext → BackendSendInput V → Option String → RuntimeEvent V
  terminal_of backend ctx input previous =
      map_session_event backend.string_value
        (or_missing input.turn_id (progress_of backend input previous).terminal_se) ctx

  unfoldable pub run_stream :
      AgentBackend V → InvocationContext → BackendSendInput V → Option String → List (TurnEvent V)
  unfolding consume_all or_missing yield_all run_status user_event
  run_stream backend ctx input previous = first_event ctx (last input.messages) (
      yield_all backend.string_value ctx (stream_of backend input previous) (
        done (terminal_of backend ctx input previous)
          (run_status (terminal_of backend ctx input previous))
          (progress_of backend input previous).messages (compacted backend input previous).summary
        ∷ []))

  unfoldable pub collect : List (TurnEvent V) → Collected V → Collected V
  collect [] c = c
  collect (event re ∷ tes) c = collect tes (record c { events = c.events ++ re ∷ [] })
  collect (done t st m s ∷ tes) c =
      collect tes (record c { terminal = some t; status = st; messages = m; compact_summary = s })

  -- `terminal.expect(…)`, where `none` is the panic
  abbrev pub expect_terminal : Collected V → Option (RuntimeEvent V) → Option (RunResult V)
  expect_terminal c none = none
  expect_terminal c (some t) = some (record {
    events = c.events;
    terminal = t;
    status = c.status;
    messages = c.messages;
    compact_summary = c.compact_summary;
  })

  unfoldable pub run :
      AgentBackend V → InvocationContext → BackendSendInput V → Option String → Option (RunResult V)
  unfolding run_stream collect
  run backend ctx input previous =
      let c = collect (run_stream backend ctx input previous) nothing_yet in
      expect_terminal c c.terminal
