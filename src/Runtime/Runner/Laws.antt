-- ===== src/Runtime/Runner/Laws.antt =====
-- What an invocation returns, for every stream of the backend.
use meepo.Prelude.{
  ◌≡◌, refl, ◌∙◌, ap, String, Option, none, some, List, [], ◌∷◌, ◌++◌, append_assoc, map, last,
  if◌then◌else◌, append-nil,
}
use meepo.Prelude.{false}
use meepo.Prelude.Int.{pos}
use meepo.Prelude.Text.{join}
use meepo.Runtime.Compaction.{compact_if_needed_rolling}
use meepo.Core.Event.{
  RuntimeEvent, Role, Author, Content, default_actions, tool_boundary_protocol_v1,
}
use meepo.Core.SessionEvent.{SessionEvent}
use meepo.Core.Chat.{ChatMessage}
use meepo.Runtime.Mapping.{InvocationContext, map_session_event}
use meepo.Runtime.Mapping.Lanes.{ends_turn}
use meepo.Runtime.Runner.{
  RunStatus, AgentBackend, BackendSendInput, RunResult, Progress, Collected, done, nothing_yet,
  collect, consume, consume_all, or_missing, yield_all, run_status, compacted, stream_of,
  progress_of, terminal_of, run_stream, run, first_event,
}
use meepo.Runtime.Runner.Conversation.{conversation, messages-consume_all}

module _ {V : Type 0} where
  -- the user's message as an event, if the history ends with one
  abbrev pub opening : InvocationContext → Option (ChatMessage V) → List (RuntimeEvent V)
  opening ctx (some (ChatMessage.user content)) =
      record {
        session_id = ctx.session_id;
        invocation_id = ctx.invocation_id;
        run_id = ctx.run_id;
        turn_id = ctx.turn_id;
        branch = none;
        id = join ctx.invocation_id "-user";
        ts = pos 0;
        role = Role.user;
        author = Author.user;
        origin = none;
        model_visibility = none;
        status = none;
        content = some (Content.text content none none);
        actions = some (record default_actions {
          runtime_protocol = some (record { tool_boundary = tool_boundary_protocol_v1 });
        });
        refs = none;
        partial = none;
      }
      ∷ []
  opening ctx _ = []

  -- the last event of the stream that ends the turn
  unfoldable pub last_ending :
      List (SessionEvent V) → Option (SessionEvent V) → Option (SessionEvent V)
  last_ending [] o = o
  last_ending (se ∷ ses) o = last_ending ses (if ends_turn se then some se else o)

  -- the status of a run, by the event that ended it
  abbrev pub ended : Option (SessionEvent V) → RunStatus
  ended (some (SessionEvent.complete i t ts r)) = RunStatus.completed
  ended (some (SessionEvent.abort i t ts r)) = RunStatus.aborted
  ended _ = RunStatus.failed

  -- what stands for the end of a stream that has none
  abbrev pub missing : String → SessionEvent V
  missing turn_id =
      SessionEvent.error (join turn_id "-missing-terminal") turn_id (pos 0) false
        "backend stream ended without a terminal event" (some "missing_terminal_event")
        (some "missing_terminal_event") none

  abbrev pub or_else : SessionEvent V → Option (SessionEvent V) → SessionEvent V
  or_else d none = d
  or_else d (some se) = se

  terminal-or_missing :
      (turn_id : String) (o : Option (SessionEvent V))
      → or_missing turn_id o ≡ or_else (missing turn_id) o
  unfolding or_missing
  terminal-or_missing turn_id none = refl
  terminal-or_missing turn_id (some se) = refl

  status-map :
      (sv : String → V) (ctx : InvocationContext) (se : SessionEvent V)
      → run_status (map_session_event sv se ctx) ≡ ended (some se)
  unfolding run_status map_session_event
  status-map sv ctx (SessionEvent.complete i t ts r) = refl
  status-map sv ctx (SessionEvent.abort i t ts r) = refl
  status-map sv ctx _ = refl

  status-ended :
      (sv : String → V) (ctx : InvocationContext) (turn_id : String) (o : Option (SessionEvent V))
      → run_status (map_session_event sv (or_else (missing turn_id) o) ctx) ≡ ended o
  status-ended sv ctx turn_id none = status-map sv ctx (missing turn_id)
  status-ended sv ctx turn_id (some se) = status-map sv ctx se

  terminal-consume :
      (se : SessionEvent V) (p : Progress V)
      → (consume se p).terminal_se ≡ (if ends_turn se then some se else p.terminal_se)
  unfolding consume
  terminal-consume (SessionEvent.tool_call i t ts c n a) p = refl
  terminal-consume _ p = refl

  pub terminal-consume_all :
      (ses : List (SessionEvent V)) (p : Progress V)
      → (consume_all ses p).terminal_se ≡ last_ending ses p.terminal_se
  unfolding consume_all last_ending
  terminal-consume_all [] p = refl
  terminal-consume_all (se ∷ ses) p =
      terminal-consume_all ses (consume se p) ∙ ap (last_ending ses) (terminal-consume se p)

  collect-yield_all :
      (sv : String → V) (ctx : InvocationContext) (ses : List (SessionEvent V)) (t : RuntimeEvent V)
      (st : RunStatus) (m : List (ChatMessage V)) (s : Option String) (c : Collected V)
      → collect (yield_all sv ctx ses (done t st m s ∷ [])) c ≡ record {
        events = c.events ++ map (λ se. map_session_event sv se ctx) ses;
        terminal = some t;
        status = st;
        messages = m;
        compact_summary = s;
      }
  unfolding collect yield_all
  collect-yield_all sv ctx [] t st m s c = rw append-nil
  collect-yield_all sv ctx (se ∷ ses) t st m s c =
      collect-yield_all sv ctx ses t st m s _ ∙ rw append_assoc

  module _ (backend : AgentBackend V) (ctx : InvocationContext) (input : BackendSendInput V)
      (previous : Option String) where
    -- what `run` is to return, by the compacted history and the stream of the backend on it
    abbrev pub expected_run : RunResult V
    expected_run =
        let history =
          compact_if_needed_rolling backend.to_string backend.compact_history input.messages
            previous in
        let stream = backend.send_cancellable (record input { messages = history.messages }) in
        record {
          events =
              opening ctx (last input.messages)
              ++ map (λ se. map_session_event backend.string_value se ctx) stream;
          terminal =
              map_session_event backend.string_value
                (or_else (missing input.turn_id) (last_ending stream none)) ctx;
          status = ended (last_ending stream none);
          messages = history.messages ++ conversation "" stream;
          compact_summary = history.summary;
        }

    pub collect-run_stream : collect (run_stream backend ctx input previous) nothing_yet ≡ record {
      events =
          opening ctx (last input.messages)
          ++ map
              (λ se. map_session_event backend.string_value se ctx)
              (stream_of backend input previous);
      terminal = some (terminal_of backend ctx input previous);
      status = run_status (terminal_of backend ctx input previous);
      messages = (progress_of backend input previous).messages;
      compact_summary = (compacted backend input previous).summary;
    }
    unfolding run_stream collect
    collect-run_stream = go (last input.messages)
      where
        go :
            (o : Option (ChatMessage V))
            → collect
                (first_event ctx o (
                  yield_all backend.string_value ctx (stream_of backend input previous) (
                    done
                      (terminal_of backend ctx input previous)
                      (run_status (terminal_of backend ctx input previous))
                      (progress_of backend input previous).messages
                      (compacted backend input previous).summary
                    ∷ [])))
                nothing_yet
              ≡ record {
                events =
                    opening ctx o
                    ++ map
                        (λ se. map_session_event backend.string_value se ctx)
                        (stream_of backend input previous);
                terminal = some (terminal_of backend ctx input previous);
                status = run_status (terminal_of backend ctx input previous);
                messages = (progress_of backend input previous).messages;
                compact_summary = (compacted backend input previous).summary;
              }
        go none =
            collect-yield_all backend.string_value ctx (stream_of backend input previous) _ _ _ _ _
        go (some (ChatMessage.user c)) =
            collect-yield_all backend.string_value ctx (stream_of backend input previous) _ _ _ _ _
        go (some (ChatMessage.assistant c cs th)) =
            collect-yield_all backend.string_value ctx (stream_of backend input previous) _ _ _ _ _
        go (some (ChatMessage.tool i c)) =
            collect-yield_all backend.string_value ctx (stream_of backend input previous) _ _ _ _ _

    -- An invocation always returns, whatever the backend yields. Its events are the user's message, if the
    -- history ends with one, and the mapped stream. Its terminal is the last event that ends the turn,
    -- or an error that says that there was none, and its status completed or aborted if that event says
    -- so and failed otherwise. Its messages are the compacted history and what the stream adds to the
    -- conversation: each call with the text before it, each result, and the text before an end.
    pub run-expected : run backend ctx input previous ≡ some expected_run
    unfolding run
    run-expected =
        let stream = stream_of backend input previous in
        rw
          (
            collect-run_stream,
            terminal-consume_all,
            terminal-or_missing input.turn_id (last_ending stream none),
            status-ended backend.string_value ctx input.turn_id (last_ending stream none),
            messages-consume_all,
          )
          refl
