-- ===== src/Runtime/Session.antt =====
-- crates/meepo-runtime/src/session.rs: the lifecycle of one session. A method returns the new manager
-- (and the new store). The backend and the store are the interfaces `AgentBackend` and
-- `RuntimeEventStore`; a turn's stream is the list that the runner yields.
pub mod Returns
pub mod Terminal
pub mod RunIds
use meepo.Prelude.{
  ℕ, String, Bool, true, false, Option, none, some, List, [], ◌∷◌, ◌++◌, length, if◌then◌else◌,
}
use meepo.Prelude.Text.{join, show}
use meepo.Core.Event.{RuntimeEvent}
use meepo.Core.Chat.{ChatMessage}
use meepo.Core.Store.{RuntimeEventStore}
use meepo.Recovery.{RecoveryResolution, RecoveryPlan, resolve_recovery}
use meepo.Runtime.Mapping.{InvocationContext}
use meepo.Runtime.Projection.{messages_from_runtime_events}
use meepo.Runtime.Runner.{
  RunStatus, BackendSendInput, AgentBackend, TurnEvent, Collected, nothing_yet, collect, run_stream,
}

pub data SessionStatus : Type 0 where
  waiting_for_user running done aborted : SessionStatus

pub record TurnResult (V : Type 0) : Type 0 where
  pub status : RunStatus
  pub messages : List (ChatMessage V)
  pub events : List (RuntimeEvent V)
  pub compact_summary : Option String

pub record TurnStream (V : Type 0) : Type 0 where
  pub stream : List (TurnEvent V)
  pub turn_id : String
  pub run_id : String

pub record SessionManager (V : Type 0) : Type 0 where
  pub session_id : String
  pub status : SessionStatus
  pub messages : List (ChatMessage V)
  pub compact_summary : Option String
  pub recovery_needed : Bool

-- the transition of `finalize_turn`
abbrev pub status_after : RunStatus → SessionStatus
status_after RunStatus.completed = SessionStatus.waiting_for_user
status_after RunStatus.failed = SessionStatus.aborted
status_after RunStatus.aborted = SessionStatus.aborted

unfoldable pub is_running : SessionStatus → Bool
is_running SessionStatus.running = true
is_running _ = false

-- `recovery.plan == RecoveryPlan::Blocked`
abbrev is_blocked : RecoveryResolution → Bool
is_blocked r = elim r.plan [ RecoveryPlan.safe_replay ↦ false | RecoveryPlan.blocked ↦ true ]

-- `format!("run-{}", n)` and its kin
abbrev pub numbered : String → ℕ → String
numbered prefix n = join prefix (show n)

module _ {V : Type 0} where
  unfoldable pub new : String → SessionManager V
  new session_id = record {
    session_id = session_id;
    status = waiting_for_user;
    messages = [];
    compact_summary = none;
    recovery_needed = false;
  }

  abbrev pub resumed :
      String → List (ChatMessage V) → Option RecoveryResolution → Option (SessionManager V)
  resumed session_id messages none = none
  resumed session_id messages (some recovery) = some (record {
    session_id = session_id;
    status = waiting_for_user;
    messages = messages;
    compact_summary = none;
    recovery_needed = is_blocked recovery;
  })

  -- `none` is a panic of the recovery scan
  unfoldable pub resume :
      (V → Option String)
      → (V → String)
      → (st : RuntimeEventStore V) → String
      → st.State
      → Option (SessionManager V)
  resume as_str to_string st session_id store =
      let events = st.read_session store session_id in
      resumed session_id (messages_from_runtime_events as_str to_string events)
        (resolve_recovery events)

  abbrev pub with_message : SessionManager V → String → SessionManager V
  with_message s user_message = record s {
    status = SessionStatus.running;
    messages = s.messages ++ ChatMessage.user user_message ∷ [];
  }

  abbrev pub turn_context : SessionManager V → InvocationContext
  turn_context s = record {
    session_id = s.session_id;
    run_id = numbered "run-" (length s.messages);
    invocation_id = numbered "inv-" (length s.messages);
    turn_id = numbered "turn-" (length s.messages);
  }

  abbrev pub turn_input : SessionManager V → Option String → List V → BackendSendInput V
  turn_input s system_prompt tools = record {
    turn_id = numbered "turn-" (length s.messages);
    run_id = some (numbered "run-" (length s.messages));
    invocation_id = some (numbered "inv-" (length s.messages));
    max_steps = none;
    messages = s.messages;
    system_prompt = system_prompt;
    tools = tools;
  }

  unfoldable pub start_turn_streaming :
      SessionManager V
      → AgentBackend V
      → String
      → Option String
      → List V
      → SessionManager V × TurnStream V
  start_turn_streaming s backend user_message system_prompt tools =
      let s' = with_message s user_message in
      (
        s',
        record {
          stream =
              run_stream backend (turn_context s') (turn_input s' system_prompt tools)
                s.compact_summary;
          turn_id = numbered "turn-" (length s'.messages);
          run_id = numbered "run-" (length s'.messages);
        },
      )

  unfoldable pub append_all :
      (st : RuntimeEventStore V) → String → String → List (RuntimeEvent V) → st.State → st.State
  append_all st sid rid [] store = store
  append_all st sid rid (e ∷ es) store = append_all st sid rid es (st.append store sid rid e false)

  unfoldable pub finalize_turn :
      SessionManager V
      → (st : RuntimeEventStore V) → st.State
      → String
      → RuntimeEvent V
      → List (RuntimeEvent V)
      → List (ChatMessage V)
      → Option String
      → RunStatus
      → TurnResult V × SessionManager V × st.State
  unfolding append_all
  finalize_turn s st store run_id terminal events messages summary status = (
    record { status = status; messages = messages; events = events; compact_summary = summary },
    record s { messages = messages; compact_summary = summary; status = status_after status },
    st.ensure_terminal (append_all st s.session_id run_id events store) s.session_id run_id
        terminal,
  )

  -- the answer to a turn that comes while one is running
  abbrev refused : SessionManager V → TurnResult V
  refused s = record {
    status = RunStatus.failed;
    messages = s.messages;
    events = [];
    compact_summary = s.compact_summary;
  }

  abbrev pub finish_turn :
      SessionManager V
      → (st : RuntimeEventStore V) → st.State
      → String
      → Collected V
      → Option (RuntimeEvent V)
      → Option (TurnResult V × SessionManager V × st.State)
  finish_turn s st store run_id c none = none
  finish_turn s st store run_id c (some terminal) =
      some (finalize_turn s st store run_id terminal c.events c.messages c.compact_summary c.status)

  -- `none` is the panic of a turn that ends with no `Done` event; `on_event` has no effect here
  unfoldable pub send_turn_streaming :
      SessionManager V
      → AgentBackend V
      → (st : RuntimeEventStore V) → st.State
      → String
      → Option String
      → List V
      → Option (TurnResult V × SessionManager V × st.State)
  unfolding start_turn_streaming finalize_turn
  send_turn_streaming s backend st store user_message system_prompt tools =
      let (s', ts) = start_turn_streaming s backend user_message system_prompt tools in
      let c = collect ts.stream nothing_yet in
      if is_running s.status
      then some (refused s, s, store)
      else finish_turn s' st store ts.run_id c c.terminal

  unfoldable pub send_turn :
      SessionManager V
      → AgentBackend V
      → (st : RuntimeEventStore V) → st.State
      → String
      → Option String
      → List V
      → Option (TurnResult V × SessionManager V × st.State)
  unfolding send_turn_streaming
  send_turn = send_turn_streaming
