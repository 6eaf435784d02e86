-- ===== src/Runtime/Session/Terminal.antt =====
-- One turn against the ledger: how many terminal events its run has at the end.
use meepo.Prelude.{
  ℕ, suc, ◌≡◌, refl, ◌∙◌, sym, String, false, List, [], ◌∷◌, ◌++◌, map, eq_refl, append_assoc,
  if◌then◌else◌, append-nil, Option, true, some, max, Bool-cases, inl, inr, last, ap, arith,
}
use meepo.Core.Event.{RuntimeEvent}
use meepo.Core.SessionEvent.{SessionEvent}
use meepo.Core.Store.{
  InMemoryRuntimeEventStore, in_memory, read_runtime_events, append_runtime_event,
  is_terminal_event,
}
use meepo.Core.Store.Laws.{
  count_terminal, read-append, count_terminal-ensure, count_terminal-append,
}
use meepo.Runtime.Mapping.{InvocationContext, map_session_event}
use meepo.Runtime.Mapping.Lanes.{ends_turn, terminal-map_session_event}
use meepo.Runtime.Session.{
  append_all, SessionManager, finalize_turn, send_turn_streaming, AgentBackend, ChatMessage,
  with_message, RunStatus, is_running, TurnResult, turn_input, turn_context,
}
use meepo.Runtime.Runner.Laws.{last_ending, opening, terminal-consume_all}
use meepo.Runtime.Runner.{user_event, stream_of, or_missing, BackendSendInput, terminal_of}
use mathlib.Core.Option.{none}
use meepo.Runtime.Session.Returns.{
  next_run, turn_events, turn_result, returned, send_turn_streaming-returned,
}

module _ {V : Type 0} where
  -- how many events of a stream end the turn
  unfoldable pub count_ending : List (SessionEvent V) → ℕ
  count_ending [] = 0
  count_ending (se ∷ ses) = let rest = count_ending ses in if ends_turn se then suc rest else rest

  count_terminal-map :
      (sv : String → V) (ctx : InvocationContext) (ses : List (SessionEvent V))
      → count_terminal (map (λ se. map_session_event sv se ctx) ses) ≡ count_ending ses
  unfolding count_terminal count_ending
  count_terminal-map sv ctx [] = refl
  count_terminal-map sv ctx (se ∷ ses) =
      rw (terminal-map_session_event sv se ctx, count_terminal-map sv ctx ses)

  read-append_all :
      (sid rid : String) (es : List (RuntimeEvent V)) (store : InMemoryRuntimeEventStore V)
      → read_runtime_events (append_all (in_memory V) sid rid es store) sid rid
        ≡ read_runtime_events store sid rid ++ es
  unfolding append_all
  read-append_all sid rid [] store = sym (append-nil _)
  read-append_all sid rid (e ∷ es) store =
      read-append_all sid rid es (append_runtime_event store sid rid e false)
      ∙ rw (read-append store sid rid sid rid e false, eq_refl sid, eq_refl rid)
          (append_assoc _ (e ∷ []) es)

  ends_turn-last_ending :
      (tid : String) (ses : List (SessionEvent V)) (o : Option (SessionEvent V))
      → ends_turn (or_missing tid o) ≡ true
      → ends_turn (or_missing tid (last_ending ses o)) ≡ true
  unfolding last_ending or_missing
  ends_turn-last_ending tid [] o h = h
  ends_turn-last_ending tid (se ∷ ses) o h = elim (Bool-cases (ends_turn se)) [
    | inl e ↦ rw e (ends_turn-last_ending tid ses (some se) e)
    | inr e ↦ rw e (ends_turn-last_ending tid ses o h)
  ]

  terminal_of-is_terminal :
      (backend : AgentBackend V) (ctx : InvocationContext) (input : BackendSendInput V)
      (previous : Option String)
      → is_terminal_event (terminal_of backend ctx input previous) ≡ true
  unfolding or_missing
  terminal_of-is_terminal backend ctx input previous =
      terminal-map_session_event backend.string_value _ ctx
      ∙ ap (λ o. ends_turn (or_missing input.turn_id o))
          (terminal-consume_all (stream_of backend input previous) _)
      ∙ ends_turn-last_ending input.turn_id (stream_of backend input previous) none refl

  count_terminal-opening :
      (ctx : InvocationContext) (o : Option (ChatMessage V)) → count_terminal (opening ctx o) ≡ 0
  unfolding count_terminal user_event
  count_terminal-opening ctx none = refl
  count_terminal-opening ctx (some (ChatMessage.user c)) = refl
  count_terminal-opening ctx (some (ChatMessage.assistant c cs th)) = refl
  count_terminal-opening ctx (some (ChatMessage.tool i c)) = refl

  finalize-count :
      (s : SessionManager V) (store : InMemoryRuntimeEventStore V) (rid : String)
      (t : RuntimeEvent V) (es : List (RuntimeEvent V)) (m : List (ChatMessage V))
      (c : Option String) (st : RunStatus)
      → is_terminal_event t ≡ true
      → read_runtime_events store s.session_id rid ≡ []
      → count_terminal (
          read_runtime_events
            (finalize_turn s (in_memory V) store rid t es m c st).2
            s.session_id
            rid)
        ≡ max 1 (count_terminal es)
  unfolding finalize_turn
  finalize-count s store rid t es m c st h e =
      count_terminal-ensure (append_all (in_memory V) s.session_id rid es store) s.session_id rid t
        h
      ∙ rw (read-append_all s.session_id rid es store, e)

  -- On a session that is not running, with a run id that the ledger does not know, a turn returns. Its
  -- run then has one terminal event if the backend's stream has at most one event that ends the turn,
  -- and else as many as the stream has.
  pub send_turn-count_terminal :
      (s : SessionManager V) (backend : AgentBackend V) (store : InMemoryRuntimeEventStore V)
      (user_message : String) (system_prompt : Option String) (tools : List V)
      → is_running s.status ≡ false
      → read_runtime_events store s.session_id (next_run s user_message) ≡ []
      → (r : TurnResult V × SessionManager V × InMemoryRuntimeEventStore V) × (send_turn_streaming s
            backend
            (in_memory V)
            store
            user_message
            system_prompt
            tools
          ≡ some r)
        × (count_terminal (read_runtime_events r.2 s.session_id (next_run s user_message))
            ≡ max 1 (count_ending (turn_events s backend user_message system_prompt tools)))
  send_turn-count_terminal s backend store user_message system_prompt tools h e =
      let result = turn_result s backend user_message system_prompt tools in
      let s' = with_message s user_message in
      let input = turn_input s' system_prompt tools in
      let ctx = turn_context s' in
      let stream = turn_events s backend user_message system_prompt tools in
      (
        returned s backend user_message system_prompt tools (in_memory V) store,
        send_turn_streaming-returned s backend user_message system_prompt tools (in_memory V) store
            h,
        finalize-count s' store (next_run s user_message) result.terminal result.events
              result.messages result.compact_summary result.status
              (terminal_of-is_terminal backend ctx input s.compact_summary) e
            ∙ rw
                (
                  count_terminal-append (opening ctx (last input.messages))
                      (map (λ se. map_session_event backend.string_value se ctx) stream),
                  count_terminal-opening ctx (last input.messages),
                  count_terminal-map backend.string_value ctx stream,
                )
                (omega arith),
      )
