-- ===== src/Runtime/Session/RunIds.antt =====
-- crates/meepo-runtime/src/session.rs numbers a run by the count of messages. How that count moves from
-- one turn to the next.
use meepo.Prelude.{
  ℕ, suc, ◌+◌, ◌≤◌, ◌<◌, ◌≡◌, ◌⊎◌, inl, inr, ap, String, false, Option, none, some, List, [], ◌∷◌,
  ◌++◌, length, length-append, arith, Bool-cases,
}
use meepo.Runtime.Session.{
  SessionManager, send_turn, RuntimeEventStore, is_running, TurnResult, with_message, turn_input,
  finalize_turn, ChatMessage,
}
use meepo.Runtime.Runner.{Progress, consume, consume_all, flush_text, AgentBackend, compacted}
use meepo.Core.SessionEvent.{SessionEvent}
use meepo.Prelude.Text.{is_empty_text}
use meepo.Runtime.Compaction.{
  default_keep_recent, default_threshold_chars, compact_if_needed_rolling,
}
use meepo.Runtime.Session.Returns.{returned, turn_events, send_turn_streaming-returned}
use meepo.Runtime.Compaction.Laws.{compact_cases}

-- what pushing one message does to the count
push-bounds :
    {A : Type 0} (xs : List A) (x : A)
    → (length xs ≤ length (xs ++ x ∷ [])) × (length (xs ++ x ∷ []) ≤ suc (length xs))
push-bounds xs x =
    (omega (arith, length-append xs (x ∷ [])), omega (arith, length-append xs (x ∷ [])))

module _ {V : Type 0} where
  -- The number in the id of the run that the session starts next.
  abbrev pub run_number : SessionManager V → ℕ
  run_number s = suc (length s.messages)

  length-flush :
      (p : Progress V)
      → (length p.messages ≤ length (flush_text p))
        × (length (flush_text p) ≤ suc (length p.messages))
  length-flush p = elim (Bool-cases (is_empty_text p.pending_text)) [
    | inl h ↦ rw h (omega arith, omega arith)
    | inr h ↦ rw h (push-bounds p.messages _)
  ]

  length-consume :
      (se : SessionEvent V) (p : Progress V)
      → (length p.messages ≤ length (consume se p).messages)
        × (length (consume se p).messages ≤ suc (length p.messages))
  unfolding consume
  length-consume (SessionEvent.text_complete i t ts m x o) p = (omega arith, omega arith)
  length-consume (SessionEvent.text_delta i t ts m o x) p = (omega arith, omega arith)
  length-consume (SessionEvent.tool_call i t ts c n a) p = push-bounds p.messages _
  length-consume (SessionEvent.tool_result i t ts c n x e) p = push-bounds p.messages _
  length-consume (SessionEvent.complete i t ts r) p = length-flush p
  length-consume (SessionEvent.error i t ts b m c r d) p = length-flush p
  length-consume (SessionEvent.abort i t ts r) p = length-flush p
  length-consume _ p = (omega arith, omega arith)

  length-consume_all :
      (ses : List (SessionEvent V)) (p : Progress V)
      → (length p.messages ≤ length (consume_all ses p).messages)
        × (length (consume_all ses p).messages ≤ length p.messages + length ses)
  unfolding consume_all
  length-consume_all [] p = (omega arith, omega arith)
  length-consume_all (se ∷ ses) p =
      let (a, b) = length-consume se p in
      let (c, d) = length-consume_all ses (consume se p) in
      (omega (arith, a, c), omega (arith, b, d))

  -- A turn on a session that is not running returns. If its history was not compacted, the next run
  -- has a greater number. If it was compacted, the number of the next run is at most the events of the
  -- stream plus two more than the messages that compaction keeps, however great the last number was.
  pub run_number-send_turn :
      (s : SessionManager V) (backend : AgentBackend V) (st : RuntimeEventStore V)
      (store : st.State) (user_message : String) (system_prompt : Option String) (tools : List V)
      → is_running s.status ≡ false
      → (r : TurnResult V × SessionManager V × st.State) × (send_turn s backend st store
            user_message system_prompt tools
          ≡ some r)
        × (((r.1.compact_summary ≡ none) × (run_number s < run_number r.1))
            ⊎ ((m : String) × (r.1.compact_summary ≡ some m)
                × (run_number r.1
                    ≤ default_keep_recent
                      + 2
                      + length (turn_events s backend user_message system_prompt tools))))
  unfolding send_turn finalize_turn compact_if_needed_rolling
  run_number-send_turn s backend st store user_message system_prompt tools h =
      let s' = with_message s user_message in
      let stream = turn_events s backend user_message system_prompt tools in
      let (low, high) = length-consume_all stream (record {
        messages =
            (compacted backend (turn_input s' system_prompt tools) s.compact_summary).messages;
        pending_text = "";
        terminal_se = none;
      }) in
      (
        returned s backend user_message system_prompt tools st store,
        send_turn_streaming-returned s backend user_message system_prompt tools st store h,
        elim (compact_cases backend.to_string backend.compact_history s'.messages
            default_threshold_chars default_keep_recent s.compact_summary) [
              | inl (same, nothing) ↦ inl (
                nothing,
                omega (
                  arith,
                  low,
                  ap length same,
                  length-append s.messages (ChatMessage.user user_message ∷ []),
                ),
              )
              | inr (p, t, m, e, f, g, k, folded, summary) ↦
                  inr (m, summary, omega (arith, high, ap length folded, g))
            ],
      )
