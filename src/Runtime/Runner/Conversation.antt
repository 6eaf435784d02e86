-- ===== src/Runtime/Runner/Conversation.antt =====
-- crates/meepo-runtime/src/runner.rs: the messages that the stream loop makes, against the stream read from
-- its front.
use meepo.Prelude.{
  ◌≡◌, refl, ◌∙◌, String, Option, none, some, List, [], ◌∷◌, ◌++◌, append_assoc, if◌then◌else◌,
  append-nil,
}
use meepo.Prelude.{Bool-cases, inl, inr}
use meepo.Prelude.Text.{join, is_empty_text}
use meepo.Core.SessionEvent.{SessionEvent}
use meepo.Core.Chat.{ChatMessage}
use meepo.Runtime.Runner.{Progress, consume, consume_all, flush_text}

-- the text of a message, if there is any
abbrev pub spoken : String → Option String
spoken text = if is_empty_text text then none else some text

module _ {V : Type 0} where
  -- the text said so far, as a message of its own
  abbrev pub said : String → List (ChatMessage V) → List (ChatMessage V)
  said text rest =
      if is_empty_text text then rest else ChatMessage.assistant (some text) [] [] ∷ rest

  -- What a stream adds to the conversation, where `text` is said and not yet in a message: a call carries the
  -- text before it, a result is a message, and an end puts the text into one.
  unfoldable pub conversation : String → List (SessionEvent V) → List (ChatMessage V)
  conversation text [] = []
  conversation text (SessionEvent.text_complete i t ts m x o ∷ ses) = conversation x ses
  conversation text (SessionEvent.text_delta i t ts m o x ∷ ses) = conversation (join text x) ses
  conversation text (SessionEvent.tool_call i t ts c n a ∷ ses) =
      ChatMessage.assistant (spoken text) (record { id = c; name = n; args = a } ∷ []) []
      ∷ conversation "" ses
  conversation text (SessionEvent.tool_result i t ts c n x e ∷ ses) =
      ChatMessage.tool c x ∷ conversation text ses
  conversation text (SessionEvent.complete i t ts r ∷ ses) = said text (conversation "" ses)
  conversation text (SessionEvent.error i t ts b m c r d ∷ ses) = said text (conversation "" ses)
  conversation text (SessionEvent.abort i t ts r ∷ ses) = said text (conversation "" ses)
  conversation text (_ ∷ ses) = conversation text ses

  flush_text-said :
      (p : Progress V) (rest : List (ChatMessage V))
      → flush_text p ++ rest ≡ p.messages ++ said p.pending_text rest
  flush_text-said p rest = elim (Bool-cases (is_empty_text p.pending_text)) [
    | inl k ↦ rw k refl
    | inr k ↦ rw k (rw append_assoc refl)
  ]

  messages-consume :
      (se : SessionEvent V) (p : Progress V) (ses : List (SessionEvent V))
      → (consume se p).messages ++ conversation (consume se p).pending_text ses
        ≡ p.messages ++ conversation p.pending_text (se ∷ ses)
  unfolding consume conversation
  messages-consume (SessionEvent.tool_call i t ts c n a) p ses = rw append_assoc refl
  messages-consume (SessionEvent.tool_result i t ts c n x e) p ses = rw append_assoc refl
  messages-consume (SessionEvent.complete i t ts r) p ses = flush_text-said p (conversation "" ses)
  messages-consume (SessionEvent.error i t ts b m c r d) p ses =
      flush_text-said p (conversation "" ses)
  messages-consume (SessionEvent.abort i t ts r) p ses = flush_text-said p (conversation "" ses)
  messages-consume _ p ses = refl

  pub messages-consume_all :
      (ses : List (SessionEvent V)) (p : Progress V)
      → (consume_all ses p).messages ≡ p.messages ++ conversation p.pending_text ses
  unfolding consume_all conversation
  messages-consume_all [] p = rw append-nil refl
  messages-consume_all (se ∷ ses) p =
      messages-consume_all ses (consume se p) ∙ messages-consume se p ses
