-- ===== src/Runtime/Projection/Shape.antt =====
-- The shape of the rebuilt conversation.
use meepo.Prelude.{◌≡◌, String, Bool, true, false, ◌&&◌, List, [], ◌∷◌, All, contains, not}
use meepo.Core.Chat.{ChatMessage}
use meepo.Runtime.Projection.{Pending}

module _ {V : Type 0} where
  -- No assistant message stands right behind another. `after` says whether one stands before the list.
  unfoldable pub no_adjacent_assistants : Bool → List (ChatMessage V) → Bool
  no_adjacent_assistants after [] = true
  no_adjacent_assistants after (ChatMessage.user c ∷ ms) = no_adjacent_assistants false ms
  no_adjacent_assistants after (ChatMessage.assistant c cs th ∷ ms) =
      not after && no_adjacent_assistants true ms
  no_adjacent_assistants after (ChatMessage.tool i c ∷ ms) = no_adjacent_assistants false ms

  -- whether the list ends with an assistant message
  abbrev ends_assistant : Bool → List (ChatMessage V) → Bool
  ends_assistant after [] = after
  ends_assistant after (ChatMessage.assistant c cs th ∷ ms) = ends_assistant true ms
  ends_assistant after (ChatMessage.user c ∷ ms) = ends_assistant false ms
  ends_assistant after (ChatMessage.tool i c ∷ ms) = ends_assistant false ms

  -- Every tool call that the message carries has its id among `ids`.
  abbrev pub Answered : List String → ChatMessage V → Type 0
  Answered ids (ChatMessage.assistant c cs th) = All (λ x. contains ids x.id ≡ true) cs
  Answered ids _ = Unit

  record IsShaped (ids : List String) (p : Pending V) : Type 0 where
    apart : no_adjacent_assistants false p.out ≡ true
    closed : ends_assistant false p.out ≡ false
    answered : All (Answered ids) p.out
    pending : All (λ x. contains ids x.id ≡ true) p.pending_calls
