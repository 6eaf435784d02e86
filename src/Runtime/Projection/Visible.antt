-- ===== src/Runtime/Projection/Visible.antt =====
-- What the rebuilt conversation shows of the users and the tools.
use meepo.Prelude.{String, List, [], ◌∷◌}
use meepo.Core.Event.{RuntimeEvent}
use meepo.Core.Chat.{ChatMessage}
use meepo.Runtime.Projection.{Reading, read, user_text, response}

module _ {V : Type 0} where
  -- the messages that are not the assistant's
  unfoldable pub from_outside : List (ChatMessage V) → List (ChatMessage V)
  from_outside [] = []
  from_outside (ChatMessage.assistant c cs th ∷ ms) = from_outside ms
  from_outside (ChatMessage.user c ∷ ms) = ChatMessage.user c ∷ from_outside ms
  from_outside (ChatMessage.tool i c ∷ ms) = ChatMessage.tool i c ∷ from_outside ms

  abbrev outside_message : (V → String) → Reading V → List (ChatMessage V) → List (ChatMessage V)
  outside_message show_value (user_text x) ms = ChatMessage.user x ∷ ms
  outside_message show_value (response i r) ms = ChatMessage.tool i (show_value r) ∷ ms
  outside_message show_value _ ms = ms

  -- the user texts and the tool responses of a ledger, in order, as messages
  unfoldable pub outside_events : (V → String) → List (RuntimeEvent V) → List (ChatMessage V)
  outside_events show_value [] = []
  outside_events show_value (ev ∷ evs) =
      outside_message show_value (read ev) (outside_events show_value evs)
