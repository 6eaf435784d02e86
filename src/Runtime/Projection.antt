-- ===== src/Runtime/Projection.antt =====
-- crates/meepo-runtime/src/projection.rs: the conversation rebuilt from a ledger. `V` is
-- `serde_json::Value`; `as_str` and `to_string` are its methods.
pub mod Shape
pub mod Visible
use meepo.Prelude.{
  String, Bool, true, false, Option, none, some, List, [], ◌∷◌, ◌++◌, contains, is_some, is_empty,
  not, ◌||◌, if◌then◌else◌,
}
use meepo.Prelude.Text.{join}
use meepo.Core.Event.{Role, Content, RuntimeEvent}
use meepo.Core.Chat.{ChatMessage, AssistantToolCall}

-- What the two passes read of an event: the arms of `match (ev.role, &ev.content)`.
pub data Reading (V : Type 0) : Type 0 where
  user_text : String → Reading V
  model_text : String → Reading V
  -- id, name, args
  call : String → String → V → Reading V
  -- id, result
  response : String → V → Reading V
  other : Reading V

-- `pending_text`, once the arm has pushed `s`
abbrev pub push_text : Option String → String → Option String
push_text none s = some s
push_text (some buf) s = some (join buf s)

-- the local variables of pass 2
pub record Pending (V : Type 0) : Type 0 where
  pub out : List (ChatMessage V)
  pub pending_text : Option String
  pub pending_calls : List (AssistantToolCall V)

module _ {V : Type 0} where
  abbrev read_parts : Role → Option (Content V) → Reading V
  read_parts Role.user (some (Content.text x p s)) = user_text x
  read_parts Role.model (some (Content.text x p s)) = model_text x
  read_parts Role.model (some (Content.function_call i n a p x)) = call i n a
  read_parts Role.tool (some (Content.function_response i n r e x o)) = response i r
  read_parts _ _ = other

  unfoldable pub read : RuntimeEvent V → Reading V
  read ev = read_parts ev.role ev.content

  -- pass 1
  abbrev pub response_id : Reading V → List String → List String
  response_id (response i r) ids = i ∷ ids
  response_id _ ids = ids

  unfoldable pub responded_ids : List (RuntimeEvent V) → List String
  unfolding read
  responded_ids [] = []
  responded_ids (ev ∷ evs) = response_id (read ev) (responded_ids evs)

  unfoldable pub flush_assistant :
      List (ChatMessage V) → Option String → List (AssistantToolCall V) → List (ChatMessage V)
  flush_assistant out text calls =
      if is_some text || not (is_empty calls)
      then out ++ ChatMessage.assistant text calls [] ∷ []
      else out

  -- `value_to_string`
  abbrev pub value_to_string : (V → Option String) → (V → String) → V → String
  value_to_string as_str to_string v = elim (as_str v) [ some s ↦ s | none ↦ to_string v ]

  abbrev pub flush : Pending V → List (ChatMessage V)
  flush p = flush_assistant p.out p.pending_text p.pending_calls

  -- one round of pass 2
  unfoldable pub project : (V → String) → List String → Reading V → Pending V → Pending V
  unfolding flush_assistant
  project show_value ids (user_text x) p = record {
    out = flush p ++ ChatMessage.user x ∷ [];
    pending_text = none;
    pending_calls = [];
  }
  project show_value ids (model_text x) p = record p { pending_text = push_text p.pending_text x }
  project show_value ids (call i n a) p =
      if contains ids i
      then record p {
        pending_calls = p.pending_calls ++ record { id = i; name = n; args = a } ∷ [];
      }
      else p
  project show_value ids (response i r) p = record {
    out = flush p ++ ChatMessage.tool i (show_value r) ∷ [];
    pending_text = none;
    pending_calls = [];
  }
  project show_value ids other p = p

  unfoldable pub project_all :
      (V → String) → List String → List (RuntimeEvent V) → Pending V → List (ChatMessage V)
  unfolding project read
  project_all show_value ids [] p = flush p
  project_all show_value ids (ev ∷ evs) p =
      project_all show_value ids evs (project show_value ids (read ev) p)

  unfoldable pub messages_from_runtime_events :
      (V → Option String) → (V → String) → List (RuntimeEvent V) → List (ChatMessage V)
  unfolding project_all responded_ids
  messages_from_runtime_events as_str to_string events =
      project_all (value_to_string as_str to_string) (responded_ids events) events
        (record { out = []; pending_text = none; pending_calls = [] })
