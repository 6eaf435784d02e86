-- ===== src/Runtime/Compaction.antt =====
-- crates/meepo-runtime/src/compaction.rs: folding an older prefix of the conversation into a summary.
-- `V` is `serde_json::Value`, `to_string` its printing, and `compact_history` the backend's summarizer,
-- whose error is the text that it displays.
pub mod Laws
use Prim.Native.String.{len, count}
use meepo.Prelude.{
  ℕ, ◌+◌, ◌-◌, String, Bool, true, false, ◌||◌, Option, none, some, List, [], ◌∷◌, ◌++◌, leb,
  length, take, drop, if◌then◌else◌, Result, ok, err,
}
use meepo.Prelude.Text.{join}
use meepo.Core.Chat.{ChatMessage, AssistantToolCall}

abbrev pub default_threshold_chars : ℕ
default_threshold_chars = 16000

abbrev pub default_keep_recent : ℕ
default_keep_recent = 6

pub record CompactResult (V : Type 0) : Type 0 where
  pub messages : List (ChatMessage V)
  pub summary : Option String

-- `content.as_deref().map(str::len).unwrap_or(0)`
abbrev content_len : Option String → ℕ
content_len none = 0
content_len (some s) = len s

abbrev pub or_failure : Result String String → String
or_failure (ok s) = s
or_failure (err e) = join "[compaction failed: " (join e "]")

module _ {V : Type 0} where
  unfoldable pub calls_len : (V → String) → List (AssistantToolCall V) → ℕ
  calls_len to_string [] = 0
  calls_len to_string (c ∷ cs) = len c.name + len (to_string c.args) + calls_len to_string cs

  unfoldable pub message_char_len : (V → String) → ChatMessage V → ℕ
  unfolding calls_len
  message_char_len to_string (ChatMessage.user c) = count c
  message_char_len to_string (ChatMessage.assistant c cs th) =
      content_len c + calls_len to_string cs
  message_char_len to_string (ChatMessage.tool i c) = count c

  unfoldable pub total_chars : (V → String) → List (ChatMessage V) → ℕ
  unfolding message_char_len
  total_chars to_string [] = 0
  total_chars to_string (m ∷ ms) = message_char_len to_string m + total_chars to_string ms

  -- `while let Some(Tool) = tail.first() { prefix.push(tail.remove(0)) }`
  unfoldable pub shift_tools :
      List (ChatMessage V) → List (ChatMessage V) → List (ChatMessage V) × List (ChatMessage V)
  shift_tools prefix (ChatMessage.tool i c ∷ tail) =
      shift_tools (prefix ++ ChatMessage.tool i c ∷ []) tail
  shift_tools prefix tail = (prefix, tail)

  abbrev pub split_messages : List (ChatMessage V) → ℕ → List (ChatMessage V) × List (ChatMessage V)
  split_messages messages keep_recent =
      let split = length messages - keep_recent in
      shift_tools (take split messages) (drop split messages)

  -- the summarizer's input: with a previous summary, that and the newly folded messages
  abbrev pub roll_input : Option String → List (ChatMessage V) → List (ChatMessage V)
  roll_input none prefix = prefix
  roll_input (some prev) prefix =
      ChatMessage.user (join "[previous conversation summary]\n" prev) ∷ prefix

  unfoldable pub compact_if_needed_with :
      (V → String)
      → (List (ChatMessage V) → Result String String)
      → List (ChatMessage V)
      → ℕ
      → ℕ
      → Option String
      → CompactResult V
  unfolding total_chars shift_tools
  compact_if_needed_with to_string compact_history messages threshold_chars keep_recent previous =
      if leb (total_chars to_string messages) threshold_chars || leb (length messages) keep_recent
      then record { messages = messages; summary = none }
      else let (prefix, tail) = split_messages messages keep_recent in
        let summary = or_failure (compact_history (roll_input previous prefix)) in
        record {
          messages = ChatMessage.user (join "[conversation summary]\n" summary) ∷ tail;
          summary = some summary;
        }

  unfoldable pub compact_if_needed_rolling :
      (V → String)
      → (List (ChatMessage V) → Result String String)
      → List (ChatMessage V)
      → Option String
      → CompactResult V
  unfolding compact_if_needed_with
  compact_if_needed_rolling to_string compact_history messages previous =
      compact_if_needed_with to_string compact_history messages default_threshold_chars
        default_keep_recent previous

  unfoldable pub compact_if_needed :
      (V → String)
      → (List (ChatMessage V) → Result String String)
      → List (ChatMessage V)
      → CompactResult V
  unfolding compact_if_needed_with
  compact_if_needed to_string compact_history messages =
      compact_if_needed_with to_string compact_history messages default_threshold_chars
        default_keep_recent none
