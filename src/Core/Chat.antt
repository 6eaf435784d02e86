-- ===== src/Core/Chat.antt =====
-- crates/meepo-core/src/backend.rs: the conversation history that crosses the backend boundary.
use meepo.Prelude.{String, List, Option}

pub record AssistantToolCall (V : Type 0) : Type 0 where
  pub id : String
  pub name : String
  pub args : V

pub record ThinkingBlock : Type 0 where
  pub text : String
  pub signature : Option String

pub data ChatMessage (V : Type 0) : Type 0 where
  user : String → ChatMessage V
  -- content, tool_calls, thinking
  assistant : Option String → List (AssistantToolCall V) → List ThinkingBlock → ChatMessage V
  -- tool_call_id, content
  tool : String → String → ChatMessage V
