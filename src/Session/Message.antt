-- ===== src/Session/Message.antt =====
-- Chat messages: crates/duragent-types/src/llm.rs.
use agnx.Common.{String, Bool, true, false, Option, none, some, List}

pub data Role : Type 0 where
  system user assistant tool steering : Role

pub record FunctionCall : Type 0 where
  pub name : String
  pub arguments : String

pub record ToolCall : Type 0 where
  pub id : String
  pub tool_type : String
  pub function : FunctionCall

pub record Message : Type 0 where
  pub role : Role
  pub content : Option String
  pub tool_calls : Option (List ToolCall)
  pub tool_call_id : Option String

-- Message::text
abbrev pub text : Role → String → Message
text r c = record { role = r; content = some c; tool_calls = none; tool_call_id = none }

-- Message::tool_result
abbrev pub tool_result : String → String → Message
tool_result id c = record {
  role = tool;
  content = some c;
  tool_calls = none;
  tool_call_id = some id;
}

-- Message::assistant_tool_calls
abbrev pub assistant_tool_calls : List ToolCall → Message
assistant_tool_calls calls = record {
  role = assistant;
  content = none;
  tool_calls = some calls;
  tool_call_id = none;
}

-- Message::content_str
abbrev pub content_str : Message → String
content_str m = elim m.content [ some c ↦ c | none ↦ "" ]

-- The tests `role == Role::...`.
abbrev pub is_assistant : Role → Bool
is_assistant assistant = true
is_assistant _ = false

abbrev pub is_tool : Role → Bool
is_tool tool = true
is_tool _ = false

abbrev pub is_user : Role → Bool
is_user user = true
is_user _ = false
