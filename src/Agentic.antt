-- ===== src/Agentic.antt =====
-- The agentic loop: crates/duragent/src/session/agentic_loop.rs.
-- The model's answers, the tools' work, the clock and the other tasks that send steering messages
-- are given by `World`, for the n-th call of each. The session's actor takes every command that it
-- is sent, in the order of `commands`; the loop reads none of its replies. `u32` counters wrap.
pub mod Calls
pub mod Model
pub mod Loop
pub mod Answers
pub mod Outcomes
pub mod Pairing
pub mod Masked
pub mod Dropped
pub mod Drained
pub mod Requests
pub mod Conversation
pub mod Counters
pub mod Termination
pub mod Safety
mod Tests
use agnx.Common.{
  ℕ, String, Bool, ◌&&◌, ◌||◌, Option, none, some, List, [], ◌∷◌, ◌++◌, str_eq, str_append, leb,
  if◌then◌else◌, Result, ok, err, ◌==◌,
}
use agnx.Session.Event.{Usage, PendingApproval}
use agnx.Session.Message.{Message, ToolCall, Role, text, tool_result, assistant_tool_calls}
use agnx.Session.Commands.{SessionCommand}
use agnx.Context.{add_u32}
use agnx.Tools.Hooks.{HooksConfig}
use agnx.Tools.Executor
use agnx.Tools.Executor.{ToolError, ToolExecutor}

pub record SteeringMessage : Type 0 where
  pub content : String
  pub sender_id : Option String
  pub sender_label : Option String
  pub persisted : Bool

-- `other` stands for every error but the rate limit.
pub data LlmError : Type 0 where
  rate_limit : Option ℕ → LlmError
  other : String → LlmError

pub data StreamEvent : Type 0 where
  token : String → StreamEvent
  tool_calls : List ToolCall → StreamEvent
  done : Option Usage → StreamEvent
  cancelled : StreamEvent

pub data AgenticError : Type 0 where
  llm : LlmError → AgenticError
  tool : ToolError → AgenticError
  max_iterations_exceeded : ℕ → AgenticError
  llm_timeout : ℕ → AgenticError

pub data AgenticResult (V : Type 0) : Type 0 where
  complete : String → Option Usage → ℕ → ℕ → AgenticResult V
  awaiting_approval : PendingApproval V → String → Option Usage → ℕ → ℕ → AgenticResult V

pub data ToolCallOutcome (V : Type 0) : Type 0 where
  executed : Message → Option Message → ToolCallOutcome V
  paused : PendingApproval V → ToolCallOutcome V

pub record ContextConfig : Type 0 where
  pub max_tool_result_tokens : ℕ
  pub tool_result_keep_first : ℕ
  pub tool_result_keep_last : ℕ

-- What the loop reads of an agent's specification; `max_input` is `effective_max_input_tokens()`.
pub record AgentSpec (V : Type 0) : Type 0 where
  pub max_tool_iterations : ℕ
  pub llm_timeout_seconds : ℕ
  pub max_input : ℕ
  pub max_output_tokens : Option ℕ
  pub context : ContextConfig
  pub hooks : HooksConfig V

pub record World : Type 0 where
  -- The n-th call of `chat_stream` with the messages and the executor's rebuilds so far.
  pub chat : ℕ → List Message → ℕ → Result (List (Result StreamEvent LlmError)) LlmError
  -- Whether the n-th round trip to the model outlasts its timeout.
  pub timed_out : ℕ → Bool
  -- Whether there is a steering channel, and what the n-th drain finds in it.
  pub has_steering : Bool
  pub steered : ℕ → List SteeringMessage
  -- `format!("{}", e)`
  pub display : ToolError → String
  -- `truncate_tool_result`, for the agent's configuration
  pub truncate : ContextConfig → String → String
  -- `format!("[result masked — ~{} tokens removed]", tokens)`
  pub placeholder : ℕ → String

pub record LoopState (V : Type 0) : Type 0 where
  pub messages : List Message
  pub total_usage : Option Usage
  pub iterations : ℕ
  pub tool_calls_made : ℕ
  pub executor : ToolExecutor
  -- The commands sent to the session's actor.
  pub commands : List (SessionCommand V)
  -- The messages of each request to the model, and the seconds slept before retries.
  pub requests : List (List Message)
  pub slept : List ℕ
  pub drains : ℕ
  pub round_trips : ℕ

pub data ToolsOutcome (V : Type 0) : Type 0 where
  next : Bool → ToolsOutcome V
  wait : PendingApproval V → ToolsOutcome V

-- accumulate_usage
unfoldable pub accumulate_usage : Option Usage → Option Usage → Option Usage
accumulate_usage (some e) (some n) = some (record {
  prompt_tokens = add_u32 e.prompt_tokens n.prompt_tokens;
  completion_tokens = add_u32 e.completion_tokens n.completion_tokens;
  total_tokens = add_u32 e.total_tokens n.total_tokens;
})
accumulate_usage (some e) none = some e
accumulate_usage none new = new

-- build_assistant_message
unfoldable pub build_assistant_message : String → List ToolCall → Message
build_assistant_message content calls =
    if str_eq content "" then assistant_tool_calls calls else record {
      role = Role.assistant;
      content = some content;
      tool_calls = some calls;
      tool_call_id = none;
    }

abbrev pub max_retries : ℕ
max_retries = 3

-- What the stream gave, or the error that ended it.
unfoldable pub consume :
    String
    → List ToolCall
    → Option Usage
    → List (Result StreamEvent LlmError)
    → Result (String × List ToolCall × Option Usage) AgenticError
consume content calls usage [] = ok (content, calls, usage)
consume content calls usage (err e ∷ events) = err (llm e)
consume content calls usage (ok (token t) ∷ events) =
    consume (str_append content t) calls usage events
consume content calls usage (ok (tool_calls c) ∷ events) = consume content c usage events
consume content calls usage (ok (done u) ∷ events) = consume content calls u events
consume content calls usage (ok cancelled ∷ events) = ok (content, calls, usage)

-- ASCII and Unicode white space, as `char::is_whitespace`
unfoldable pub is_whitespace : ℕ → Bool
is_whitespace c =
    (leb 9 c && leb c 13)
    || c == 32
    || c == 0x85
    || c == 0xA0
    || c == 0x1680
    || (leb 0x2000 c && leb c 0x200A)
    || c == 0x2028
    || c == 0x2029
    || c == 0x202F
    || c == 0x205F
    || c == 0x3000

-- The results that stand in for the calls that are skipped.
unfoldable pub skipped : String → List ToolCall → List Message
skipped reason [] = []
skipped reason (c ∷ calls) = tool_result c.id (str_append "Skipped: " reason) ∷ skipped reason calls

abbrev pub steering_message : Option String → Option Message
steering_message none = none
steering_message (some msg) = some (text Role.steering (str_append "[steering] " msg))

-- into_messages
unfoldable pub into_messages : {V : Type 0} → PendingApproval V → String → List Message
into_messages pending content = pending.messages ++ tool_result pending.call_id content ∷ []
