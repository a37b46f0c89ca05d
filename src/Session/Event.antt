-- ===== src/Session/Event.antt =====
-- Session events and snapshots: crates/duragent-types/src/session/ and the conversions of
-- crates/duragent/src/session/events_eval.rs and snapshot_eval.rs.
-- `V` stands for `serde_json::Value`, and `to_json` for `serde_json::to_string`, which may fail.
use agnx.Common.{
  ℕ, String, Bool, Option, none, some, List, map, ◌&&◌, ◌||◌, not, is_empty, if◌then◌else◌, str_eq,
}
use agnx.Session.Message.{Message, ToolCall, assistant}

pub data SessionStatus : Type 0 where
  active paused running completed : SessionStatus

pub data OnDisconnect : Type 0 where
  pause continue : OnDisconnect

pub data ToolType : Type 0 where
  bash mcp builtin cli : ToolType

pub data ApprovalDecisionType : Type 0 where
  allow_once allow_always deny : ApprovalDecisionType

pub data SessionEndReason : Type 0 where
  completed terminated timeout error : SessionEndReason

pub data CompactionMode : Type 0 where
  discard archive disabled : CompactionMode

pub record Usage : Type 0 where
  pub prompt_tokens : ℕ
  pub completion_tokens : ℕ
  pub total_tokens : ℕ

pub record ToolResultData : Type 0 where
  pub success : Bool
  pub content : String

pub record EventToolCall (V : Type 0) : Type 0 where
  pub call_id : String
  pub tool_name : String
  pub arguments : V

pub data SessionEventPayload (V : Type 0) : Type 0 where
  session_start : String → OnDisconnect → Option String → Option String → SessionEventPayload V
  session_end : SessionEndReason → SessionEventPayload V
  user_message : String → Option String → Option String → SessionEventPayload V
  assistant_message : String → String → Option Usage → SessionEventPayload V
  assistant_response :
      String → String → List (EventToolCall V) → Option Usage → SessionEventPayload V
  tool_call : String → String → V → SessionEventPayload V
  tool_result : String → ToolResultData → SessionEventPayload V
  tools_skipped : List String → String → SessionEventPayload V
  approval_required : String → String → SessionEventPayload V
  approval_decision : String → ApprovalDecisionType → SessionEventPayload V
  status_change : SessionStatus → SessionStatus → SessionEventPayload V
  silent_message : String → String → Option String → SessionEventPayload V
  error : String → String → SessionEventPayload V

pub record SessionEvent (V : Type 0) : Type 0 where
  pub seq : ℕ
  pub timestamp : ℕ
  pub payload : SessionEventPayload V

pub record PendingApproval (V : Type 0) : Type 0 where
  pub call_id : String
  pub tool_name : String
  pub arguments : V
  pub command : String
  pub tool_type : ToolType
  pub messages : List Message
  pub requester_id : Option String

pub record SessionConfig (V : Type 0) : Type 0 where
  pub on_disconnect : OnDisconnect
  pub gateway : Option String
  pub gateway_chat_id : Option String
  pub pending_approval : Option (PendingApproval V)
  pub silent_buffer_cap : Option ℕ
  pub actor_message_limit : Option ℕ

pub record CheckpointState : Type 0 where
  pub last_event_seq : ℕ
  pub checkpoint_seq : ℕ
  pub conversation : List Message

pub record SessionSnapshot (V : Type 0) : Type 0 where
  pub schema_version : String
  pub session_id : String
  pub agent : String
  pub status : SessionStatus
  pub created_at : ℕ
  pub snapshot_at : ℕ
  pub last_event_seq : ℕ
  pub checkpoint_seq : ℕ
  pub conversation : List Message
  pub config : SessionConfig V

-- `unwrap_or_default`
abbrev or_default : Option String → String
or_default (some s) = s
or_default none = ""

module _ {V : Type 0} where
  -- SessionEvent::new, at the time `now`
  abbrev pub new_event : ℕ → ℕ → SessionEventPayload V → SessionEvent V
  new_event now seq payload = record { seq = seq; timestamp = now; payload = payload }

  -- SessionSnapshot::new, at the time `now`
  abbrev pub new_snapshot :
      ℕ
      → String
      → String
      → SessionStatus
      → ℕ
      → CheckpointState
      → SessionConfig V
      → SessionSnapshot V
  new_snapshot now session_id agent status created_at checkpoint config = record {
    schema_version = "2";
    session_id = session_id;
    agent = agent;
    status = status;
    created_at = created_at;
    snapshot_at = now;
    last_event_seq = checkpoint.last_event_seq;
    checkpoint_seq = checkpoint.checkpoint_seq;
    conversation = checkpoint.conversation;
    config = config;
  }

  unfoldable pub is_compatible : SessionSnapshot V → Bool
  is_compatible s = str_eq s.schema_version "1" || str_eq s.schema_version "2"

  unfoldable pub replay_from_seq : SessionSnapshot V → ℕ
  replay_from_seq s = if str_eq s.schema_version "1" then s.last_event_seq else s.checkpoint_seq

  module _ (to_json : V → Option String) where
    abbrev pub llm_tool_call : String → String → V → ToolCall
    llm_tool_call call_id tool_name arguments = record {
      id = call_id;
      tool_type = "function";
      function = record { name = tool_name; arguments = or_default (to_json arguments) };
    }

    -- EventToolCall::to_llm_tool_call
    abbrev pub to_llm_tool_call : EventToolCall V → ToolCall
    to_llm_tool_call c = llm_tool_call c.call_id c.tool_name c.arguments

    unfoldable pub assistant_response_to_message : String → List (EventToolCall V) → Message
    assistant_response_to_message content tool_calls =
        let has_tool_calls = not (is_empty tool_calls) in
        record {
          role = assistant;
          content = if str_eq content "" && has_tool_calls then none else some content;
          tool_calls = if has_tool_calls then some (map to_llm_tool_call tool_calls) else none;
          tool_call_id = none;
        }
