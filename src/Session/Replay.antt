-- ===== src/Session/Replay.antt =====
-- The replay of events into messages: the loop of `recover_single_session`
-- (crates/duragent/src/session/registry.rs), and `to_message` of events_eval.rs.
pub mod Parts
use Prim.Native.String
use agnx.Common.{
  ℕ, String, Bool, true, false, Option, none, some, List, [], ◌∷◌, ◌++◌, map, foldl, not, ◌&&◌,
  retain, if◌then◌else◌, str_eq,
}
use agnx.Session.Message.{
  Message, ToolCall, user, assistant, text, tool_result, assistant_tool_calls, is_assistant,
}
use agnx.Session.Event.{
  SessionStatus, SessionEvent, SessionEventPayload, EventToolCall, llm_tool_call,
  assistant_response_to_message,
}

-- Adds a tool call to the last message if that is an assistant message and no tool result, and
-- as a message of its own otherwise. `record_tool_call` of the actor has the same lines.
abbrev pub is_none {ℓ} : {A : Type ℓ} → Option A → Bool
is_none none = true
is_none (some a) = false

abbrev pub calls_or_empty : Option (List ToolCall) → List ToolCall
calls_or_empty none = []
calls_or_empty (some calls) = calls

unfoldable pub push_tool_call : ToolCall → List Message → List Message
push_tool_call call [] = assistant_tool_calls (call ∷ []) ∷ []
push_tool_call call (m ∷ []) =
    if is_assistant m.role && is_none m.tool_call_id
    then record m { tool_calls = some (calls_or_empty m.tool_calls ++ call ∷ []) } ∷ []
    else m ∷ assistant_tool_calls (call ∷ []) ∷ []
push_tool_call call (m ∷ n ∷ ms) = m ∷ push_tool_call call (n ∷ ms)

abbrev pub skipped_content : String → String
skipped_content reason = String.◌++◌ "Skipped: " reason

-- One tool result for each skipped call.
abbrev pub skipped_messages : List String → String → List Message
skipped_messages call_ids reason = map (λ id. tool_result id (skipped_content reason)) call_ids

-- The variables of the loop.
pub record Replay : Type 0 where
  pub messages : List Message
  pub last_seq : ℕ
  pub status : SessionStatus
  pub outstanding : List String

-- `outstanding_call_ids.retain(|oid| oid != id)`
abbrev pub without : String → List String → List String
without id = retain (λ oid. not (str_eq oid id))

-- The same, for each of the ids.
abbrev pub without_all : List String → List String → List String
without_all [] ids = ids
without_all (id ∷ rest) ids = without_all rest (without id ids)

abbrev push : List Message → Message → List Message
push ms m = ms ++ m ∷ []

module _ {V : Type 0} (to_json : V → Option String) where
  abbrev call_ids : List (EventToolCall V) → List String
  call_ids = map (λ c. c.call_id)

  -- SessionEventEval::to_message
  unfoldable pub to_message : SessionEventPayload V → Option Message
  to_message (SessionEventPayload.user_message content _ _) = some (text user content)
  to_message (SessionEventPayload.assistant_message _ content _) = some (text assistant content)
  to_message (SessionEventPayload.assistant_response _ content tool_calls _) =
      some (assistant_response_to_message to_json content tool_calls)
  to_message (SessionEventPayload.tool_call call_id tool_name arguments) =
      some (assistant_tool_calls (llm_tool_call to_json call_id tool_name arguments ∷ []))
  to_message (SessionEventPayload.tool_result call_id result) =
      some (tool_result call_id result.content)
  to_message _ = none

  -- The match of the loop.
  unfoldable pub replay_payload : SessionEventPayload V → Replay → Replay
  replay_payload (SessionEventPayload.user_message content _ _) r = record r {
    messages = push r.messages (text user content);
  }
  replay_payload (SessionEventPayload.assistant_message _ content _) r = record r {
    messages = push r.messages (text assistant content);
  }
  replay_payload (SessionEventPayload.assistant_response _ content tool_calls _) r = record r {
    messages = push r.messages (assistant_response_to_message to_json content tool_calls);
    outstanding = r.outstanding ++ call_ids tool_calls;
  }
  replay_payload (SessionEventPayload.tool_call call_id tool_name arguments) r = record r {
    messages = push_tool_call (llm_tool_call to_json call_id tool_name arguments) r.messages;
    outstanding = r.outstanding ++ call_id ∷ [];
  }
  replay_payload (SessionEventPayload.tool_result call_id result) r = record r {
    messages = push r.messages (tool_result call_id result.content);
    outstanding = without call_id r.outstanding;
  }
  replay_payload (SessionEventPayload.tools_skipped ids reason) r = record r {
    messages = r.messages ++ skipped_messages ids reason;
    outstanding = without_all ids r.outstanding;
  }
  replay_payload (SessionEventPayload.status_change _ to) r = record r { status = to }
  -- Each of the four reasons ends the session.
  replay_payload (SessionEventPayload.session_end _) r = record r {
    status = SessionStatus.completed;
  }
  replay_payload _ r = r

  abbrev pub replay_event : Replay → SessionEvent V → Replay
  replay_event r e = record (replay_payload e.payload r) { last_seq = e.seq }

  unfoldable pub replay : Replay → List (SessionEvent V) → Replay
  replay = foldl replay_event
