-- ===== src/Session/Actor.antt =====
-- The state of a session's actor and its write operations that touch no file:
-- crates/duragent/src/session/actor.rs and actor_types.rs.
-- `now` is what `Utc::now()` returns during the operation, in milliseconds; sequence numbers are
-- `u64` in the program and do not wrap here.
use agnx.Common.{
  ℕ, ◌+◌, ◌-◌, ◌*◌, ◌/◌, min, max, String, Bool, Option, List, [], ◌∷◌, ◌++◌, reverse, not, ◌&&◌,
  ltb, leb, length, is_empty, take, drop, retain, if◌then◌else◌,
}
use agnx.Session.Message.{Message, user, text, tool_result}
use agnx.Session.Event.{
  SessionStatus, OnDisconnect, CompactionMode, PendingApproval, SessionEvent, SessionEventPayload,
  EventToolCall, ApprovalDecisionType, Usage, new_event, llm_tool_call,
  assistant_response_to_message,
}
use agnx.Session.Replay.{push_tool_call, skipped_messages}

abbrev pub batch_size : ℕ
batch_size = 10

abbrev pub snapshot_interval : ℕ
snapshot_interval = 50

abbrev pub checkpoint_threshold : ℕ
checkpoint_threshold = 50

abbrev pub default_silent_buffer_cap : ℕ
default_silent_buffer_cap = 200

abbrev pub default_actor_message_limit : ℕ
default_actor_message_limit = 1000

-- actor_types.rs: `actor_message_limit`
unfoldable pub actor_message_limit : ℕ → ℕ
actor_message_limit max_input_tokens = min 2000 (max 100 (max_input_tokens / 200 * 2))

pub record SilentMessageEntry : Type 0 where
  pub content : String
  pub timestamp : ℕ

pub record Actor (V : Type 0) : Type 0 where
  pub id : String
  pub agent : String
  pub status : SessionStatus
  pub created_at : ℕ
  pub updated_at : ℕ
  pub checkpointed_messages : List Message
  pub pending_messages : List Message
  pub checkpoint_seq : ℕ
  pub last_event_seq : ℕ
  pub last_flushed_seq : ℕ
  pub last_snapshot_seq : ℕ
  pub pending_approval : Option (PendingApproval V)
  pub silent_buffer : List SilentMessageEntry
  pub silent_buffer_cap : ℕ
  pub on_disconnect : OnDisconnect
  pub gateway : Option String
  pub gateway_chat_id : Option String
  pub message_limit : ℕ
  pub compaction_mode : CompactionMode
  pub pending_events : List (SessionEvent V)

module _ {V : Type 0} where
  -- `updated_at = now`, `next_seq`, and the event at the back of the queue.
  unfoldable pub queue_event : ℕ → SessionEventPayload V → Actor V → Actor V
  queue_event now payload a =
      let seq = a.last_event_seq + 1 in
      record a {
        updated_at = now;
        last_event_seq = seq;
        pending_events = a.pending_events ++ new_event now seq payload ∷ [];
      }

  unfoldable pub push_messages : List Message → Actor V → Actor V
  push_messages ms a = record a { pending_messages = a.pending_messages ++ ms }

  unfoldable pub all_messages : Actor V → List Message
  all_messages a = a.checkpointed_messages ++ a.pending_messages

  unfoldable pub maybe_roll_checkpoint : Actor V → Actor V
  maybe_roll_checkpoint a =
      if leb checkpoint_threshold (length a.pending_messages)
      then record a {
        checkpointed_messages = a.checkpointed_messages ++ a.pending_messages;
        pending_messages = [];
        checkpoint_seq = a.last_event_seq;
      }
      else a

  unfoldable pub maybe_trim_history : Actor V → Actor V
  maybe_trim_history a =
      let total = length a.checkpointed_messages + length a.pending_messages in
      let excess = total - a.message_limit in
      if ltb a.message_limit total && not (is_empty a.checkpointed_messages)
      then record a {
        checkpointed_messages =
            drop (min excess (length a.checkpointed_messages)) a.checkpointed_messages;
      }
      else a

  unfoldable pub add_user_message : ℕ → String → Option String → Option String → Actor V → Actor V
  unfolding queue_event push_messages
  add_user_message now content sender_id sender_name a = maybe_trim_history (
      maybe_roll_checkpoint (
        queue_event now (SessionEventPayload.user_message content sender_id sender_name)
          (push_messages (text user content ∷ []) a)))

  unfoldable pub push_silent : SilentMessageEntry → Actor V → Actor V
  push_silent entry a =
      let buffer = a.silent_buffer ++ entry ∷ [] in
      record a {
        silent_buffer = if ltb a.silent_buffer_cap (length buffer) then drop 1 buffer else buffer;
      }

  unfoldable pub add_silent_message : ℕ → String → String → Option String → Actor V → Actor V
  add_silent_message now content sender_id sender_name a =
      queue_event now (SessionEventPayload.silent_message content sender_id sender_name)
        (push_silent (record { content = content; timestamp = now }) a)

  unfoldable pub record_tool_result : ℕ → String → Bool → String → Actor V → Actor V
  record_tool_result now call_id success content a =
      queue_event now
        (SessionEventPayload.tool_result call_id (record { success = success; content = content }))
        (push_messages (tool_result call_id content ∷ []) a)

  unfoldable pub record_tools_skipped : ℕ → List String → String → Actor V → Actor V
  record_tools_skipped now call_ids reason a =
      queue_event now (SessionEventPayload.tools_skipped call_ids reason)
        (push_messages (skipped_messages call_ids reason) a)

  unfoldable pub record_approval_required : ℕ → String → String → Actor V → Actor V
  record_approval_required now call_id command =
      queue_event now (SessionEventPayload.approval_required call_id command)

  unfoldable pub record_approval_decision : ℕ → String → ApprovalDecisionType → Actor V → Actor V
  record_approval_decision now call_id decision =
      queue_event now (SessionEventPayload.approval_decision call_id decision)

  unfoldable pub record_error : ℕ → String → String → Actor V → Actor V
  record_error now code message = queue_event now (SessionEventPayload.error code message)

  unfoldable pub get_recent_silent_messages : ℕ → ℕ → ℕ → Actor V → List SilentMessageEntry
  get_recent_silent_messages now max_messages max_age a =
      let cutoff = now - max_age in
      reverse (take max_messages (retain (λ e. leb cutoff e.timestamp) (reverse a.silent_buffer)))

  module _ (to_json : V → Option String) where
    unfoldable pub add_assistant_response :
        ℕ → String → List (EventToolCall V) → Option Usage → Actor V → Actor V
    unfolding queue_event push_messages
    add_assistant_response now content tool_calls usage a = maybe_trim_history (
        maybe_roll_checkpoint (
          queue_event now (SessionEventPayload.assistant_response a.agent content tool_calls usage)
            (push_messages (assistant_response_to_message to_json content tool_calls ∷ []) a)))

    unfoldable pub record_tool_call : ℕ → String → String → V → Actor V → Actor V
    record_tool_call now call_id tool_name arguments a =
        queue_event now (SessionEventPayload.tool_call call_id tool_name arguments) (record a {
          pending_messages =
              push_tool_call (llm_tool_call to_json call_id tool_name arguments) a.pending_messages;
        })
