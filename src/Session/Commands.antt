-- ===== src/Session/Commands.antt =====
-- The command protocol of the actor and its loop: `SessionCommand`, `handle_command` and
-- `command_loop` of crates/duragent/src/session/actor_types.rs and actor.rs.
use agnx.Common.{ℕ, String, Bool, Option, List, [], ◌∷◌, leb, length, is_empty, if◌then◌else◌, ok}
use agnx.Session.Message.{Message}
use agnx.Session.Event.{
  SessionStatus, OnDisconnect, PendingApproval, EventToolCall, ApprovalDecisionType, Usage,
}
use agnx.Session.Actor
use agnx.Session.Persist
use agnx.Session.Actor.{Actor, SilentMessageEntry, batch_size, all_messages}
use agnx.Session.Persist.{World, Exec, ◌>>=◌, pure, flush_events, flush_and_snapshot}

pub data SessionCommand (V : Type 0) : Type 0 where
  add_user_message : String → Option String → Option String → SessionCommand V
  add_assistant_message : String → Option Usage → SessionCommand V
  add_assistant_response : String → List (EventToolCall V) → Option Usage → SessionCommand V
  add_silent_message : String → String → Option String → SessionCommand V
  record_tool_call : String → String → V → SessionCommand V
  record_tool_result : String → Bool → String → SessionCommand V
  record_tools_skipped : List String → String → SessionCommand V
  record_approval_required : String → String → SessionCommand V
  record_approval_decision : String → ApprovalDecisionType → SessionCommand V
  set_pending_approval : PendingApproval V → SessionCommand V
  clear_pending_approval : SessionCommand V
  set_status : SessionStatus → SessionCommand V
  record_error : String → String → SessionCommand V
  get_messages : SessionCommand V
  get_recent_silent_messages : ℕ → ℕ → SessionCommand V
  get_metadata : SessionCommand V
  get_pending_approval : SessionCommand V
  finalize_stream : String → Option Usage → SessionCommand V
  force_flush : SessionCommand V
  force_snapshot : SessionCommand V

pub record SessionMetadata : Type 0 where
  pub id : String
  pub agent : String
  pub status : SessionStatus
  pub created_at : ℕ
  pub updated_at : ℕ
  pub last_event_seq : ℕ
  pub on_disconnect : OnDisconnect
  pub gateway : Option String
  pub gateway_chat_id : Option String

-- What the reply channel carries on success: the program's channels have one type each.
pub data Reply (V : Type 0) : Type 0 where
  seq : ℕ → Reply V
  done : Reply V
  messages : List Message → Reply V
  silent : List SilentMessageEntry → Reply V
  metadata : SessionMetadata → Reply V
  approval : Option (PendingApproval V) → Reply V

module _ {V : Type 0} where
  abbrev metadata_of : Actor V → SessionMetadata
  metadata_of a = record {
    id = a.id;
    agent = a.agent;
    status = a.status;
    created_at = a.created_at;
    updated_at = a.updated_at;
    last_event_seq = a.last_event_seq;
    on_disconnect = a.on_disconnect;
    gateway = a.gateway;
    gateway_chat_id = a.gateway_chat_id;
  }

  -- A write that only changes the actor: `Ok(seq)` of the event that it queued.
  abbrev pub write : (Actor V → Actor V) → Exec V (Reply V)
  write f w = let a = f w.actor in (ok (seq a.last_event_seq), record w { actor = a })

  abbrev pub read : (Actor V → Reply V) → Exec V (Reply V)
  read f w = (ok (f w.actor), w)

  abbrev pub unit_reply : Exec V Unit → Exec V (Reply V)
  unit_reply m = m >>= λ _. pure done

  -- The flush timer.
  unfoldable pub loop_tick : ℕ → World V → World V
  loop_tick now w = if is_empty w.actor.pending_events then w else (flush_events now w).1

  module _ (to_json : V → Option String) (now : ℕ) where
    unfoldable pub handle_command : SessionCommand V → Exec V (Reply V)
    handle_command (SessionCommand.add_user_message content sender_id sender_name) =
        write (Actor.add_user_message now content sender_id sender_name)
    handle_command (SessionCommand.add_assistant_message content usage) =
        write (Actor.add_assistant_response to_json now content [] usage)
    handle_command (SessionCommand.add_assistant_response content tool_calls usage) =
        write (Actor.add_assistant_response to_json now content tool_calls usage)
    handle_command (SessionCommand.add_silent_message content sender_id sender_name) =
        write (Actor.add_silent_message now content sender_id sender_name)
    handle_command (SessionCommand.record_tool_call call_id tool_name arguments) =
        write (Actor.record_tool_call to_json now call_id tool_name arguments)
    handle_command (SessionCommand.record_tool_result call_id success content) =
        write (Actor.record_tool_result now call_id success content)
    handle_command (SessionCommand.record_tools_skipped call_ids reason) =
        write (Actor.record_tools_skipped now call_ids reason)
    handle_command (SessionCommand.record_approval_required call_id command) =
        write (Actor.record_approval_required now call_id command)
    handle_command (SessionCommand.record_approval_decision call_id decision) =
        write (Actor.record_approval_decision now call_id decision)
    handle_command (SessionCommand.set_pending_approval pending) =
        unit_reply (Persist.set_pending_approval now pending)
    handle_command SessionCommand.clear_pending_approval =
        unit_reply (Persist.clear_pending_approval now)
    handle_command (SessionCommand.set_status status) = unit_reply (Persist.set_status now status)
    handle_command (SessionCommand.record_error code message) =
        write (Actor.record_error now code message)
    handle_command SessionCommand.get_messages = read (λ a. messages (all_messages a))
    handle_command (SessionCommand.get_recent_silent_messages max_messages max_age) =
        read (λ a. silent (Actor.get_recent_silent_messages now max_messages max_age a))
    handle_command SessionCommand.get_metadata = read (λ a. metadata (metadata_of a))
    handle_command SessionCommand.get_pending_approval = read (λ a. approval a.pending_approval)
    handle_command (SessionCommand.finalize_stream content usage) =
        Persist.finalize_stream to_json now content usage >>= λ n. pure (seq n)
    handle_command SessionCommand.force_flush = unit_reply (flush_events now)
    handle_command SessionCommand.force_snapshot = unit_reply (flush_and_snapshot now)

    -- A command of the loop: the batch is flushed when it is full.
    unfoldable pub loop_command : SessionCommand V → World V → World V
    loop_command command w =
        let w' = (handle_command command w).1 in
        if leb batch_size (length w'.actor.pending_events) then (flush_events now w').1 else w'

    unfoldable pub drain_commands : List (SessionCommand V) → World V → World V
    drain_commands [] w = w
    drain_commands (c ∷ cs) w = drain_commands cs (handle_command c w).1

    -- The shutdown signal: the commands that still wait, then a flush and a snapshot. With no
    -- commands it is also what happens when every sender is dropped.
    unfoldable pub shutdown : List (SessionCommand V) → World V → World V
    shutdown queued w = (flush_and_snapshot now (drain_commands queued w)).1

-- What `tokio::select!` may choose in a round of the loop, at its time.
pub data Round (V : Type 0) : Type 0 where
  command : ℕ → SessionCommand V → Round V
  tick : ℕ → Round V

module _ {V : Type 0} (to_json : V → Option String) where
  unfoldable pub loop_round : Round V → World V → World V
  loop_round (command now c) = loop_command to_json now c
  loop_round (tick now) = loop_tick now

  unfoldable pub command_loop : List (Round V) → World V → World V
  command_loop [] w = w
  command_loop (r ∷ rs) w = command_loop rs (loop_round r w)
