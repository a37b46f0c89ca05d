-- ===== src/Session/Recover.antt =====
-- Recovery after a crash: `recover_single_session` of crates/duragent/src/session/registry.rs,
-- and `spawn` and `spawn_recovered` of actor.rs.
pub mod Lossless
pub mod Crash
pub mod Again
use agnx.Common.{ℕ, String, Option, none, some, List, [], ◌++◌, map, Result, ok, err}
use agnx.Session.Message.{Message, tool_result}
use agnx.Session.Event.{
  SessionStatus, active, paused, running, completed, OnDisconnect, pause, continue, CompactionMode,
  PendingApproval, SessionEvent, SessionSnapshot, new_snapshot, replay_from_seq,
}
use agnx.Session.Store.{Failure, Disk, load_events, load_snapshot}
use agnx.Session.Replay.{Replay, replay, without}
use agnx.Session.Actor.{Actor, default_silent_buffer_cap, default_actor_message_limit}
use agnx.Session.Persist.{World, ActorError, persistence, write_session_start}

-- The arguments of a new session, `ActorConfig` without the store.
pub record ActorConfig : Type 0 where
  pub id : String
  pub agent : String
  pub on_disconnect : OnDisconnect
  pub gateway : Option String
  pub gateway_chat_id : Option String
  pub silent_buffer_cap : ℕ
  pub actor_message_limit : ℕ
  pub compaction_mode : CompactionMode

abbrev pub interrupted : String
interrupted = "Error: tool execution interrupted by server restart"

-- The results that are made up for the calls with no result in the log.
abbrev pub synthesize : List String → List Message
synthesize ids = map (λ id. tool_result id interrupted) ids

-- The status of a recovered session; a completed one is skipped.
unfoldable pub final_status : OnDisconnect → SessionStatus → Option SessionStatus
final_status d active = some active
final_status d paused = some paused
final_status continue running = some active
final_status pause running = some paused
final_status d completed = none

-- `unwrap_or`
abbrev pub or_else : Option ℕ → ℕ → ℕ
or_else (some n) d = n
or_else none d = d

module _ {V : Type 0} where
  -- `spawn`, up to the start of the task
  unfoldable pub new_actor : ℕ → ActorConfig → Actor V
  new_actor now c = record {
    id = c.id;
    agent = c.agent;
    status = active;
    created_at = now;
    updated_at = now;
    checkpointed_messages = [];
    pending_messages = [];
    checkpoint_seq = 0;
    last_event_seq = 0;
    last_flushed_seq = 0;
    last_snapshot_seq = 0;
    pending_approval = none;
    silent_buffer = [];
    silent_buffer_cap = c.silent_buffer_cap;
    on_disconnect = c.on_disconnect;
    gateway = c.gateway;
    gateway_chat_id = c.gateway_chat_id;
    message_limit = c.actor_message_limit;
    compaction_mode = c.compaction_mode;
    pending_events = [];
  }

  -- `spawn` and the first lines of `run`, for a session that has no files yet
  unfoldable pub spawn : ℕ → ActorConfig → List (Option Failure) → World V
  spawn now c outcomes = write_session_start now (record {
    actor = new_actor now c;
    disk = record { log = []; archive = []; snapshot = none; outcomes = outcomes };
  })

  -- `spawn_recovered`; `cap` and `limit` are those of `RecoverConfig`
  unfoldable pub recovered_actor :
      SessionSnapshot V → List Message → ℕ → ℕ → CompactionMode → Actor V
  recovered_actor s pending_messages cap limit mode = record {
    id = s.session_id;
    agent = s.agent;
    status = s.status;
    created_at = s.created_at;
    updated_at = s.snapshot_at;
    checkpointed_messages = s.conversation;
    pending_messages = pending_messages;
    checkpoint_seq = s.checkpoint_seq;
    last_event_seq = s.last_event_seq;
    last_flushed_seq = s.last_event_seq;
    last_snapshot_seq = s.last_event_seq;
    pending_approval = s.config.pending_approval;
    silent_buffer = [];
    silent_buffer_cap = cap;
    on_disconnect = s.config.on_disconnect;
    gateway = s.config.gateway;
    gateway_chat_id = s.config.gateway_chat_id;
    message_limit = limit;
    compaction_mode = mode;
    pending_events = [];
  }

  -- The call that waits for an approval is not outstanding.
  abbrev pub without_pending : Option (PendingApproval V) → List String → List String
  without_pending none ids = ids
  without_pending (some p) ids = without p.call_id ids

  abbrev pub start_replay : SessionSnapshot V → Replay
  start_replay s = record {
    messages = [];
    last_seq = s.last_event_seq;
    status = s.status;
    outstanding = [];
  }

  abbrev pub recovered_snapshot : ℕ → SessionSnapshot V → ℕ → SessionStatus → SessionSnapshot V
  recovered_snapshot now s last_seq status =
      new_snapshot now s.session_id s.agent status s.created_at
        (record {
          last_event_seq = last_seq;
          checkpoint_seq = s.checkpoint_seq;
          conversation = s.conversation;
        })
        s.config

  -- From the end of the loop on.
  unfoldable pub finish_recovery :
      ℕ → CompactionMode → SessionSnapshot V → Replay → Option (Actor V)
  finish_recovery now mode s r =
      let ids = without_pending s.config.pending_approval r.outstanding in
      elim (final_status s.config.on_disconnect r.status) [
        | none ↦ none
        | some status ↦ some (
            recovered_actor (recovered_snapshot now s r.last_seq status)
              (r.messages ++ synthesize ids)
              (or_else s.config.silent_buffer_cap default_silent_buffer_cap)
              (or_else s.config.actor_message_limit default_actor_message_limit) mode)
      ]

  module _ (to_json : V → Option String) where
    abbrev after_load :
        ℕ
        → CompactionMode
        → SessionSnapshot V
        → Result (List (SessionEvent V)) String
        → Result (Option (Actor V)) ActorError
    after_load now mode s (err e) = err (persistence e)
    after_load now mode s (ok events) =
        ok (finish_recovery now mode s (replay to_json (start_replay s) events))

    abbrev after_snapshot :
        ℕ
        → CompactionMode
        → Result (Option (SessionSnapshot V)) String
        → Disk V
        → Result (Option (Actor V)) ActorError × Disk V
    after_snapshot now mode (err e) d = (err (persistence e), d)
    after_snapshot now mode (ok none) d = (ok none, d)
    after_snapshot now mode (ok (some s)) d =
        let (events, d') = load_events (replay_from_seq s) d in (after_load now mode s events, d')

    -- `Ok(false)` is `ok none`; `Ok(true)` comes with the actor that is spawned.
    unfoldable pub recover_single_session :
        ℕ → CompactionMode → Disk V → Result (Option (Actor V)) ActorError × Disk V
    recover_single_session now mode d =
        let (s, d') = load_snapshot d in after_snapshot now mode s d'
