-- ===== src/Session/Consistent.antt =====
-- The invariant that ties the actor (crates/duragent/src/session/actor.rs) to its files: what is
-- numbered, what a checkpoint covers, and what a recovery would rebuild.
pub mod Queue
pub mod Checkpoint
pub mod Flush
pub mod Snapshot
pub mod Writes
pub mod Unsynced
pub mod Memory
pub mod Commands
pub mod Lifecycle
use agnx.Session.Store.Finished.{ends_unfinished, Clean}
use agnx.Session.Actor.{Actor}
use agnx.Common.{All, false, ℕ, ◌≤◌, ◌≡◌, String, Option, none, some, List, [], ◌++◌}
use agnx.Session.Message.{Message}
use agnx.Session.Event.{SessionEvent, SessionSnapshot}
use agnx.Session.Persist.{World}
use agnx.Session.Recover.{final_status}
use agnx.Session.Journal.{Numbered, after, entries}
use agnx.Session.Replay.Parts.{replay_messages, replay_status}

module _ {V : Type 0} where
  -- What never changes in the life of a session.
  abbrev pub SameSettings : SessionSnapshot V → Actor V → Type 0
  SameSettings s a =
      (s.session_id ≡ a.id)
      × (s.agent ≡ a.agent)
      × (s.created_at ≡ a.created_at)
      × (s.config.on_disconnect ≡ a.on_disconnect)
      × (s.config.gateway ≡ a.gateway)
      × (s.config.gateway_chat_id ≡ a.gateway_chat_id)
      × (s.config.silent_buffer_cap ≡ some a.silent_buffer_cap)
      × (s.config.actor_message_limit ≡ some a.message_limit)

module _ {V : Type 0} (to_json : V → Option String) where
  -- Every event that is not compacted away, in the log or still in the queue.
  abbrev pub journal : World V → List (SessionEvent V)
  journal w = entries w.disk.log ++ w.actor.pending_events

  -- A recovery from the snapshot `s` and the whole journal has the messages of the actor after
  -- some that were trimmed, its status, and its settings.
  pub record Covers (base : ℕ) (s : SessionSnapshot V) (w : World V) : Type 0 where
    pub version : s.schema_version ≡ "2"
    pub above_base : base ≤ s.checkpoint_seq
    pub checkpoint_le : s.checkpoint_seq ≤ s.last_event_seq
    pub flushed : s.last_event_seq ≤ w.actor.last_flushed_seq
    pub trimmed : List Message
    pub messages :
        trimmed ++ (w.actor.checkpointed_messages ++ w.actor.pending_messages)
        ≡ s.conversation ++ replay_messages to_json [] (after s.checkpoint_seq (journal w))
    pub status :
        final_status w.actor.on_disconnect
          (replay_status to_json s.status (after s.checkpoint_seq (journal w)))
        ≡ final_status w.actor.on_disconnect w.actor.status
    pub settings : SameSettings s w.actor

  abbrev pub Saved : ℕ → Option (SessionSnapshot V) → World V → Type 0
  Saved base none w = Unit
  Saved base (some s) w = Covers base s w

  -- `base` is the number of the last event that was compacted away.
  pub record IsConsistent (w : World V) : Type 0 where
    pub base : ℕ
    pub finished : ends_unfinished w.disk.log ≡ false
    pub log_numbered : Numbered base (entries w.disk.log) w.actor.last_flushed_seq
    pub queue_numbered :
        Numbered w.actor.last_flushed_seq w.actor.pending_events w.actor.last_event_seq
    pub above_base : base ≤ w.actor.checkpoint_seq
    pub checkpoint_le : w.actor.checkpoint_seq ≤ w.actor.last_event_seq
    pub snapshot_le : w.actor.last_snapshot_seq ≤ w.actor.last_flushed_seq
    pub pending :
        replay_messages to_json [] (after w.actor.checkpoint_seq (journal w))
        ≡ w.actor.pending_messages
    pub status :
        final_status w.actor.on_disconnect
          (replay_status to_json w.actor.status (after w.actor.checkpoint_seq (journal w)))
        ≡ final_status w.actor.on_disconnect w.actor.status
    pub saved : Saved base w.disk.snapshot w

  -- The same, and no append that is still to come fails with something written.
  pub record IsSound (w : World V) : Type 0 where
    pub base : ℕ
    pub finished : ends_unfinished w.disk.log ≡ false
    pub log_numbered : Numbered base (entries w.disk.log) w.actor.last_flushed_seq
    pub queue_numbered :
        Numbered w.actor.last_flushed_seq w.actor.pending_events w.actor.last_event_seq
    pub above_base : base ≤ w.actor.checkpoint_seq
    pub checkpoint_le : w.actor.checkpoint_seq ≤ w.actor.last_event_seq
    pub snapshot_le : w.actor.last_snapshot_seq ≤ w.actor.last_flushed_seq
    pub pending :
        replay_messages to_json [] (after w.actor.checkpoint_seq (journal w))
        ≡ w.actor.pending_messages
    pub status :
        final_status w.actor.on_disconnect
          (replay_status to_json w.actor.status (after w.actor.checkpoint_seq (journal w)))
        ≡ final_status w.actor.on_disconnect w.actor.status
    pub saved : Saved base w.disk.snapshot w
    pub clean : All Clean w.disk.outcomes

  pub IsSound-join : (w : World V) → All Clean w.disk.outcomes → IsConsistent w → IsSound w
  IsSound-join w q c = record {
    base = c.base;
    finished = c.finished;
    log_numbered = c.log_numbered;
    queue_numbered = c.queue_numbered;
    above_base = c.above_base;
    checkpoint_le = c.checkpoint_le;
    snapshot_le = c.snapshot_le;
    pending = c.pending;
    status = c.status;
    saved = c.saved;
    clean = q;
  }

  pub IsConsistent-forget : {w : World V} → IsSound w → IsConsistent w
  IsConsistent-forget c = record {
    base = c.base;
    finished = c.finished;
    log_numbered = c.log_numbered;
    queue_numbered = c.queue_numbered;
    above_base = c.above_base;
    checkpoint_le = c.checkpoint_le;
    snapshot_le = c.snapshot_le;
    pending = c.pending;
    status = c.status;
    saved = c.saved;
  }
