-- ===== src/Session/Consistent/Queue.antt =====
-- The invariant when crates/duragent/src/session/actor.rs queues an event with its messages.
use agnx.Common.{
  sym, ℕ, ◌+◌, ◌≤◌, ◌<◌, ◌≡◌, refl, ap, ◌∙◌, String, Option, none, some, List, [], ◌∷◌, ◌++◌, arith,
  append_assoc, retain-append, lt→ltb,
}
use agnx.Session.Message.{Message}
use agnx.Session.Event.{
  SessionEvent, SessionEventPayload, SessionStatus, OnDisconnect, SessionSnapshot, new_event,
}
use agnx.Session.Actor.{SilentMessageEntry, queue_event}
use agnx.Session.Persist.{World}
use agnx.Session.Recover.{final_status}
use agnx.Session.Journal.{Numbered-le, Numbered-append, after, entries}
use agnx.Session.Replay.Parts.{
  message_step, status_step, replay_messages, replay_status, replay_messages-concat,
  replay_status-concat,
}
use agnx.Session.Consistent.{IsSound, Saved, journal}

module _ {V : Type 0} where
  after-concat :
      (c : ℕ) (log queue : List (SessionEvent V)) (e : SessionEvent V)
      → c < e.seq
      → after c (log ++ (queue ++ e ∷ [])) ≡ after c (log ++ queue) ++ e ∷ []
  after-concat c log queue e h = rw (← append_assoc, retain-append) (rw (lt→ltb c e.seq h))

-- The event is no change of status, or it is the change to `st`.
pub data StatusEffect {V : Type 0} (to_json : V → Option String) (p : SessionEventPayload V)
    (old st : SessionStatus) : Type 0 where
  keeps :
      ((x : SessionStatus) → status_step to_json p x ≡ x) → st ≡ old → StatusEffect to_json p old st
  sets : ((x : SessionStatus) → status_step to_json p x ≡ st) → StatusEffect to_json p old st

module _ {V : Type 0} (to_json : V → Option String) (d : OnDisconnect)
    (p : SessionEventPayload V) where
  status-effect :
      {old st : SessionStatus} (x : SessionStatus)
      → StatusEffect to_json p old st
      → (st ≡ old → final_status d x ≡ final_status d old)
      → final_status d (status_step to_json p x) ≡ final_status d st
  status-effect x (keeps same e) q = rw (same x, e) (q e)
  status-effect x (sets change) q = rw (change x)

module _ {V : Type 0} (to_json : V → Option String) (now : ℕ) (payload : SessionEventPayload V)
    (new : List Message) (sb : List SilentMessageEntry) (st : SessionStatus) (w : World V)
    (step : (ms : List Message) → message_step to_json payload ms ≡ ms ++ new)
    (status : StatusEffect to_json payload w.actor.status st) (c : IsSound to_json w) where
  open w use {actor as a, disk as d}

  abbrev queued : World V
  queued = record w {
    actor = queue_event now payload (record a {
      pending_messages = a.pending_messages ++ new;
      silent_buffer = sb;
      status = st;
    });
  }

  abbrev event : SessionEvent V
  event = new_event now (a.last_event_seq + 1) payload

  journal-queued :
      (k : ℕ)
      → k ≤ a.last_event_seq
      → after k (entries d.log ++ (a.pending_events ++ event ∷ []))
        ≡ after k (journal to_json w) ++ event ∷ []
  journal-queued k h = after-concat k (entries d.log) a.pending_events event (omega arith)

  messages-queued :
      (k : ℕ) (ms : List Message)
      → k ≤ a.last_event_seq
      → replay_messages to_json ms (after k (entries d.log ++ (a.pending_events ++ event ∷ [])))
        ≡ replay_messages to_json ms (after k (journal to_json w)) ++ new
  messages-queued k ms h =
      rw (journal-queued k h)
        (replay_messages-concat to_json ms (after k (journal to_json w)) event ∙ step _)

  status-queued :
      (k : ℕ) (x : SessionStatus)
      → k ≤ a.last_event_seq
      → (st ≡ a.status
          → final_status a.on_disconnect (replay_status to_json x (after k (journal to_json w)))
            ≡ final_status a.on_disconnect a.status)
      → final_status a.on_disconnect
          (replay_status to_json x (after k (entries d.log ++ (a.pending_events ++ event ∷ []))))
        ≡ final_status a.on_disconnect st
  status-queued k x h q = rw (journal-queued k h) (
      rw (replay_status-concat to_json x (after k (journal to_json w)) event)
        (status-effect to_json a.on_disconnect payload _ status q))

  Saved-queued :
      (s : Option (SessionSnapshot V)) → Saved to_json c.base s w → Saved to_json c.base s queued
  unfolding queue_event
  Saved-queued none v = tt
  Saved-queued (some s) v =
      let le : s.checkpoint_seq ≤ a.last_event_seq =
        omega (arith, v.checkpoint_le, v.flushed, Numbered-le _ _ _ c.queue_numbered) in
      record {
        version = v.version;
        above_base = v.above_base;
        checkpoint_le = v.checkpoint_le;
        flushed = v.flushed;
        trimmed = v.trimmed;
        messages =
            ap (λ ms. v.trimmed ++ ms) (sym (append_assoc a.checkpointed_messages _ new))
            ∙ sym (append_assoc v.trimmed _ new)
            ∙ ap (λ ms. ms ++ new) v.messages
            ∙ append_assoc s.conversation _ new
            ∙ ap (λ ms. s.conversation ++ ms) (sym (messages-queued s.checkpoint_seq [] le));
        status = status-queued s.checkpoint_seq s.status le (λ _. v.status);
        settings = v.settings;
      }

  pub queue_event-IsSound : IsSound to_json queued
  unfolding queue_event
  queue_event-IsSound = record {
    base = c.base;
    log_numbered = c.log_numbered;
    queue_numbered =
        Numbered-append _ a.last_event_seq _ a.pending_events (event ∷ []) c.queue_numbered
          (refl, refl);
    above_base = c.above_base;
    checkpoint_le = omega (arith, c.checkpoint_le);
    snapshot_le = c.snapshot_le;
    pending = messages-queued _ [] c.checkpoint_le ∙ ap (λ ms. ms ++ new) c.pending;
    status = status-queued a.checkpoint_seq st c.checkpoint_le (λ e. rw e c.status);
    saved = Saved-queued d.snapshot c.saved;
    finished = c.finished;
    clean = c.clean;
  }
