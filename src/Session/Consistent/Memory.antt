-- ===== src/Session/Consistent/Memory.antt =====
-- The invariant in what the actor (crates/duragent/src/session/actor.rs) does in memory.
use agnx.Session.Replay.Parts.{status_step, message_step}
use agnx.Session.Replay.{replay_payload}
use agnx.Session.Message.{user, text, Message}
use agnx.Session.Event.{
  SessionSnapshot, PendingApproval, assistant_response_to_message, Usage, SessionStatus,
  EventToolCall, SessionEventPayload,
}
use agnx.Session.Persist.{World}
use agnx.Session.Actor.{
  queue_event, maybe_roll_checkpoint, SilentMessageEntry, maybe_trim_history,
  add_assistant_response, add_user_message, push_messages, Actor,
}
use agnx.Common.{
  ℕ, String, ◌≡◌, refl, sym, ◌∙◌, Option, List, [], ◌∷◌, ◌++◌, append-nil, none, some,
}
use agnx.Session.Consistent.{Saved, IsSound}
use agnx.Session.Consistent.Queue.{keeps, queue_event-IsSound}
use agnx.Session.Consistent.Checkpoint.{maybe_roll_checkpoint-IsSound, maybe_trim_history-IsSound}

module _ {V : Type 0} (to_json : V → Option String) where
  -- The actor beside a disk that stays as it is.
  abbrev pub Keeps : (Actor V → Actor V) → Type 0
  Keeps f = (w : World V) → IsSound to_json w → IsSound to_json (record w { actor = f w.actor })

  roll_and_trim :
      (w : World V)
      → IsSound to_json w
      → IsSound to_json (record w { actor = maybe_trim_history (maybe_roll_checkpoint w.actor) })
  roll_and_trim w c =
      maybe_trim_history-IsSound to_json _ (maybe_roll_checkpoint-IsSound to_json w c)

  -- An event that changes no status, with the messages that its replay gives.
  pub queue_messages :
      (now : ℕ) (p : SessionEventPayload V) (new : List Message)
      → ((ms : List Message) → message_step to_json p ms ≡ ms ++ new)
      → ((x : SessionStatus) → status_step to_json p x ≡ x)
      → Keeps (λ a. queue_event now p (push_messages new a))
  unfolding push_messages
  queue_messages now p new hm hs w =
      queue_event-IsSound to_json now p new w.actor.silent_buffer w.actor.status w hm
        (keeps hs refl)

  pub add_user_message-Keeps :
      (now : ℕ) (content : String) (id name : Option String)
      → Keeps (add_user_message now content id name)
  unfolding add_user_message replay_payload
  add_user_message-Keeps now content id name w c =
      roll_and_trim _ (queue_messages now _ (text user content ∷ []) (λ ms. refl) (λ x. refl) w c)

  pub add_assistant_response-Keeps :
      (now : ℕ) (content : String) (calls : List (EventToolCall V)) (usage : Option Usage)
      → Keeps (add_assistant_response to_json now content calls usage)
  unfolding add_assistant_response replay_payload
  add_assistant_response-Keeps now content calls usage w c = roll_and_trim _ (
      queue_messages now _ (assistant_response_to_message to_json content calls ∷ []) (λ ms. refl)
        (λ x. refl) w c)

  -- An event that no message stands for.
  pub queue_silent :
      (now : ℕ) (p : SessionEventPayload V) (sb : List SilentMessageEntry)
      → ((ms : List Message) → message_step to_json p ms ≡ ms)
      → ((x : SessionStatus) → status_step to_json p x ≡ x)
      → Keeps (λ a. queue_event now p (record a { silent_buffer = sb }))
  queue_silent now p sb hm hs w c = rw (append-nil w.actor.pending_messages) at (
      queue_event-IsSound to_json now p [] sb w.actor.status w (λ ms. hm ms ∙ sym (append-nil ms))
        (keeps hs refl) c)

  -- The invariant does not read the time of the last change or the pending approval.
  pub IsSound-touch :
      (now : ℕ) (p : Option (PendingApproval V))
      → Keeps (λ a. record a { updated_at = now; pending_approval = p })
  IsSound-touch now p w c = record {
    base = c.base;
    log_numbered = c.log_numbered;
    queue_numbered = c.queue_numbered;
    above_base = c.above_base;
    checkpoint_le = c.checkpoint_le;
    snapshot_le = c.snapshot_le;
    pending = c.pending;
    status = c.status;
    saved = Saved-touch w.disk.snapshot c.saved;
    finished = c.finished;
    clean = c.clean;
  }
    where
      Saved-touch :
          (s : Option (SessionSnapshot V))
          → Saved to_json c.base s w
          → Saved to_json c.base s
              (record w { actor = record w.actor { updated_at = now; pending_approval = p } })
      Saved-touch none v = tt
      Saved-touch (some s) v = record {
        version = v.version;
        above_base = v.above_base;
        checkpoint_le = v.checkpoint_le;
        flushed = v.flushed;
        trimmed = v.trimmed;
        messages = v.messages;
        status = v.status;
        settings = v.settings;
      }
