-- ===== src/Session/Consistent/Checkpoint.antt =====
-- The invariant in `maybe_roll_checkpoint` and `maybe_trim_history` of
-- crates/duragent/src/session/actor.rs.

use agnx.Session.Event.{SessionSnapshot}
use agnx.Session.Journal.{after_none, entries, Numbered-append, after, Numbered}
use agnx.Session.Actor.{Actor, maybe_trim_history, maybe_roll_checkpoint}
use agnx.Session.Persist.{World}
use agnx.Common.{
  take-append-drop, sym, ap, ◌∙◌, append_assoc, take, append-nil, some, ◌≡◌, [], drop, if_both,
  arith, ◌++◌, ℕ, String, Option, none,
}
use agnx.Session.Consistent.{IsSound, Saved, journal}

module _ {V : Type 0} (to_json : V → Option String) where
  pub journal-Numbered :
      {w : World V} (c : IsSound to_json w)
      → Numbered c.base (journal to_json w) w.actor.last_event_seq
  journal-Numbered {w} c =
      Numbered-append c.base w.actor.last_flushed_seq _ (entries w.disk.log) _ c.log_numbered
        c.queue_numbered

  module _ (w : World V) (c : IsSound to_json w) where
    open w use {actor as a, disk as d}

    abbrev rolled : World V
    rolled = record w {
      actor = record a {
        checkpointed_messages = a.checkpointed_messages ++ a.pending_messages;
        pending_messages = [];
        checkpoint_seq = a.last_event_seq;
      };
    }

    after_last : after a.last_event_seq (journal to_json w) ≡ []
    after_last = after_none c.base _ _ (journal to_json w) (journal-Numbered c) (omega arith)

    Saved-rolled :
        (s : Option (SessionSnapshot V)) → Saved to_json c.base s w → Saved to_json c.base s rolled
    Saved-rolled none v = tt
    Saved-rolled (some s) v = record {
      version = v.version;
      above_base = v.above_base;
      checkpoint_le = v.checkpoint_le;
      flushed = v.flushed;
      trimmed = v.trimmed;
      messages = rw append-nil v.messages;
      status = v.status;
      settings = v.settings;
    }

    rolled-IsSound : IsSound to_json rolled
    rolled-IsSound = record {
      base = c.base;
      log_numbered = c.log_numbered;
      queue_numbered = c.queue_numbered;
      above_base = omega (arith, c.above_base, c.checkpoint_le);
      checkpoint_le = omega arith;
      snapshot_le = c.snapshot_le;
      pending = rw after_last;
      status = rw after_last;
      saved = Saved-rolled d.snapshot c.saved;
      finished = c.finished;
      clean = c.clean;
    }

  pub maybe_roll_checkpoint-IsSound :
      (w : World V)
      → IsSound to_json w
      → IsSound to_json (record w { actor = maybe_roll_checkpoint w.actor })
  unfolding maybe_roll_checkpoint
  maybe_roll_checkpoint-IsSound w c =
      if_both (λ (b : Actor V). IsSound to_json (record w { actor = b })) _ (rolled-IsSound w c) c

  module _ (n : ℕ) (w : World V) (c : IsSound to_json w) where
    open w use {actor as a, disk as d}

    abbrev dropped : World V
    dropped = record w {
      actor = record a { checkpointed_messages = drop n a.checkpointed_messages };
    }

    Saved-dropped :
        (s : Option (SessionSnapshot V)) → Saved to_json c.base s w → Saved to_json c.base s dropped
    Saved-dropped none v = tt
    Saved-dropped (some s) v = record {
      version = v.version;
      above_base = v.above_base;
      checkpoint_le = v.checkpoint_le;
      flushed = v.flushed;
      trimmed = v.trimmed ++ take n a.checkpointed_messages;
      messages =
          append_assoc v.trimmed _ _
          ∙ ap (λ ms. v.trimmed ++ ms)
              (sym (append_assoc (take n a.checkpointed_messages) _ a.pending_messages)
                ∙ ap (λ ms. ms ++ a.pending_messages) (take-append-drop n a.checkpointed_messages))
          ∙ v.messages;
      status = v.status;
      settings = v.settings;
    }

    dropped-IsSound : IsSound to_json dropped
    dropped-IsSound = record {
      base = c.base;
      log_numbered = c.log_numbered;
      queue_numbered = c.queue_numbered;
      above_base = c.above_base;
      checkpoint_le = c.checkpoint_le;
      snapshot_le = c.snapshot_le;
      pending = c.pending;
      status = c.status;
      saved = Saved-dropped d.snapshot c.saved;
      finished = c.finished;
      clean = c.clean;
    }

  pub maybe_trim_history-IsSound :
      (w : World V)
      → IsSound to_json w
      → IsSound to_json (record w { actor = maybe_trim_history w.actor })
  unfolding maybe_trim_history
  maybe_trim_history-IsSound w c =
      if_both (λ (b : Actor V). IsSound to_json (record w { actor = b })) _ (dropped-IsSound _ w c)
        c
