-- ===== src/Session/Consistent/Flush.antt =====
-- The invariant in `flush_events` of crates/duragent/src/session/actor.rs.
use agnx.Session.Journal.{entries, Numbered-le, entries-map-entry, entries-append}
use agnx.Session.Store.{Failure, entry, Line, Disk}
use agnx.Session.Actor.{Actor}
use agnx.Session.Event.{SessionSnapshot, SessionEvent}
use agnx.Session.Store.Finished.{Clean, ends-append}
use agnx.Common.{
  All, ap, arith, ◌∙◌, map, reverse, some, append-nil, ◌++◌, sym, ◌≡◌, [], String, List, Option,
  refl, none,
}
use agnx.Session.Persist.{World, requeue}
use mathlib.Core.List.{reverse_aux-eq-foldl, reverse-reverse}
use agnx.Session.Consistent.{IsSound, Saved, journal}
use agnx.Session.Consistent.Checkpoint.{journal-Numbered}

module _ {V : Type 0} where
  -- The failed events are queued again as they were.
  pub requeue-nil : (es : List (SessionEvent V)) → requeue es [] ≡ es
  unfolding requeue
  requeue-nil es = sym (reverse_aux-eq-foldl (reverse es) []) ∙ reverse-reverse es

module _ {V : Type 0} (to_json : V → Option String) where
  -- The invariant reads the log and the snapshot, and nothing else of the disk.
  pub IsSound-disk :
      {a : Actor V} {d : Disk V} (archive : List (Line V)) (outcomes : List (Option Failure))
      → All Clean outcomes
      → IsSound to_json (record { actor = a; disk = d })
      → IsSound to_json
          (record { actor = a; disk = record d { archive = archive; outcomes = outcomes } })
  IsSound-disk {a} {d} archive outcomes q c = record {
    base = c.base;
    log_numbered = c.log_numbered;
    queue_numbered = c.queue_numbered;
    above_base = c.above_base;
    checkpoint_le = c.checkpoint_le;
    snapshot_le = c.snapshot_le;
    pending = c.pending;
    status = c.status;
    saved = Saved-disk d.snapshot c.saved;
    finished = c.finished;
    clean = q;
  }
    where
      Saved-disk :
          (s : Option (SessionSnapshot V))
          → Saved to_json c.base s (record { actor = a; disk = d })
          → Saved to_json c.base s
              (record { actor = a; disk = record d { archive = archive; outcomes = outcomes } })
      Saved-disk none v = tt
      Saved-disk (some s) v = record {
        version = v.version;
        above_base = v.above_base;
        checkpoint_le = v.checkpoint_le;
        flushed = v.flushed;
        trimmed = v.trimmed;
        messages = v.messages;
        status = v.status;
        settings = v.settings;
      }

  module _ (w : World V) (c : IsSound to_json w) where
    open w use {actor as a, disk as d}

    -- Everything in the queue has been written.
    abbrev pub flushed : World V
    flushed = record {
      actor = record a { pending_events = []; last_flushed_seq = a.last_event_seq };
      disk = record d { log = d.log ++ map entry a.pending_events };
    }

    journal-flushed : journal to_json flushed ≡ journal to_json w
    journal-flushed =
        append-nil _
        ∙ entries-append d.log _
        ∙ ap (λ es. entries d.log ++ es) (entries-map-entry a.pending_events)

    Saved-flushed :
        (s : Option (SessionSnapshot V)) → Saved to_json c.base s w → Saved to_json c.base s flushed
    Saved-flushed none v = tt
    Saved-flushed (some s) v = record {
      version = v.version;
      above_base = v.above_base;
      checkpoint_le = v.checkpoint_le;
      flushed = omega (arith, v.flushed, Numbered-le _ _ _ c.queue_numbered);
      trimmed = v.trimmed;
      messages = rw journal-flushed v.messages;
      status = rw journal-flushed v.status;
      settings = v.settings;
    }

    pub flushed-IsSound : IsSound to_json flushed
    flushed-IsSound = record {
      base = c.base;
      log_numbered =
          rw (entries-append d.log, entries-map-entry a.pending_events)
            (journal-Numbered to_json c);
      queue_numbered = refl;
      above_base = c.above_base;
      checkpoint_le = c.checkpoint_le;
      snapshot_le = omega (arith, c.snapshot_le, Numbered-le _ _ _ c.queue_numbered);
      pending = rw journal-flushed c.pending;
      status = rw journal-flushed c.status;
      saved = Saved-flushed d.snapshot c.saved;
      finished = ends-append d.log a.pending_events c.finished;
      clean = c.clean;
    }
