-- ===== src/Session/Consistent/Snapshot.antt =====
-- The invariant in `write_snapshot` of crates/duragent/src/session/actor.rs and in the
-- compaction after it.
use agnx.Session.Store.Cases.{compact_events-cases}
use agnx.Session.Journal.{
  entries, after-after, Numbered, Numbered-after, entries-retained_lines, after,
}
use agnx.Session.Store.{Failure, retained_lines}
use agnx.Session.Persist.{is_archive, snapshot_of, compact, World}
use agnx.Session.Event.{SessionEvent, SessionSnapshot}
use agnx.Session.Store.Finished.{Clean, ends-retained_lines}
use agnx.Common.{
  All, if_both, retain-append, ℕ, ◌≤◌, String, ◌≡◌, refl, sym, ap, Option, none, some, List, [],
  ◌∷◌, ◌++◌, arith,
}
use agnx.Session.Consistent.{IsSound, Saved, journal}
use agnx.Session.Consistent.Flush.{IsSound-disk}

module _ {V : Type 0} where
  -- The state after the snapshot is saved.
  abbrev pub saved : ℕ → List (Option Failure) → World V → World V
  saved now os w = record {
    actor = record w.actor { last_snapshot_seq = w.actor.last_flushed_seq };
    disk = record w.disk { snapshot = some (snapshot_of now w.actor); outcomes = os };
  }

module _ {V : Type 0} (to_json : V → Option String) where
  -- After a compaction up to the checkpoint that the snapshot has.
  module _ (s : SessionSnapshot V) (w : World V) (is_saved : w.disk.snapshot ≡ some s)
      (same : s.checkpoint_seq ≡ w.actor.checkpoint_seq)
      (le : w.actor.checkpoint_seq ≤ w.actor.last_flushed_seq) (c : IsSound to_json w) where
    open w use {actor as a, disk as d}

    abbrev pub compacted : World V
    compacted = record w { disk = record d { log = retained_lines a.checkpoint_seq d.log } }

    after-compacted :
        (k : ℕ)
        → a.checkpoint_seq ≤ k
        → after k (journal to_json compacted) ≡ after k (journal to_json w)
    after-compacted k h =
        rw (entries-retained_lines a.checkpoint_seq d.log, retain-append)
          (rw (after-after a.checkpoint_seq k (entries d.log) h)
            (sym (retain-append _ (entries d.log) a.pending_events)))

    Saved-compacted :
        (o : Option (SessionSnapshot V))
        → o ≡ some s
        → Saved to_json c.base o w
        → Saved to_json a.checkpoint_seq o compacted
    Saved-compacted none e v = tt
    Saved-compacted (some t) e v =
        let q : t.checkpoint_seq ≡ a.checkpoint_seq = cc in
        record {
          version = v.version;
          above_base = omega arith;
          checkpoint_le = v.checkpoint_le;
          flushed = v.flushed;
          trimmed = v.trimmed;
          messages = rw (after-compacted t.checkpoint_seq (omega arith)) v.messages;
          status = rw (after-compacted t.checkpoint_seq (omega arith)) v.status;
          settings = v.settings;
        }

    pub compacted-IsSound : IsSound to_json compacted
    compacted-IsSound = record {
      base = a.checkpoint_seq;
      log_numbered =
          rw (entries-retained_lines a.checkpoint_seq d.log)
            (Numbered-after c.base _ _ (entries d.log) c.log_numbered c.above_base le);
      queue_numbered = c.queue_numbered;
      above_base = omega arith;
      checkpoint_le = c.checkpoint_le;
      snapshot_le = c.snapshot_le;
      pending = rw (after-compacted a.checkpoint_seq (omega arith)) c.pending;
      status = rw (after-compacted a.checkpoint_seq (omega arith)) c.status;
      saved = Saved-compacted d.snapshot is_saved c.saved;
      finished = ends-retained_lines a.checkpoint_seq d.log;
      clean = c.clean;
    }

    compact-IsSound : IsSound to_json (compact w)
    unfolding compact
    compact-IsSound =
        if_both (λ (x : World V). IsSound to_json x) _
          (compact_events-cases (λ x. IsSound to_json (record w { disk = x })) (All Clean)
            (λ o os q. q.1) a.checkpoint_seq (is_archive a.compaction_mode) d c.clean
            (λ archive os q. IsSound-disk to_json archive os q c)
            (λ archive os q. IsSound-disk to_json archive os q compacted-IsSound))
          c

  -- The snapshot of an actor with an empty queue.
  module _ (now : ℕ) (os : List (Option Failure)) (q : All Clean os) (w : World V)
      (empty : w.actor.pending_events ≡ []) (c : IsSound to_json w) where
    open w use {actor as a, disk as d}

    all_flushed : a.last_flushed_seq ≡ a.last_event_seq
    all_flushed = seq_of_queue a.pending_events empty c.queue_numbered
      where
        seq_of_queue :
            (es : List (SessionEvent V))
            → es ≡ []
            → Numbered a.last_flushed_seq es a.last_event_seq
            → a.last_flushed_seq ≡ a.last_event_seq
        seq_of_queue [] e h = h
        seq_of_queue (x ∷ es) e h = cc

    pub saved-IsSound : IsSound to_json (saved now os w)
    saved-IsSound = record {
      base = c.base;
      log_numbered = c.log_numbered;
      queue_numbered = c.queue_numbered;
      above_base = c.above_base;
      checkpoint_le = c.checkpoint_le;
      snapshot_le = omega arith;
      pending = c.pending;
      status = c.status;
      saved = record {
        version = refl;
        above_base = c.above_base;
        checkpoint_le = omega (arith, c.checkpoint_le, all_flushed);
        flushed = omega arith;
        trimmed = [];
        messages = ap (λ ms. a.checkpointed_messages ++ ms) (sym c.pending);
        status = c.status;
        settings = (refl, refl, refl, refl, refl, refl, refl, refl);
      };
      finished = c.finished;
      clean = q;
    }

    pub compact_saved-IsSound : IsSound to_json (compact (saved now os w))
    compact_saved-IsSound =
        compact-IsSound (snapshot_of now a) (saved now os w) refl refl
          (omega (arith, c.checkpoint_le, all_flushed)) saved-IsSound
