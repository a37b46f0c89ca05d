-- ===== src/Session/Consistent/Writes.antt =====
-- The invariant in `write_snapshot`, `flush_events` and `flush_and_snapshot` of
-- crates/duragent/src/session/actor.rs, whichever calls of the file
-- system fail, if a failed append has written nothing.
use agnx.Session.Journal.{seq_of_last-Numbered}
use agnx.Session.Event.{SessionEvent}
use agnx.Session.Store.Cases.{compact_events-cases}
use agnx.Session.Store.{Failure, write_lines, append_events, entry, next_outcome, save_snapshot}
use agnx.Session.Persist.{
  flush_and_snapshot, proceed, flush_events, after_append, after_save, is_archive, snapshot_of,
  write_snapshot, World, ActorError, compact,
}
use agnx.Session.Store.Finished.{Clean, write_lines-append, write_lines-partial}
use agnx.Common.{
  All, if_both, ℕ, String, ◌≡◌, refl, Option, none, some, List, [], ◌∷◌, Result, ok, map, err,
}
use agnx.Session.Consistent.{IsSound, IsConsistent, IsSound-join, IsConsistent-forget}
use agnx.Session.Consistent.Flush.{flushed-IsSound, requeue-nil, IsSound-disk}
use agnx.Session.Consistent.Snapshot.{compact_saved-IsSound, saved}

module _ {V : Type 0} where
  -- Compaction touches neither the actor nor the snapshot.
  pub actor-compact : (w : World V) → (compact w).actor ≡ w.actor
  unfolding compact
  actor-compact w = if_both (λ (x : World V). x.actor ≡ w.actor) _ refl refl

  pub snapshot-compact : (w : World V) → (compact w).disk.snapshot ≡ w.disk.snapshot
  unfolding compact
  snapshot-compact w =
      if_both (λ (x : World V). x.disk.snapshot ≡ w.disk.snapshot) _
        (compact_events-cases (λ x. x.snapshot ≡ w.disk.snapshot) (λ os. Unit) (λ o os q. tt)
          w.actor.checkpoint_seq (is_archive w.actor.compaction_mode) w.disk tt (λ _ _ _. refl)
          (λ _ _ _. refl))
        refl

module _ {V : Type 0} (to_json : V → Option String) where
  -- The queue is empty if the operation succeeded.
  abbrev pub Flushes : Result Unit ActorError × World V → Type 0
  Flushes r = IsSound to_json r.1 × (r.0 ≡ ok tt → r.1.actor.pending_events ≡ [])

  -- What the snapshot and the queue are after a success.
  abbrev Done : ℕ → Result Unit ActorError × World V → Type 0
  Done now r =
      r.0 ≡ ok tt
      → (r.1.actor.pending_events ≡ []) × (r.1.disk.snapshot ≡ some (snapshot_of now r.1.actor))

  abbrev pub SoundSnapshots : ℕ → Result Unit ActorError × World V → Type 0
  SoundSnapshots now r = IsSound to_json r.1 × Done now r

  -- The disk has the snapshot of the actor, and nothing is queued.
  abbrev pub Snapshots : ℕ → Result Unit ActorError × World V → Type 0
  Snapshots now r = IsConsistent to_json r.1 × Done now r

  abbrev at : World V → List (Option Failure) → World V
  at w os = record w { disk = record w.disk { outcomes = os } }

  saved-Snapshots :
      (now : ℕ) (w : World V) (os : List (Option Failure))
      → All Clean os
      → w.actor.pending_events ≡ []
      → IsSound to_json w
      → SoundSnapshots now (ok tt, compact (saved now os w))
  saved-Snapshots now w os q e c = (
    compact_saved-IsSound to_json now os q w e c,
    λ _. (
      rw (actor-compact (saved now os w)) e,
      rw (actor-compact (saved now os w)) (snapshot-compact (saved now os w)),
    ),
  )

  write_outcomes :
      (now : ℕ) (w : World V) (os : List (Option Failure))
      → All Clean os
      → w.actor.pending_events ≡ []
      → IsSound to_json w
      → SoundSnapshots now (write_snapshot now (at w os))
  unfolding write_snapshot save_snapshot next_outcome after_save
  write_outcomes now w [] q e c = saved-Snapshots now w [] q e c
  write_outcomes now w (none ∷ os) q e c = saved-Snapshots now w os q.1 e c
  write_outcomes now w (some m ∷ os) q e c = (IsSound-disk to_json w.disk.archive os q.1 c, λ r. cc)

  pub write_snapshot-Snapshots :
      (now : ℕ) (w : World V)
      → w.actor.pending_events ≡ []
      → IsSound to_json w
      → SoundSnapshots now (write_snapshot now w)
  write_snapshot-Snapshots now w e c = write_outcomes now w w.disk.outcomes c.clean e c

  abbrev queue : World V → List (SessionEvent V) → World V
  queue w es = record w { actor = record w.actor { pending_events = es } }

  flush_success :
      (now : ℕ) (w : World V) (e : SessionEvent V) (es : List (SessionEvent V))
      (os : List (Option Failure))
      → All Clean os
      → IsSound to_json (queue w (e ∷ es))
      → Flushes (
          after_append now (e ∷ es) (ok tt) (record {
            actor = record w.actor { pending_events = [] };
            disk = record w.disk {
              log = write_lines w.disk.log (map entry (e ∷ es));
              outcomes = os;
            };
          }))
  unfolding after_append
  flush_success now w e es os q c =
      rw
        (
          seq_of_last-Numbered w.actor.last_flushed_seq w.actor.last_event_seq
              w.actor.last_flushed_seq e es c.queue_numbered,
          write_lines-append w.disk.log (map entry (e ∷ es)) c.finished,
        )
        (let f = IsSound-disk to_json w.disk.archive os q (flushed-IsSound to_json _ c) in
          let s = write_snapshot-Snapshots now _ refl f in
          if_both Flushes _ (s.0, λ r. (s.1 r).0) (f, λ _. refl))

  flush_outcomes :
      (now : ℕ) (w : World V) (es : List (SessionEvent V)) (os : List (Option Failure))
      → All Clean os
      → IsSound to_json (queue w es)
      → Flushes (flush_events now (at (queue w es) os))
  unfolding flush_events append_events next_outcome
  flush_outcomes now w [] os q c = (IsSound-disk to_json w.disk.archive os q c, λ _. refl)
  flush_outcomes now w (e ∷ es) [] q c = flush_success now w e es [] q c
  flush_outcomes now w (e ∷ es) (none ∷ os) q c = flush_success now w e es os q.1 c
  flush_outcomes now w (e ∷ es) (some f ∷ os) q c =
      unfold after_append in
      rw (requeue-nil (e ∷ es), write_lines-partial f w.disk.log (map entry (e ∷ es)) q.0)
        (IsSound-disk to_json w.disk.archive os q.1 c, λ r. cc)

  pub flush_events-Flushes :
      (now : ℕ) (w : World V) → IsSound to_json w → Flushes (flush_events now w)
  flush_events-Flushes now w c =
      flush_outcomes now w w.actor.pending_events w.disk.outcomes c.clean c

  proceed-Snapshots :
      (now : ℕ) (r : Result Unit ActorError) (w : World V)
      → Flushes (r, w)
      → SoundSnapshots now (proceed r (λ _. write_snapshot now) w)
  proceed-Snapshots now (ok tt) w f = write_snapshot-Snapshots now w (f.1 refl) f.0
  proceed-Snapshots now (err e) w f = (f.0, λ r. cc)

  pub flush_and_snapshot-SoundSnapshots :
      (now : ℕ) (w : World V) → IsSound to_json w → SoundSnapshots now (flush_and_snapshot now w)
  unfolding flush_and_snapshot
  flush_and_snapshot-SoundSnapshots now w c =
      let (r, w') = flush_events now w in proceed-Snapshots now r w' (flush_events-Flushes now w c)

  -- If no append that fails has written anything, then flushing and writing a snapshot keeps a
  -- consistent session consistent, whichever of the calls of the file system fail, and after a success
  -- no event is queued and the snapshot on disk is that of the actor.
  pub flush_and_snapshot-Snapshots :
      (now : ℕ) (w : World V)
      → All Clean w.disk.outcomes
      → IsConsistent to_json w
      → Snapshots now (flush_and_snapshot now w)
  flush_and_snapshot-Snapshots now w q c =
      let (k, d) = flush_and_snapshot-SoundSnapshots now w (IsSound-join to_json w q c) in
      (IsConsistent-forget to_json k, d)
