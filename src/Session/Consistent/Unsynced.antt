-- ===== src/Session/Consistent/Unsynced.antt =====
-- What a failed sync leaves (crates/duragent/src/store/file/session.rs and
-- crates/duragent/src/session/actor.rs).
use agnx.Common.{
  sym, subst, ap, ℕ, suc, ◌≤◌, ◌≡◌, refl, false, Option, some, List, [], ◌∷◌, ◌++◌, map, arith,
  length, err, is_empty,
}
use agnx.Session.Event.{SessionEvent}
use agnx.Session.Persist.{World, flush_events, after_append, persistence}
use agnx.Session.Store.{Line, Failure, entry, append_events, next_outcome}
use agnx.Session.Store.Finished.{ends_unfinished, write_lines-append, partial_all}
use agnx.Session.Consistent.Flush.{requeue-nil}

module _ {V : Type 0} where
  length-map-entry : (es : List (SessionEvent V)) → length (map {B = Line V} entry es) ≡ length es
  length-map-entry [] = refl
  length-map-entry (e ∷ es) = ap suc (length-map-entry es)

  failed_flush :
      (now : ℕ) (w : World V) (es : List (SessionEvent V)) (f : Failure)
      (os : List (Option Failure))
      → is_empty es ≡ false
      → length es ≤ f.whole
      → ends_unfinished w.disk.log ≡ false
      → flush_events now (record {
        actor = record w.actor { pending_events = es };
        disk = record w.disk { outcomes = some f ∷ os };
      })
        ≡ (
          err (persistence f.message),
          record {
            actor = record w.actor { pending_events = es };
            disk = record w.disk { log = w.disk.log ++ map entry es; outcomes = os };
          },
        )
  unfolding flush_events append_events next_outcome after_append
  failed_flush now w [] f os n l h = absurd (ground (arith, n))
  failed_flush now w (e ∷ es) f os n l h =
      rw
        (
          requeue-nil (e ∷ es),
          partial_all f (map entry (e ∷ es)) (rw (length-map-entry (e ∷ es)) l),
          write_lines-append w.disk.log (map entry (e ∷ es)) h,
        )
        refl

  -- When the sync behind an append fails, with the events already written, the flush says so, the log
  -- has the events, and they are queued as before: the next append writes them a second time.
  flush_events-unsynced :
      (now : ℕ) (w : World V) (f : Failure) (os : List (Option Failure))
      → w.disk.outcomes ≡ some f ∷ os
      → is_empty w.actor.pending_events ≡ false
      → length w.actor.pending_events ≤ f.whole
      → ends_unfinished w.disk.log ≡ false
      → flush_events now w ≡ (
        err (persistence f.message),
        record w {
          disk = record w.disk {
            log = w.disk.log ++ map entry w.actor.pending_events;
            outcomes = os;
          };
        },
      )
  flush_events-unsynced now w f os o n l h =
      subst
        (λ (x : List (Option Failure)).
          flush_events now (record w { disk = record w.disk { outcomes = x } }) ≡ (
            err (persistence f.message),
            record w {
              disk = record w.disk {
                log = w.disk.log ++ map entry w.actor.pending_events;
                outcomes = os;
              };
            },
          ))
        (sym o) (failed_flush now w w.actor.pending_events f os n l h)
