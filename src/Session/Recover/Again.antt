-- ===== src/Session/Recover/Again.antt =====
-- The invariant after `recover_single_session` of crates/duragent/src/session/registry.rs.
use agnx.Session.Journal.{after, entries}
use agnx.Session.Replay.Parts.{status_step, replay_status}
use agnx.Session.Persist.{World}
use agnx.Session.Replay.{replay_payload}
use agnx.Session.Event.{
  SessionSnapshot, completed, SessionStatus, CompactionMode, SessionEventPayload, SessionEvent,
  OnDisconnect,
}
use agnx.Common.{
  ℕ, String, ◌≡◌, refl, sym, ◌∙◌, Option, some, List, [], ◌∷◌, arith, ap, subst, ◌++◌, append-nil,
}
use agnx.Session.Replay.Parts.{messages-replay, status-replay}
use agnx.Session.Recover.{start_replay}
use agnx.Session.Event.{active, paused, running, completed, continue, pause}
use agnx.Session.Consistent.{Saved, IsConsistent}
use agnx.Session.Recover.{recovered_actor, final_status}
use agnx.Session.Recover.Lossless.{
  replayed, outstanding_calls, revived, Saved-Covers, last_seq-replayed,
}

some_eq : {x y : SessionStatus} → some x ≡ some y → x ≡ y
some_eq e = cc

-- A status is recovered as itself or as the one that it was recovered to.
final_status_idem :
    (d : OnDisconnect) (x st : SessionStatus)
    → final_status d x ≡ some st
    → final_status d st ≡ some st
unfolding final_status
final_status_idem d active st e = rw (← some_eq e)
final_status_idem d paused st e = rw (← some_eq e)
final_status_idem continue running st e = rw (← some_eq e)
final_status_idem pause running st e = rw (← some_eq e)
final_status_idem d completed st e = cc

module _ {V : Type 0} (to_json : V → Option String) where
  -- The last change of status decides, if there is one.
  data Effect (es : List (SessionEvent V)) : Type 0 where
    sets : (y : SessionStatus) → ((x : SessionStatus) → replay_status to_json x es ≡ y) → Effect es
    keeps : ((x : SessionStatus) → replay_status to_json x es ≡ x) → Effect es

  data PayloadEffect (p : SessionEventPayload V) : Type 0 where
    sets :
        (y : SessionStatus) → ((x : SessionStatus) → status_step to_json p x ≡ y) → PayloadEffect p
    keeps : ((x : SessionStatus) → status_step to_json p x ≡ x) → PayloadEffect p

  payload_effect : (p : SessionEventPayload V) → PayloadEffect p
  unfolding replay_payload
  payload_effect (SessionEventPayload.status_change _ to) = PayloadEffect.sets to (λ x. refl)
  payload_effect (SessionEventPayload.session_end _) = PayloadEffect.sets completed (λ x. refl)
  payload_effect _ = PayloadEffect.keeps (λ x. refl)

  Effect-cons :
      (e : SessionEvent V) (es : List (SessionEvent V))
      → Effect es
      → PayloadEffect e.payload
      → Effect (e ∷ es)
  Effect-cons e es (Effect.sets y h) k = Effect.sets y (λ x. h _)
  Effect-cons e es (Effect.keeps h) (PayloadEffect.sets y k) = Effect.sets y (λ x. h _ ∙ k x)
  Effect-cons e es (Effect.keeps h) (PayloadEffect.keeps k) = Effect.keeps (λ x. h _ ∙ k x)

  effect : (es : List (SessionEvent V)) → Effect es
  effect [] = Effect.keeps (λ x. refl)
  effect (e ∷ es) = Effect-cons e es (effect es) (payload_effect e.payload)

  replayed_again :
      (d : OnDisconnect) (es : List (SessionEvent V)) (x st : SessionStatus)
      → Effect es
      → final_status d (replay_status to_json x es) ≡ some st
      → final_status d (replay_status to_json st es) ≡ final_status d st
  replayed_again d es x st (Effect.sets y h) e =
      let q : final_status d y ≡ some st = rw (h x) at e in
      rw (h st) (q ∙ sym (final_status_idem d y st q))
  replayed_again d es x st (Effect.keeps h) e = rw (h st)

  -- A session that is recovered from a consistent disk, with no tool call outstanding, is consistent
  -- itself, also where queued events were lost with the process.
  pub recover-IsConsistent :
      (now : ℕ) (mode : CompactionMode) (w : World V) (s : SessionSnapshot V) (st : SessionStatus)
      → IsConsistent to_json w
      → w.disk.snapshot ≡ some s
      → outstanding_calls to_json s w.disk ≡ []
      → final_status s.config.on_disconnect (replayed to_json s w.disk).status ≡ some st
      → IsConsistent to_json
          (record { actor = revived to_json now mode s w.disk st; disk = w.disk })
  unfolding recovered_actor
  recover-IsConsistent now mode w s st c p none_left h =
      let v = Saved-Covers to_json s w.disk.snapshot p c.saved in
      let last = last_seq-replayed to_json s w c v in
      record {
        base = c.base;
        finished = c.finished;
        log_numbered = rw last c.log_numbered;
        queue_numbered = refl;
        above_base = v.above_base;
        checkpoint_le = omega (arith, last, v.checkpoint_le, v.flushed);
        snapshot_le = omega arith;
        pending = rw none_left (
            rw (append-nil (entries w.disk.log), append-nil)
              (sym (messages-replay to_json _ (start_replay s))));
        status =
            replayed_again s.config.on_disconnect
              (after s.checkpoint_seq (entries w.disk.log ++ [])) s.status st (effect _)
              (rw (append-nil (entries w.disk.log)) (
                sym (
                  ap (final_status s.config.on_disconnect)
                    (status-replay to_json _ (start_replay s)))
                ∙ h));
        saved =
            subst
              (λ o.
                Saved to_json c.base o
                  (record { actor = revived to_json now mode s w.disk st; disk = w.disk }))
              (sym p)
              (record {
                version = v.version;
                above_base = v.above_base;
                checkpoint_le = v.checkpoint_le;
                flushed = omega (arith, last, v.flushed);
                trimmed = [];
                messages = rw none_left (
                    rw (append-nil (entries w.disk.log), append-nil)
                      (ap (λ ms. s.conversation ++ ms)
                        (messages-replay to_json _ (start_replay s))));
                status = rw (append-nil (entries w.disk.log)) (
                    sym (
                      ap (final_status s.config.on_disconnect)
                        (status-replay to_json _ (start_replay s)))
                    ∙ h
                    ∙ sym (final_status_idem _ _ st h));
                settings = (refl, refl, refl, refl, refl, refl, rw v.settings.6, rw v.settings.7);
              });
      }
