-- ===== src/Session/Recover/Lossless.antt =====
-- What `recover_single_session` (crates/duragent/src/session/registry.rs) rebuilds from files.
use agnx.Session.Replay.Parts.{messages-replay, status-replay, last_seq-replay}
use agnx.Session.Consistent.{Covers, IsConsistent, Saved}
use agnx.Session.Actor.{all_messages, default_actor_message_limit, default_silent_buffer_cap, Actor}
use agnx.Session.Persist.{World}
use agnx.Session.Journal.{Numbered-after, Numbered, events_after-eq-after, entries, after}
use agnx.Session.Replay.{replay, Replay}
use agnx.Session.Store.{next_outcome, load_events, Disk, load_snapshot}
use agnx.Session.Event.{
  SessionStatus, CompactionMode, replay_from_seq, is_compatible, SessionSnapshot,
}
use agnx.Common.{
  ℕ, String, ◌≡◌, Option, some, [], ok, sym, subst, none, List, ◌++◌, arith, ap, ◌∙◌, append-nil,
  append_assoc,
}
use agnx.Session.Recover.{
  or_else, synthesize, recovered_snapshot, final_status, recovered_actor, without_pending,
  recover_single_session, finish_recovery, start_replay,
}

module _ {V : Type 0} (to_json : V → Option String) where
  -- The events that are replayed.
  abbrev pub replayed : SessionSnapshot V → Disk V → Replay
  replayed s d = replay to_json (start_replay s) (after s.checkpoint_seq (entries d.log))

  recover_readable :
      (now : ℕ) (mode : CompactionMode) (s : SessionSnapshot V) (d : Disk V)
      → s.schema_version ≡ "2"
      → recover_single_session to_json now mode (record d { snapshot = some s; outcomes = [] }) ≡ (
        ok (finish_recovery now mode s (replayed s d)),
        record d { snapshot = some s; outcomes = [] },
      )
  unfolding recover_single_session load_snapshot load_events next_outcome is_compatible
      replay_from_seq
  recover_readable now mode s d v = rw (v, events_after-eq-after)

  -- With a snapshot of the current schema, and files that can be read.
  pub recover_lem :
      (now : ℕ) (mode : CompactionMode) (s : SessionSnapshot V) (d : Disk V)
      → s.schema_version ≡ "2"
      → d.snapshot ≡ some s
      → d.outcomes ≡ []
      → recover_single_session to_json now mode d
        ≡ (ok (finish_recovery now mode s (replayed s d)), d)
  recover_lem now mode s d v p o =
      subst
        (λ x.
          recover_single_session to_json now mode x
          ≡ (ok (finish_recovery now mode s (replayed s d)), x))
        (λ i. record d { snapshot = sym p i; outcomes = sym o i }) (recover_readable now mode s d v)

  -- The calls that get a made-up result.
  abbrev pub outstanding_calls : SessionSnapshot V → Disk V → List String
  outstanding_calls s d = without_pending s.config.pending_approval (replayed s d).outstanding

  -- The actor that a recovery spawns.
  abbrev pub revived : ℕ → CompactionMode → SessionSnapshot V → Disk V → SessionStatus → Actor V
  revived now mode s d st =
      recovered_actor (recovered_snapshot now s (replayed s d).last_seq st)
        ((replayed s d).messages ++ synthesize (outstanding_calls s d))
        (or_else s.config.silent_buffer_cap default_silent_buffer_cap)
        (or_else s.config.actor_message_limit default_actor_message_limit) mode

  pub finish-revived :
      (now : ℕ) (mode : CompactionMode) (s : SessionSnapshot V) (d : Disk V) (st : SessionStatus)
      → final_status s.config.on_disconnect (replayed s d).status ≡ some st
      → finish_recovery now mode s (replayed s d) ≡ some (revived now mode s d st)
  unfolding finish_recovery
  finish-revived now mode s d st e = rw (e, finish_recovery)

  pub Saved-Covers :
      {base : ℕ} {w : World V} (s : SessionSnapshot V) (o : Option (SessionSnapshot V))
      → o ≡ some s
      → Saved to_json base o w
      → Covers to_json base s w
  Saved-Covers s none e v = cc
  Saved-Covers {base} {w} s (some t) e v =
      let q : t ≡ s = cc in subst (λ x. Covers to_json base x w) q v

  module _ (s : SessionSnapshot V) (w : World V) (c : IsConsistent to_json w)
      (v : Covers to_json c.base s w) where
    open w use {actor as a, disk as d}

    replayed-Numbered :
        Numbered s.checkpoint_seq (after s.checkpoint_seq (entries d.log)) a.last_flushed_seq
    replayed-Numbered =
        Numbered-after c.base _ _ (entries d.log) c.log_numbered v.above_base
          (omega (arith, v.checkpoint_le, v.flushed))

    -- The number after the last event of the log is the next one.
    pub last_seq-replayed : (replayed s d).last_seq ≡ a.last_flushed_seq
    last_seq-replayed =
        last_seq-replay to_json s.checkpoint_seq a.last_flushed_seq _ (start_replay s)
          replayed-Numbered (λ e. nothing_new (rw e at replayed-Numbered))
      where
        nothing_new : s.checkpoint_seq ≡ a.last_flushed_seq → s.last_event_seq ≡ a.last_flushed_seq
        nothing_new e = omega (arith, v.checkpoint_le, v.flushed)

    -- A recovery after everything was flushed: no message and no event is lost, and the session
    -- goes on under the next number. What was trimmed from memory after the snapshot comes back.
    pub messages-revived :
        (now : ℕ) (mode : CompactionMode) (st : SessionStatus)
        → a.pending_events ≡ []
        → all_messages (revived now mode s d st)
          ≡ v.trimmed ++ (all_messages a ++ synthesize (outstanding_calls s d))
    unfolding all_messages recovered_actor
    messages-revived now mode st e =
        sym (append_assoc s.conversation (replayed s d).messages _)
        ∙ ap (λ ms. ms ++ synthesize (outstanding_calls s d))
            (ap (λ ms. s.conversation ++ ms) (messages-replay to_json _ (start_replay s))
              ∙ sym (rw (e, append-nil (entries d.log)) at v.messages))
        ∙ append_assoc v.trimmed _ _

    pub status-revived :
        (st : SessionStatus)
        → a.pending_events ≡ []
        → final_status a.on_disconnect a.status ≡ some st
        → final_status s.config.on_disconnect (replayed s d).status ≡ some st
    status-revived st e h =
        rw (v.settings.3, status-replay to_json _ (start_replay s))
          ((rw (e, append-nil (entries d.log)) at v.status) ∙ h)
