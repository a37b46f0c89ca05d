-- ===== src/Session/Persist.antt =====
-- The actor beside its files: the operations of crates/duragent/src/session/actor.rs that write.
-- Each returns what the caller is told and the new state; `?` of the source is `◌>>=◌`.
use agnx.Common.{
  ℕ, ◌-◌, String, Bool, true, false, Option, none, some, List, [], ◌∷◌, foldl, reverse, not, ◌&&◌,
  ltb, leb, is_empty, last?, if◌then◌else◌, Result, ok, err,
}
use agnx.Session.Event.{
  SessionStatus, CompactionMode, archive, disabled, PendingApproval, SessionEvent,
  SessionEventPayload, SessionSnapshot, Usage, new_snapshot, active, paused, running, completed,
}
use agnx.Session.Store.{Disk, append_events, save_snapshot, compact_events}
use agnx.Session.Actor.{Actor, queue_event, add_assistant_response, snapshot_interval}

pub data ActorError : Type 0 where
  actor_shutdown actor_timeout : ActorError
  not_found persistence : String → ActorError

pub record World (V : Type 0) : Type 0 where
  pub actor : Actor V
  pub disk : Disk V

abbrev pub Exec : Type 0 → Type 0 → Type 0
Exec V A = World V → Result A ActorError × World V

module _ {V A B : Type 0} where
  abbrev pub proceed :
      Result A ActorError → (A → Exec V B) → World V → Result B ActorError × World V
  proceed (ok a) f w = f a w
  proceed (err e) f w = (err e, w)

  infixl 5 ◌>>=◌ ◌>>◌
  abbrev pub ◌>>=◌ : Exec V A → (A → Exec V B) → Exec V B
  ◌>>=◌ m f w = let (r, w') = m w in proceed r f w'

  abbrev pub ◌>>◌ : Exec V A → Exec V B → Exec V B
  m >> n = m >>= λ _. n

-- The tests `self.status != status` and `==` of the enums.
abbrev pub same_status : SessionStatus → SessionStatus → Bool
same_status active active = true
same_status paused paused = true
same_status running running = true
same_status completed completed = true
same_status _ _ = false

abbrev pub is_archive : CompactionMode → Bool
is_archive archive = true
is_archive _ = false

abbrev pub is_disabled : CompactionMode → Bool
is_disabled disabled = true
is_disabled _ = false

abbrev is_some : {A : Type 0} → Option A → Bool
is_some (some a) = true
is_some none = false

module _ {V : Type 0} where
  abbrev pub pure : {A : Type 0} → A → Exec V A
  pure a w = (ok a, w)

  -- A change of the actor alone.
  abbrev pub modify : (Actor V → Actor V) → Exec V Unit
  modify f w = (ok tt, record w { actor = f w.actor })

  abbrev pub seq_of_last : ℕ → Option (SessionEvent V) → ℕ
  seq_of_last seq none = seq
  seq_of_last seq (some e) = e.seq

  -- The failed events are pushed to the front of the queue, the last one first.
  unfoldable pub requeue : List (SessionEvent V) → List (SessionEvent V) → List (SessionEvent V)
  requeue events queue = foldl (λ q e. e ∷ q) queue (reverse events)

  abbrev pub snapshot_of : ℕ → Actor V → SessionSnapshot V
  snapshot_of now a =
      new_snapshot now a.id a.agent a.status a.created_at
        (record {
          last_event_seq = a.last_flushed_seq;
          checkpoint_seq = a.checkpoint_seq;
          conversation = a.checkpointed_messages;
        })
        (record {
          on_disconnect = a.on_disconnect;
          gateway = a.gateway;
          gateway_chat_id = a.gateway_chat_id;
          pending_approval = a.pending_approval;
          silent_buffer_cap = some a.silent_buffer_cap;
          actor_message_limit = some a.message_limit;
        })

  -- A failure to compact is logged only.
  unfoldable pub compact : World V → World V
  compact w =
      let a = w.actor in
      if ltb 0 a.checkpoint_seq && not (is_disabled a.compaction_mode)
      then record w {
        disk = (compact_events a.checkpoint_seq (is_archive a.compaction_mode) w.disk).1;
      }
      else w

  unfoldable pub after_save : Result Unit String → Exec V Unit
  after_save (err e) w = (err (persistence e), w)
  after_save (ok _) w = (
    ok tt,
    compact (record w { actor = record w.actor { last_snapshot_seq = w.actor.last_flushed_seq } }),
  )

  unfoldable pub write_snapshot : ℕ → Exec V Unit
  write_snapshot now w =
      let (r, d) = save_snapshot (snapshot_of now w.actor) w.disk in
      after_save r (record w { disk = d })

  unfoldable pub after_append : ℕ → List (SessionEvent V) → Result Unit String → Exec V Unit
  after_append now events (err e) w = (
    err (persistence e),
    record w { actor = record w.actor { pending_events = requeue events w.actor.pending_events } },
  )
  after_append now events (ok _) w =
      let a = w.actor in
      let last_seq = seq_of_last a.last_flushed_seq (last? events) in
      let w' : World V = record w { actor = record a { last_flushed_seq = last_seq } } in
      if leb snapshot_interval (last_seq - a.last_snapshot_seq)
      then write_snapshot now w'
      else (ok tt, w')

  unfoldable pub flush_events : ℕ → Exec V Unit
  flush_events now w =
      let events = w.actor.pending_events in
      let (r, d) = append_events events w.disk in
      if is_empty events
      then (ok tt, w)
      else after_append now events r
          (record { actor = record w.actor { pending_events = [] }; disk = d })

  unfoldable pub flush_and_snapshot : ℕ → Exec V Unit
  flush_and_snapshot now = flush_events now >> write_snapshot now

  unfoldable pub write_session_start : ℕ → World V → World V
  write_session_start now w =
      let a = w.actor in
      let event =
        SessionEventPayload.session_start a.agent a.on_disconnect a.gateway a.gateway_chat_id in
      (flush_and_snapshot now
        (record w { actor = record (queue_event now event a) { updated_at = a.updated_at } })).1

  unfoldable pub set_pending_approval : ℕ → PendingApproval V → Exec V Unit
  set_pending_approval now pending = do
    modify (λ a. record a { updated_at = now; pending_approval = some pending })
    flush_and_snapshot now

  unfoldable pub clear_pending_approval : ℕ → Exec V Unit
  clear_pending_approval now w =
      let cleared : Actor V = record w.actor { updated_at = now; pending_approval = none } in
      if is_some w.actor.pending_approval
      then flush_and_snapshot now (record w { actor = cleared })
      else (ok tt, w)

  unfoldable pub set_status : ℕ → SessionStatus → Exec V Unit
  set_status now status w =
      let a = w.actor in
      if same_status a.status status
      then (ok tt, w)
      else flush_and_snapshot now (record w {
        actor =
            queue_event now (SessionEventPayload.status_change a.status status)
              (record a { status = status });
      })

  unfoldable pub finalize_stream : (V → Option String) → ℕ → String → Option Usage → Exec V ℕ
  finalize_stream to_json now content usage w =
      let a = add_assistant_response to_json now content [] usage w.actor in
      (flush_and_snapshot now >>= λ _. pure a.last_event_seq) (record w { actor = a })
