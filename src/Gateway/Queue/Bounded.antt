-- ===== src/Gateway/Queue/Bounded.antt =====
-- The size of the queue (crates/duragent/src/gateway/queue.rs) through interleavings of the tasks.
use agnx.Gateway.Queue.{
  SessionMessageQueue, QueuedMessage, QueueConfig, EnqueueResult, drain, usize_max,
}
use agnx.Gateway.Queue.Debounce.{take_buffer, combine_messages}
use agnx.Gateway.Queue.Marks.{mark, mark_persisted, mark_steered}
use agnx.Gateway.Queue.Tasks.{ends, Tasks, Action, enqueue, take_timer, step, run, push_next}
use agnx.Gateway.Queue.Capacity.{
  Fits, FitsWith, buffered, try_enqueue-Fits, debounce-Fits, take_buffer-Fits, push_flushed-Fits,
  drain-Fits, mark-Fits, clear_steered-Fits,
}
use agnx.Common.{
  if_both, Option-cases, ◌+◌, ◌-◌, ◌<◌, ◌≡◌, refl, inl, inr, Option, none, some, List, [], ◌∷◌,
  arith, ◌==◌, length,
}

module _ {V F : Type 0} where
  enqueue-Fits :
      (config : QueueConfig) (m : QueuedMessage V F) (q : SessionMessageQueue V F)
      → buffered q.debounce_buffers < usize_max
      → Fits config q
      → FitsWith config (buffered q.debounce_buffers + 1) (enqueue m config q).1
  unfolding enqueue
  enqueue-Fits config m q r h =
      if_both
        (λ (x : EnqueueResult × SessionMessageQueue V F).
          FitsWith config (buffered q.debounce_buffers + 1) x.1)
        config.debounce.enabled (debounce-Fits config m q r h) (try_enqueue-Fits config m q h)

  queue-take_timer :
      (r : Option (List (QueuedMessage V F)) × SessionMessageQueue V F) (s : Tasks V F)
      → (take_timer r s).queue ≡ r.1
  unfolding take_timer
  queue-take_timer (none, q) s = refl
  queue-take_timer (some ms, q) s = elim (Option-cases (combine_messages ms)) [
    | inl e ↦ rw (e, take_timer)
    | inr (_, e) ↦ rw (e, take_timer)
  ]

  push_next-Fits :
      (config : QueueConfig) (ms : List (QueuedMessage V F)) (s : Tasks V F)
      → Fits config s.queue
      → FitsWith config (buffered s.queue.debounce_buffers + 1) (push_next config ms s).queue
  unfolding push_next
  push_next-Fits config [] s h = (h, omega arith)
  push_next-Fits config (m ∷ ms) s h =
      let (f, e) = push_flushed-Fits config m s.queue h in (f, omega (arith, e))

  mark_step :
      (config : QueueConfig) (f : QueuedMessage V F → QueuedMessage V F)
      (q : SessionMessageQueue V F)
      → Fits config q
      → FitsWith config (buffered q.debounce_buffers + 1) (mark f q)
  mark_step config f q h = let (k, e) = mark-Fits config f q h in (k, omega (arith, e))

  -- A step keeps the bounds and buffers at most one message more.
  step-Fits :
      (config : QueueConfig) (a : Action V F) (s : Tasks V F)
      → buffered s.queue.debounce_buffers < usize_max
      → Fits config s.queue
      → FitsWith config (buffered s.queue.debounce_buffers + 1) (step config a s).queue
  unfolding step mark_persisted mark_steered
  step-Fits config (Action.message m) s r h = enqueue-Fits config m s.queue r h
  step-Fits config (Action.timer id) s r h =
      let (f, n) = take_buffer-Fits config id s.queue h in
      rw (queue-take_timer (take_buffer id s.queue) s) (f, omega (arith, n))
  step-Fits config Action.flushed s r h = push_next-Fits config s.flushing s h
  step-Fits config (Action.persisted m) s r h = mark_step config _ s.queue h
  step-Fits config (Action.steered m) s r h = mark_step config _ s.queue h
  step-Fits config Action.loop_ends s r h =
      let (f, n) = clear_steered-Fits config s.queue r h in
      if_both (λ (x : Tasks V F). FitsWith config (buffered s.queue.debounce_buffers + 1) x.queue) _
        (h, omega arith) (f, omega (arith, n))
  step-Fits config Action.cut_off s r h = (h, omega arith)
  step-Fits config Action.drains s r h =
      let (f, e) = drain-Fits config s.queue h in
      if_both (λ (x : Tasks V F). FitsWith config (buffered s.queue.debounce_buffers + 1) x.queue)
        (s.processing == 0) {x = s}
        {y = record s {
          queue = (drain config s.queue).1;
          processing = s.processing - ends (drain config s.queue).0;
        }}
        (h, omega arith) (f, omega (arith, e))

  -- If the queue fits at first, and the buffered messages and the actions are fewer than 2 ^ 64
  -- - 1 together, then every interleaving keeps the pending messages within the configured
  -- limit, or within 1 if the limit is 0, and the counter of buffered messages exact.
  pub run-Fits :
      (config : QueueConfig) (as_ : List (Action V F)) (s : Tasks V F)
      → buffered s.queue.debounce_buffers + length as_ < usize_max
      → Fits config s.queue
      → Fits config (run config as_ s).queue
  unfolding run
  run-Fits config [] s r h = h
  run-Fits config (a ∷ as_) s r h =
      let (f, n) = step-Fits config a s (omega (arith, r)) h in
      run-Fits config as_ (step config a s) (omega (arith, r, n)) f
