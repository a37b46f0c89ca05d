-- ===== src/Gateway/Queue/Tasks.antt =====
-- How the tasks of the program drive the queue of one session: `handle_message` and
-- `drain_queue_after_loop` of crates/duragent/src/gateway/handler.rs.
-- Each action is what one task does while it holds the lock once, so that a list of actions is one
-- interleaving of the tasks. A task is processing from `ProcessNow` to the `Idle` of its drain, or until
-- it is cut off: crates/duragent/src/gateway/manager.rs drops `handle_message` after a timeout.
use agnx.Common.{
  ℕ, ◌+◌, ◌-◌, String, Option, none, some, List, [], ◌∷◌, ◌++◌, ◌==◌, if◌then◌else◌, Bool,
}
use agnx.Gateway.Queue.{
  SessionMessageQueue, QueuedMessage, QueueConfig, EnqueueResult, process_now, DrainResult,
  try_enqueue, drain, new,
}
use agnx.Gateway.Queue.Debounce.{debounce_or_enqueue, take_buffer, combine_messages, push_flushed}
use agnx.Gateway.Queue.Marks.{mark_persisted, mark_steered, clear_steered}

pub record Tasks (V F : Type 0) : Type 0 where
  pub queue : SessionMessageQueue V F
  -- how many tasks process messages of the session
  pub processing : ℕ
  -- what timers have taken from the buffers, between their two sections
  pub flushing : List (QueuedMessage V F)

pub data Action (V F : Type 0) : Type 0 where
  message : QueuedMessage V F → Action V F
  timer : String → Action V F
  flushed : Action V F
  persisted : QueuedMessage V F → Action V F
  steered : QueuedMessage V F → Action V F
  loop_ends : Action V F
  drains : Action V F
  -- the future of a task that processes is dropped, by the timeout of manager.rs, or it panics
  cut_off : Action V F

abbrev pub starts : EnqueueResult → ℕ
starts process_now = 1
starts _ = 0

abbrev pub ends : {V F : Type 0} → DrainResult V F → ℕ
ends DrainResult.idle = 1
ends _ = 0

module _ {V F : Type 0} where
  abbrev pub without_timer :
      {A : Type 0} → (A × Bool) × SessionMessageQueue V F → A × SessionMessageQueue V F
  without_timer ((result, _), q) = (result, q)

  -- `handle_message`: debounced or direct, as the configuration says.
  unfoldable pub enqueue :
      QueuedMessage V F
      → QueueConfig
      → SessionMessageQueue V F
      → EnqueueResult × SessionMessageQueue V F
  enqueue msg config q =
      if config.debounce.enabled
      then without_timer (debounce_or_enqueue msg config q)
      else try_enqueue msg config q

  unfoldable pub take_timer :
      Option (List (QueuedMessage V F)) × SessionMessageQueue V F → Tasks V F → Tasks V F
  take_timer (none, q) s = record s { queue = q }
  take_timer (some messages, q) s = elim (combine_messages messages) [
    | none ↦ record s { queue = q }
    | some combined ↦ record s { queue = q; flushing = s.flushing ++ combined ∷ [] }
  ]

  unfoldable pub push_next : QueueConfig → List (QueuedMessage V F) → Tasks V F → Tasks V F
  push_next config [] s = s
  push_next config (m ∷ ms) s = record s {
    queue = (push_flushed m config s.queue).1;
    flushing = ms;
  }

  unfoldable pub step : QueueConfig → Action V F → Tasks V F → Tasks V F
  step config (Action.message msg) s =
      let (result, q) = enqueue msg config s.queue in
      record s { queue = q; processing = s.processing + starts result }
  step config (Action.timer id) s = take_timer (take_buffer id s.queue) s
  step config Action.flushed s = push_next config s.flushing s
  step config (Action.persisted msg) s = record s { queue = mark_persisted msg s.queue }
  step config (Action.steered msg) s = record s { queue = mark_steered msg s.queue }
  step config Action.loop_ends s =
      if s.processing == 0 then s else record s { queue = clear_steered s.queue }
  step config Action.drains s =
      if s.processing == 0
      then s
      else let (result, q) = drain config s.queue in
        record s { queue = q; processing = s.processing - ends result }
  step config Action.cut_off s = record s { processing = s.processing - 1 }

  unfoldable pub run : QueueConfig → List (Action V F) → Tasks V F → Tasks V F
  run config [] s = s
  run config (a ∷ as_) s = run config as_ (step config a s)

  abbrev pub no_tasks : Tasks V F
  no_tasks = record { queue = new; processing = 0; flushing = [] }
