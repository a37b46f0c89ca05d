-- ===== src/Gateway/Queue.antt =====
-- The message queue of a session: crates/duragent/src/gateway/queue.rs, with its configuration
-- from crates/duragent-types/src/agent/access.rs.
-- Each function is one section under the queue's lock. A `HashMap` is a list of pairs without two
-- equal keys; `wake` is the permit that `Notify::notify_one` stores.
pub mod Debounce
pub mod Marks
pub mod Tasks
pub mod Exclusive
pub mod Capacity
pub mod Bounded
pub mod Order
mod Tests
use agnx.Common.{
  Option, drop as list_drop, is_empty, ℕ, ◌+◌, ◌-◌, ◌^◌, min, String, Bool, true, false, not, List,
  [], ◌∷◌, ◌++◌, leb, if◌then◌else◌, length,
}
use agnx.Gateway.Protocol.{MessageReceivedData}

pub data QueueMode : Type 0 where
  batch : QueueMode
  sequential : QueueMode
  drop : QueueMode

pub data OverflowStrategy : Type 0 where
  drop_old : OverflowStrategy
  drop_new : OverflowStrategy
  reject : OverflowStrategy

pub record DebounceConfig : Type 0 where
  pub enabled : Bool
  pub window_ms : ℕ

pub record QueueConfig : Type 0 where
  pub mode : QueueMode
  pub max_pending : ℕ
  pub overflow : OverflowStrategy
  pub reject_message : Option String
  pub debounce : DebounceConfig

pub record QueuedMessage (V F : Type 0) : Type 0 where
  pub gateway : String
  pub data_ : MessageReceivedData V F
  pub enqueued_at : ℕ
  pub persisted : Bool
  pub steered : Bool

pub data EnqueueResult : Type 0 where
  process_now : EnqueueResult
  queued : EnqueueResult
  debounced : EnqueueResult
  dropped_new : EnqueueResult
  rejected : EnqueueResult

pub data DrainResult (V F : Type 0) : Type 0 where
  idle : DrainResult V F
  batched : List (QueuedMessage V F) → DrainResult V F
  sequential : QueuedMessage V F → DrainResult V F

pub record SessionMessageQueue (V F : Type 0) : Type 0 where
  pub busy : Bool
  pub pending : List (QueuedMessage V F)
  pub debounce_buffers : List (String × List (QueuedMessage V F))
  pub debounce_buffered : ℕ
  pub wake : Bool

abbrev pub usize_max : ℕ
usize_max = 2 ^ 64 - 1

abbrev pub saturating_add : ℕ → ℕ → ℕ
saturating_add a b = min (a + b) usize_max

abbrev pub Buffers : Type 0 → Type 0 → Type 0
Buffers V F = List (String × List (QueuedMessage V F))

module _ {V F : Type 0} where
  pub new : SessionMessageQueue V F
  new = record {
    busy = false;
    pending = [];
    debounce_buffers = [];
    debounce_buffered = 0;
    wake = false;
  }

  -- `pop_front`, `push_back`
  pub push_overflow :
      QueueConfig
      → QueuedMessage V F
      → List (QueuedMessage V F)
      → EnqueueResult × List (QueuedMessage V F)
  push_overflow config msg pending =
      if leb config.max_pending (length pending)
      then elim config.overflow [
        | drop_old ↦ (queued, list_drop 1 pending ++ msg ∷ [])
        | drop_new ↦ (dropped_new, pending)
        | reject ↦ (rejected, pending)
      ]
      else (queued, pending ++ msg ∷ [])

  pub try_enqueue :
      QueuedMessage V F
      → QueueConfig
      → SessionMessageQueue V F
      → EnqueueResult × SessionMessageQueue V F
  try_enqueue msg config q =
      if not q.busy
      then (process_now, record q { busy = true })
      else let (result, pending) = push_overflow config msg q.pending in
        (result, record q { pending = pending })

  pub drain : QueueConfig → SessionMessageQueue V F → DrainResult V F × SessionMessageQueue V F
  drain config q = elim config.mode [
    | batch ↦
        if is_empty q.pending
        then (DrainResult.idle, record q { busy = false })
        else (DrainResult.batched q.pending, record q { pending = [] })
    | QueueMode.sequential ↦ elim q.pending [
      | msg ∷ rest ↦ (DrainResult.sequential msg, record q { pending = rest })
      | [] ↦ (DrainResult.idle, record q { busy = false })
    ]
    | QueueMode.drop ↦ (DrainResult.idle, record q { pending = []; busy = false })
  ]

  pub clear : SessionMessageQueue V F → SessionMessageQueue V F
  clear q = record q { pending = []; busy = false }

  pub mark_idle : SessionMessageQueue V F → SessionMessageQueue V F
  mark_idle q = record q { busy = false }

  -- `notified()` returns at once if a permit is stored.
  pub wait_for_wake : SessionMessageQueue V F → Bool × SessionMessageQueue V F
  wait_for_wake q = (q.wake, record q { wake = false })
