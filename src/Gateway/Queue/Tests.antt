-- ===== src/Gateway/Queue/Tests.antt =====
-- crates/duragent/src/gateway/queue.rs at concrete messages.
use agnx.Common.{true, ◌≢◌, ◌<◌, String, ◌≡◌, refl, false, none, List, [], ◌∷◌, arith, length, ◌++◌}
use agnx.Gateway.Protocol.{text}
use agnx.Gateway.Queue.Order.{Call, calls_handed, calls_queue, calls_accepted, calls_in_order}
use agnx.Gateway.Queue.{
  try_enqueue, OverflowStrategy, QueuedMessage, QueueConfig, QueueMode, drop_old, new, drain,
  push_overflow, usize_max,
}
use agnx.Gateway.Queue.Debounce.{
  take_buffer, combine_messages, debounce_or_enqueue, contains_key, push_buffer, buffer_of,
  remove_buffer, push_flushed, notify,
}
use agnx.Gateway.Queue.Tasks.{Tasks, Action, enqueue, take_timer, step, run, push_next, no_tasks}
use agnx.Gateway.Queue.Capacity.{Fits}
use agnx.Gateway.Queue.Bounded.{run-Fits}
use agnx.Gateway.Queue.Exclusive.{IsExclusive, run-IsExclusive}

abbrev config : QueueConfig
config = record {
  mode = QueueMode.batch;
  max_pending = 0;
  overflow = drop_old;
  reject_message = none;
  debounce = record { enabled = true; window_ms = 1500 };
}

abbrev hello : String → QueuedMessage Unit Unit
hello id = record {
  gateway = "telegram";
  data_ = record {
    message_id = id;
    chat_id = "c";
    sender = record { id = "ann"; username = none; display_name = none };
    content = text "hello";
    routing = record {
      channel = "telegram";
      chat_type = "dm";
      chat_id = "c";
      sender_id = "ann";
      extra = [];
    };
    reply_to = none;
    mentions_bot = false;
    reply_to_bot = false;
    timestamp = none;
    metadata = tt;
  };
  enqueued_at = 0;
  persisted = false;
  steered = false;
}

abbrev actions : List (Action Unit Unit)
actions =
    Action.message (hello "1")
    ∷ Action.message (hello "2")
    ∷ Action.drains
    ∷ Action.timer "ann"
    ∷ Action.flushed
    ∷ Action.cut_off
    ∷ []

-- The timer of the second message fires after the task has gone.
abbrev stranded : Tasks Unit Unit
stranded = run config actions no_tasks

stranded_is_pending : (length stranded.queue.pending ≡ 1) × (stranded.processing ≡ 0)
unfolding run step enqueue debounce_or_enqueue contains_key push_buffer drain take_timer take_buffer
    buffer_of remove_buffer combine_messages push_next push_flushed push_overflow notify new
stranded_is_pending = (refl, refl)

no_tasks-Fits : Fits {V = Unit} {F = Unit} config new
unfolding new
no_tasks-Fits = record { pending = omega arith; counted = refl }

none_processes : IsExclusive {V = Unit} {F = Unit} no_tasks
unfolding new
none_processes = omega arith

run-IsExclusive_example : IsExclusive (run config actions no_tasks)
run-IsExclusive_example = run-IsExclusive config actions no_tasks none_processes

six_fit : 6 < usize_max
six_fit = omega arith

run-Fits_example : Fits config (run config actions no_tasks).queue
unfolding new
run-Fits_example = run-Fits config actions no_tasks six_fit no_tasks-Fits

abbrev begun : Tasks Unit Unit
begun = run config (Action.message (hello "1") ∷ []) no_tasks

abbrev rejecting : QueueConfig
rejecting = record config { max_pending = 2; overflow = OverflowStrategy.reject }

abbrev calls : List (Call Unit Unit)
calls =
    Call.enqueues (hello "1")
    ∷ Call.enqueues (hello "2")
    ∷ Call.enqueues (hello "3")
    ∷ Call.drains
    ∷ Call.drains
    ∷ []

batch_is_no_drop : rejecting.mode ≢ QueueMode.drop
batch_is_no_drop e = ground (arith, e)

reject_keeps : rejecting.overflow ≢ OverflowStrategy.drop_old
reject_keeps e = ground (arith, e)

calls_in_order_example :
    calls_handed rejecting calls new ++ (calls_queue rejecting calls new).pending
    ≡ new.pending ++ calls_accepted rejecting calls new
calls_in_order_example = calls_in_order rejecting calls new batch_is_no_drop reject_keeps

second_and_third_are_handed : calls_handed rejecting calls new ≡ hello "2" ∷ hello "3" ∷ []
unfolding calls_handed try_enqueue push_overflow drain new
second_and_third_are_handed = refl
