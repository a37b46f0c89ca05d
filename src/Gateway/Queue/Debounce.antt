-- ===== src/Gateway/Queue/Debounce.antt =====
-- Debouncing in the message queue: crates/duragent/src/gateway/queue.rs.
-- `flush_debounce` holds the lock twice; `take_buffer` and `push_flushed` are its two sections.
use agnx.Common.{
  str_append, ◌-◌, String, Bool, true, false, not, ◌&&◌, ◌||◌, Option, none, some, List, [], ◌∷◌,
  ◌++◌, str_eq, if◌then◌else◌, length,
}
use agnx.Gateway.Protocol.{MessageReceivedData, text, media}
use agnx.Gateway.Queue.{
  saturating_add, Buffers, SessionMessageQueue, QueuedMessage, QueueConfig, EnqueueResult,
  process_now, queued, debounced, push_overflow,
}

-- `None` reads as the empty text in `combine_messages`.
abbrev pub or_empty : Option String → String
or_empty none = ""
or_empty (some t) = t

unfoldable pub push_text : String → Option String → String
push_text s none = s
push_text s (some t) = str_append (str_append s "\n") t

module _ {V F : Type 0} where
  unfoldable pub contains_key : String → Buffers V F → Bool
  contains_key id [] = false
  contains_key id ((k, b) ∷ bs) = str_eq k id || contains_key id bs

  -- `entry(sender_id).or_default().push(msg)`
  unfoldable pub push_buffer : String → QueuedMessage V F → Buffers V F → Buffers V F
  push_buffer id msg [] = (id, msg ∷ []) ∷ []
  push_buffer id msg ((k, b) ∷ bs) =
      if str_eq k id then (k, b ++ msg ∷ []) ∷ bs else (k, b) ∷ push_buffer id msg bs

  unfoldable pub debounce_or_enqueue :
      QueuedMessage V F
      → QueueConfig
      → SessionMessageQueue V F
      → (EnqueueResult × Bool) × SessionMessageQueue V F
  debounce_or_enqueue msg config q =
      let sender_id = msg.data_.sender.id in
      if not q.busy && not (contains_key sender_id q.debounce_buffers)
      then ((process_now, false), record q { busy = true })
      else (
        (debounced, not (contains_key sender_id q.debounce_buffers)),
        record q {
          debounce_buffers = push_buffer sender_id msg q.debounce_buffers;
          debounce_buffered = saturating_add q.debounce_buffered 1;
        },
      )

  -- `HashMap::get`, `HashMap::remove`
  unfoldable pub buffer_of : String → Buffers V F → Option (List (QueuedMessage V F))
  buffer_of id [] = none
  buffer_of id ((k, b) ∷ bs) = if str_eq k id then some b else buffer_of id bs

  unfoldable pub remove_buffer : String → Buffers V F → Buffers V F
  remove_buffer id [] = []
  remove_buffer id ((k, b) ∷ bs) = if str_eq k id then bs else (k, b) ∷ remove_buffer id bs

  unfoldable pub extract_message_text : MessageReceivedData V F → Option String
  extract_message_text d = elim d.content [
    | text t ↦ some t
    | media _ _ caption ↦ elim caption [
      | none ↦ none
      | some c ↦ if str_eq c "" then none else some c
    ]
    | _ ↦ none
  ]

  -- The loop of `combine_messages` over the messages after the first one.
  unfoldable pub combine_rest :
      String × Bool × Bool → List (QueuedMessage V F) → String × Bool × Bool
  combine_rest acc [] = acc
  combine_rest (combined_text, all_persisted, all_steered) (m ∷ ms) =
      combine_rest
        (
          push_text combined_text (extract_message_text m.data_),
          all_persisted && m.persisted,
          all_steered && m.steered,
        )
        ms

  -- `none` where the program panics.
  unfoldable pub combine_messages : List (QueuedMessage V F) → Option (QueuedMessage V F)
  combine_messages [] = none
  combine_messages (m ∷ []) = some m
  combine_messages (base ∷ m ∷ ms) =
      let start = or_empty (extract_message_text base.data_) in
      let (combined_text, all_persisted, all_steered) =
        combine_rest (start, base.persisted, base.steered) (m ∷ ms) in
      some (record base {
        data_ = record base.data_ { content = text combined_text };
        persisted = all_persisted;
        steered = all_steered;
      })

  -- The first section of `flush_debounce` under the lock.
  unfoldable pub take_buffer :
      String → SessionMessageQueue V F → Option (List (QueuedMessage V F)) × SessionMessageQueue V F
  take_buffer sender_id q = elim (buffer_of sender_id q.debounce_buffers) [
    | none ↦ (none, q)
    | some messages ↦ (
      some messages,
      record q {
        debounce_buffers = remove_buffer sender_id q.debounce_buffers;
        debounce_buffered = q.debounce_buffered - length messages;
      },
    )
  ]

  -- `notify_one`, if the queue took the message of an idle session.
  unfoldable pub notify : Bool → EnqueueResult → SessionMessageQueue V F → SessionMessageQueue V F
  notify was_idle queued q = record q { wake = was_idle || q.wake }
  notify was_idle _ q = q

  -- The second section, with the `notify_one` after it.
  unfoldable pub push_flushed :
      QueuedMessage V F
      → QueueConfig
      → SessionMessageQueue V F
      → EnqueueResult × SessionMessageQueue V F
  push_flushed combined config q =
      let (result, pending) = push_overflow config combined q.pending in
      (result, notify (not q.busy) result (record q { pending = pending }))

  unfoldable pub flush_debounce :
      String
      → QueueConfig
      → SessionMessageQueue V F
      → Option EnqueueResult × SessionMessageQueue V F
  flush_debounce sender_id config q =
      let (taken, q') = take_buffer sender_id q in
      elim taken [
        | none ↦ (none, q')
        | some messages ↦ elim (combine_messages messages) [
          | none ↦ (none, q')
          | some combined ↦
              let (result, q'') = push_flushed combined config q' in (some result, q'')
        ]
      ]
