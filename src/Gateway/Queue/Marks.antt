-- ===== src/Gateway/Queue/Marks.antt =====
-- Marks on queued messages, and the removal of steered ones: crates/duragent/src/gateway/queue.rs.
use agnx.Common.{
  is_empty, retain, ℕ, ◌+◌, ◌-◌, min, Bool, true, not, ◌&&◌, [], ◌∷◌, map, str_eq, if◌then◌else◌,
  length,
}
use agnx.Gateway.Queue.{usize_max, Buffers, SessionMessageQueue, QueuedMessage}

module _ {V F : Type 0} where
  unfoldable pub matches_identity : QueuedMessage V F → QueuedMessage V F → Bool
  matches_identity a b =
      str_eq a.gateway b.gateway
      && str_eq a.data_.message_id b.data_.message_id
      && str_eq a.data_.chat_id b.data_.chat_id
      && str_eq a.data_.sender.id b.data_.sender.id

  -- `iter_mut` over a list, then over the buffers.
  unfoldable pub mark :
      (QueuedMessage V F → QueuedMessage V F) → SessionMessageQueue V F → SessionMessageQueue V F
  mark f q = record q {
    pending = map f q.pending;
    debounce_buffers = map (λ (k, b). (k, map f b)) q.debounce_buffers;
  }

  unfoldable pub mark_persisted :
      QueuedMessage V F → SessionMessageQueue V F → SessionMessageQueue V F
  mark_persisted msg =
      mark (λ m. if matches_identity m msg then record m { persisted = true } else m)

  unfoldable pub mark_steered :
      QueuedMessage V F → SessionMessageQueue V F → SessionMessageQueue V F
  mark_steered msg = mark (λ m. if matches_identity m msg then record m { steered = true } else m)

  -- `debounce_buffers.retain(..)`, with what it removed.
  unfoldable pub clear_buffers : Buffers V F → Buffers V F × ℕ
  clear_buffers [] = ([], 0)
  clear_buffers ((k, b) ∷ bs) =
      let (rest, removed) = clear_buffers bs in
      let kept = retain (λ m. not m.steered) b in
      (if is_empty kept then rest else (k, kept) ∷ rest, (length b - length kept) + removed)

  unfoldable pub clear_steered : SessionMessageQueue V F → SessionMessageQueue V F
  clear_steered q =
      let (buffers, removed) = clear_buffers q.debounce_buffers in
      record q {
        pending = retain (λ m. not m.steered) q.pending;
        debounce_buffers = buffers;
        debounce_buffered = q.debounce_buffered - min removed usize_max;
      }
