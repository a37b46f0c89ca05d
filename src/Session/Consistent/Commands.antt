-- ===== src/Session/Consistent/Commands.antt =====
-- The invariant in `handle_command` of crates/duragent/src/session/actor.rs.
use agnx.Session.Message.{tool_result}
use agnx.Session.Replay.{skipped_messages, replay_payload}
use agnx.Session.Event.{SessionEventPayload, SessionStatus, Usage, PendingApproval}
use agnx.Common.{
  if_both, ℕ, String, ◌≡◌, refl, sym, Option, none, some, [], ◌∷◌, append-nil, Result, ok, err,
}
use agnx.Session.Consistent.{IsSound}
use agnx.Session.Consistent.Memory.{
  queue_messages, add_user_message-Keeps, add_assistant_response-Keeps, queue_silent, IsSound-touch,
}
use agnx.Session.Actor.{
  add_silent_message, push_silent, record_tool_result, record_tools_skipped,
  record_approval_required, record_approval_decision, record_error,
}
use agnx.Session.Persist.{
  pure, proceed, ◌>>=◌, ActorError, Exec, World, flush_events, flush_and_snapshot,
  set_pending_approval, clear_pending_approval, set_status, finalize_stream,
}
use agnx.Session.Consistent.Queue.{sets, queue_event-IsSound}
use agnx.Session.Consistent.Writes.{flush_events-Flushes, flush_and_snapshot-SoundSnapshots}
use agnx.Session.Commands.{Reply, done, SessionCommand, handle_command}

-- The commands that the program sends: `RecordToolCall` has no caller.
abbrev pub IsCurrent : {V : Type 0} → SessionCommand V → Type 0
IsCurrent (SessionCommand.record_tool_call _ _ _) = ⊥
IsCurrent _ = Unit

module _ {V : Type 0} (to_json : V → Option String) where
  abbrev KeepsAt : {A : Type 0} → Exec V A → World V → Type 0
  KeepsAt m w = IsSound to_json w → IsSound to_json (m w).1

  -- The reply is put on afterwards.
  proceed-pure :
      {A B : Type 0} (r : Result A ActorError) (f : A → B) (w : World V)
      → (proceed r (λ a. pure (f a)) w).1 ≡ w
  proceed-pure (ok a) f w = refl
  proceed-pure (err e) f w = refl

  reply-KeepsAt :
      {A B : Type 0} (m : Exec V A) (f : A → B) (w : World V)
      → KeepsAt m w
      → KeepsAt (m >>= λ a. pure (f a)) w
  reply-KeepsAt m f w k c = let (r, w') = m w in rw (proceed-pure r f w') (k c)

  flush_and_snapshot-KeepsAt : (now : ℕ) (w : World V) → KeepsAt (flush_and_snapshot now) w
  flush_and_snapshot-KeepsAt now w c = (flush_and_snapshot-SoundSnapshots to_json now w c).0

  flush_events-KeepsAt : (now : ℕ) (w : World V) → KeepsAt (flush_events now) w
  flush_events-KeepsAt now w c = (flush_events-Flushes to_json now w c).0

  set_pending_approval-KeepsAt :
      (now : ℕ) (p : PendingApproval V) (w : World V) → KeepsAt (set_pending_approval now p) w
  unfolding set_pending_approval
  set_pending_approval-KeepsAt now p w c =
      flush_and_snapshot-KeepsAt now _ (IsSound-touch to_json now (some p) w c)

  clear_pending_approval-KeepsAt : (now : ℕ) (w : World V) → KeepsAt (clear_pending_approval now) w
  unfolding clear_pending_approval
  clear_pending_approval-KeepsAt now w c =
      if_both (λ (r : Result Unit ActorError × World V). IsSound to_json r.1) _
        (flush_and_snapshot-KeepsAt now _ (IsSound-touch to_json now none w c)) c

  set_status-KeepsAt : (now : ℕ) (st : SessionStatus) (w : World V) → KeepsAt (set_status now st) w
  unfolding set_status replay_payload
  set_status-KeepsAt now st w c =
      if_both (λ (r : Result Unit ActorError × World V). IsSound to_json r.1) _ c
        (flush_and_snapshot-KeepsAt now _ (
          rw (append-nil w.actor.pending_messages) at (
            queue_event-IsSound to_json now (SessionEventPayload.status_change w.actor.status st) []
              w.actor.silent_buffer st w (λ ms. sym (append-nil ms)) (sets (λ x. refl)) c)))

  finalize_stream-KeepsAt :
      (now : ℕ) (content : String) (usage : Option Usage) (w : World V)
      → KeepsAt (finalize_stream to_json now content usage) w
  unfolding finalize_stream
  finalize_stream-KeepsAt now content usage w c =
      reply-KeepsAt (flush_and_snapshot now) _ _ (flush_and_snapshot-KeepsAt now _)
        (add_assistant_response-Keeps to_json now content [] usage w c)

  -- Every command of the program keeps the invariant, whichever calls of the file system fail.
  pub handle_command-IsSound :
      (now : ℕ) (cmd : SessionCommand V) (w : World V)
      → IsCurrent cmd
      → IsSound to_json w
      → IsSound to_json (handle_command to_json now cmd w).1
  unfolding handle_command replay_payload
  handle_command-IsSound now (SessionCommand.add_user_message content id name) w h c =
      add_user_message-Keeps to_json now content id name w c
  handle_command-IsSound now (SessionCommand.add_assistant_message content usage) w h c =
      add_assistant_response-Keeps to_json now content [] usage w c
  handle_command-IsSound now (SessionCommand.add_assistant_response content calls usage) w h c =
      add_assistant_response-Keeps to_json now content calls usage w c
  handle_command-IsSound now (SessionCommand.add_silent_message content id name) w h c =
      unfold add_silent_message push_silent in
      queue_silent to_json now _ _ (λ ms. refl) (λ x. refl) w c
  handle_command-IsSound now (SessionCommand.record_tool_call id name arguments) w h c = absurd h
  handle_command-IsSound now (SessionCommand.record_tool_result id success content) w h c =
      unfold record_tool_result in
      queue_messages to_json now _ (tool_result id content ∷ []) (λ ms. refl) (λ x. refl) w c
  handle_command-IsSound now (SessionCommand.record_tools_skipped ids reason) w h c =
      unfold record_tools_skipped in
      queue_messages to_json now _ (skipped_messages ids reason) (λ ms. refl) (λ x. refl) w c
  handle_command-IsSound now (SessionCommand.record_approval_required id command) w h c =
      unfold record_approval_required in
      queue_silent to_json now _ w.actor.silent_buffer (λ ms. refl) (λ x. refl) w c
  handle_command-IsSound now (SessionCommand.record_approval_decision id decision) w h c =
      unfold record_approval_decision in
      queue_silent to_json now _ w.actor.silent_buffer (λ ms. refl) (λ x. refl) w c
  handle_command-IsSound now (SessionCommand.set_pending_approval p) w h c =
      reply-KeepsAt (set_pending_approval now p) (λ (u : Unit {0}). done) w
        (set_pending_approval-KeepsAt now p w) c
  handle_command-IsSound now SessionCommand.clear_pending_approval w h c =
      reply-KeepsAt (clear_pending_approval now) (λ (u : Unit {0}). done) w
        (clear_pending_approval-KeepsAt now w) c
  handle_command-IsSound now (SessionCommand.set_status st) w h c =
      reply-KeepsAt (set_status now st) (λ (u : Unit {0}). done) w (set_status-KeepsAt now st w) c
  handle_command-IsSound now (SessionCommand.record_error code message) w h c =
      unfold record_error in
      queue_silent to_json now _ w.actor.silent_buffer (λ ms. refl) (λ x. refl) w c
  handle_command-IsSound now (SessionCommand.finalize_stream content usage) w h c =
      reply-KeepsAt (finalize_stream to_json now content usage) (λ n. Reply.seq n) w
        (finalize_stream-KeepsAt now content usage w) c
  handle_command-IsSound now SessionCommand.force_flush w h c =
      reply-KeepsAt (flush_events now) (λ (u : Unit {0}). done) w (flush_events-KeepsAt now w) c
  handle_command-IsSound now SessionCommand.force_snapshot w h c =
      reply-KeepsAt (flush_and_snapshot now) (λ (u : Unit {0}). done) w
        (flush_and_snapshot-KeepsAt now w) c
  handle_command-IsSound now _ w h c = c
