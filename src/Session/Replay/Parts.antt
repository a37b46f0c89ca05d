-- ===== src/Session/Replay/Parts.antt =====
-- The replay of crates/duragent/src/session/registry.rs, variable by variable.
use mathlib.Core.List.{foldl-append}
use agnx.Common.{ℕ, String, ◌≡◌, refl, ap, ◌∙◌, ◌+◌, Option, List, [], ◌∷◌, ◌++◌, foldl}
use agnx.Session.Message.{Message}
use agnx.Session.Event.{SessionStatus, active, SessionEvent, SessionEventPayload}
use agnx.Session.Replay.{Replay, replay, replay_payload, replay_event}
use agnx.Session.Journal.{Numbered}

module _ {V : Type 0} (to_json : V → Option String) where
  abbrev pub message_step : SessionEventPayload V → List Message → List Message
  unfolding replay_payload
  message_step p ms =
      (replay_payload to_json p
        (record { messages = ms; last_seq = 0; status = active; outstanding = [] })).messages

  abbrev pub status_step : SessionEventPayload V → SessionStatus → SessionStatus
  unfolding replay_payload
  status_step p st =
      (replay_payload to_json p
        (record { messages = []; last_seq = 0; status = st; outstanding = [] })).status

  abbrev pub replay_messages : List Message → List (SessionEvent V) → List Message
  replay_messages = foldl (λ ms e. message_step e.payload ms)

  abbrev pub replay_status : SessionStatus → List (SessionEvent V) → SessionStatus
  replay_status = foldl (λ st e. status_step e.payload st)

  payload_messages :
      (p : SessionEventPayload V) (r : Replay)
      → (replay_payload to_json p r).messages ≡ message_step p r.messages
  unfolding replay_payload
  payload_messages (SessionEventPayload.user_message _ _ _) r = refl
  payload_messages _ r = refl

  payload_status :
      (p : SessionEventPayload V) (r : Replay)
      → (replay_payload to_json p r).status ≡ status_step p r.status
  unfolding replay_payload
  payload_status (SessionEventPayload.user_message _ _ _) r = refl
  payload_status _ r = refl

  pub messages-replay :
      (es : List (SessionEvent V)) (r : Replay)
      → (replay to_json r es).messages ≡ replay_messages r.messages es
  unfolding replay
  messages-replay [] r = refl
  messages-replay (e ∷ es) r =
      messages-replay es (replay_event to_json r e)
      ∙ ap (λ ms. replay_messages ms es) (payload_messages e.payload r)

  pub status-replay :
      (es : List (SessionEvent V)) (r : Replay)
      → (replay to_json r es).status ≡ replay_status r.status es
  unfolding replay
  status-replay [] r = refl
  status-replay (e ∷ es) r =
      status-replay es (replay_event to_json r e)
      ∙ ap (λ st. replay_status st es) (payload_status e.payload r)

  -- The last number, of events that are numbered from the first one on.
  pub last_seq-replay :
      (n m : ℕ) (es : List (SessionEvent V)) (r : Replay)
      → Numbered n es m
      → (es ≡ [] → r.last_seq ≡ m)
      → (replay to_json r es).last_seq ≡ m
  unfolding replay
  last_seq-replay n m [] r h k = k refl
  last_seq-replay n m (e ∷ []) r h k = h.0 ∙ h.1
  last_seq-replay n m (e ∷ f ∷ es) r h k =
      last_seq-replay (n + 1) m (f ∷ es) (replay_event to_json r e) h.1 (λ q. cc)

  pub replay_messages-concat :
      (ms : List Message) (es : List (SessionEvent V)) (e : SessionEvent V)
      → replay_messages ms (es ++ e ∷ []) ≡ message_step e.payload (replay_messages ms es)
  replay_messages-concat ms es e = rw foldl-append

  pub replay_status-concat :
      (st : SessionStatus) (es : List (SessionEvent V)) (e : SessionEvent V)
      → replay_status st (es ++ e ∷ []) ≡ status_step e.payload (replay_status st es)
  replay_status-concat st es e = rw foldl-append
