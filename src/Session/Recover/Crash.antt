-- ===== src/Session/Recover/Crash.antt =====
-- A crash and the recovery after it (crates/duragent/src/session/registry.rs), from the outside.
use agnx.Session.Message.{Message}
use agnx.Session.Event.{SessionStatus}
use agnx.Session.Actor.{all_messages, Actor}
use agnx.Common.{String, ◌≡◌, Option, List, ◌++◌}
use agnx.Session.Recover.{synthesize}

module _ {V : Type 0} (to_json : V → Option String) where
  -- What a client of a recovered session `b` sees of the session `a` that it was: everything,
  -- after messages that `a` had trimmed and before results made up for interrupted tool calls.
  pub record Restores (a b : Actor V) (st : SessionStatus) (ids : List String) : Type 0 where
    pub trimmed : List Message
    pub messages : all_messages b ≡ trimmed ++ (all_messages a ++ synthesize ids)
    pub status : b.status ≡ st
    pub last_event_seq : b.last_event_seq ≡ a.last_event_seq
    pub id : b.id ≡ a.id
    pub agent : b.agent ≡ a.agent
    pub created_at : b.created_at ≡ a.created_at
    pub on_disconnect : b.on_disconnect ≡ a.on_disconnect
    pub gateway : b.gateway ≡ a.gateway
    pub gateway_chat_id : b.gateway_chat_id ≡ a.gateway_chat_id
    pub silent_buffer_cap : b.silent_buffer_cap ≡ a.silent_buffer_cap
    pub message_limit : b.message_limit ≡ a.message_limit
