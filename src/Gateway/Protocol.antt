-- ===== src/Gateway/Protocol.antt =====
-- What a gateway reports of a received message: crates/duragent-gateway-protocol/src/lib.rs.
-- `V` stands for `serde_json::Value`, `F` for `f64`, and a time is a number.
use agnx.Common.{ℕ, String, Bool, Option, List}

pub data MessageContent (V F : Type 0) : Type 0 where
  text : String → MessageContent V F
  media :
      (media_type : String) → (url : Option String) → (caption : Option String) → MessageContent V F
  location : (latitude : F) → (longitude : F) → MessageContent V F
  contact : (name : String) → (phone : String) → MessageContent V F
  unknown : (raw : V) → MessageContent V F

pub record Sender : Type 0 where
  pub id : String
  pub username : Option String
  pub display_name : Option String

pub record RoutingContext : Type 0 where
  pub channel : String
  pub chat_type : String
  pub chat_id : String
  pub sender_id : String
  pub extra : List (String × String)

pub record MessageReceivedData (V F : Type 0) : Type 0 where
  pub message_id : String
  pub chat_id : String
  pub sender : Sender
  pub content : MessageContent V F
  pub routing : RoutingContext
  pub reply_to : Option String
  pub mentions_bot : Bool
  pub reply_to_bot : Bool
  pub timestamp : Option ℕ
  pub metadata : V
