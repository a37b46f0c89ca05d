-- ===== src/Context.antt =====
-- The context window: token estimates of crates/duragent/src/context/tokens.rs.
-- `to_json` is what `serde_json::to_string` makes of tool calls, or `none` where it fails. Numbers of
-- tokens are u32 and wrap.
pub mod Truncation
pub mod Masking
pub mod Dropping
pub mod Groups
pub mod Budget
mod Tests
use agnx.Common.{
  ℕ, ◌+◌, ◌/◌, ◌%◌, ◌^◌, String, Option, none, some, List, [], ◌∷◌, ltb, if◌then◌else◌, Text, codes,
}
use agnx.Session.Message.{Message, ToolCall}

-- The bytes of a code point in UTF-8.
abbrev utf8_len : ℕ → ℕ
utf8_len c = if ltb c 128 then 1 else if ltb c 2048 then 2 else if ltb c 65536 then 3 else 4

abbrev bytes : Text → ℕ
bytes [] = 0
bytes (c ∷ s) = utf8_len c + bytes s

-- `str::len`
abbrev byte_len : String → ℕ
byte_len s = bytes (codes s)

abbrev pub add_u32 : ℕ → ℕ → ℕ
add_u32 a b = (a + b) % 2 ^ 32

unfoldable pub estimate_tokens : String → ℕ
estimate_tokens s = byte_len s % 2 ^ 32 / 4

abbrev estimate_option : Option String → ℕ
estimate_option none = 0
estimate_option (some s) = estimate_tokens s

abbrev and_then : {A B : Type 0} → Option A → (A → Option B) → Option B
and_then none f = none
and_then (some a) f = f a

unfoldable pub estimate_message_tokens : (List ToolCall → Option String) → Message → ℕ
estimate_message_tokens to_json msg =
    add_u32
      (add_u32
        (add_u32 (estimate_option msg.content) (estimate_option (and_then msg.tool_calls to_json)))
        (estimate_option msg.tool_call_id))
      4
