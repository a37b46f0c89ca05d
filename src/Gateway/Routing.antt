-- ===== src/Gateway/Routing.antt =====
-- The choice of the agent for a message: crates/duragent/src/gateway/routing.rs, with the rules of
-- crates/duragent/src/config.rs. `agents` has the access configuration of each agent that is loaded.
pub mod FirstMatch
mod Tests
use agnx.Common.{
  String, Bool, true, false, ◌&&◌, ◌||◌, Option, none, some, List, [], ◌∷◌, str_eq, if◌then◌else◌,
  Text, codes, text_eq,
}
use agnx.Common.Entries.{lookup_entry}
use agnx.Gateway.Protocol.{RoutingContext}
use agnx.Access.{to_ascii_lowercase, AccessConfig}
use agnx.ChatSessions as ChatSessions

pub record RoutingMatch : Type 0 where
  pub gateway : Option String
  pub chat_type : Option String
  pub chat_id : Option String
  pub sender_id : Option String

pub record RoutingRule : Type 0 where
  pub match_conditions : RoutingMatch
  pub agent : String

-- `eq_ignore_ascii_case`
abbrev pub eq_ignore_ascii_case : String → String → Bool
eq_ignore_ascii_case a b = text_eq (to_ascii_lowercase (codes a)) (to_ascii_lowercase (codes b))

-- A condition that is given must hold.
abbrev pub holds : (String → String → Bool) → Option String → String → Bool
holds eq none found = true
holds eq (some wanted) found = eq wanted found

unfoldable pub matches_rule : RoutingMatch → String → RoutingContext → Bool
matches_rule conditions gateway routing =
    holds eq_ignore_ascii_case conditions.gateway gateway
    && holds eq_ignore_ascii_case conditions.chat_type routing.chat_type
    && holds (λ a b. str_eq a b) conditions.chat_id routing.chat_id
    && holds (λ a b. str_eq a b) conditions.sender_id routing.sender_id

abbrev pub is_loaded : Option (Option AccessConfig) → Bool
is_loaded none = false
is_loaded (some access) = true

unfoldable pub resolve_agent :
    List (String × Option AccessConfig) → List RoutingRule → String → RoutingContext → Option String
unfolding matches_rule
resolve_agent agents [] gateway routing = none
resolve_agent agents (rule ∷ rules) gateway routing =
    let rest = resolve_agent agents rules gateway routing in
    if matches_rule rule.match_conditions gateway routing
      && is_loaded (lookup_entry rule.agent agents)
    then some rule.agent
    else rest

abbrev pub existing : (Text → Bool) → Option Text → Option Text
existing exists none = none
existing exists (some id) = if exists id then some id else none

abbrev pub or_else : Option Text → Option Text → Option Text
or_else (some id) rest = some id
or_else none rest = rest

-- `exists` says which sessions the registry has.
unfoldable pub find_session_for_chat :
    (Text → Bool) → ChatSessions.Cache → List RoutingRule → String → String → Option Text
find_session_for_chat exists cache [] gateway chat_id = none
find_session_for_chat exists cache (rule ∷ rules) gateway chat_id =
    or_else
      (existing exists (ChatSessions.get (codes gateway) (codes chat_id) (codes rule.agent) cache))
      (find_session_for_chat exists cache rules gateway chat_id)

unfoldable pub is_group_chat : String → Bool
is_group_chat chat_type =
    let t = to_ascii_lowercase (codes chat_type) in
    text_eq t (codes "group") || text_eq t (codes "supergroup") || text_eq t (codes "channel")
