-- ===== src/Gateway/Routing/Tests.antt =====
-- Runs of the routing at concrete inputs.
use agnx.Common.Entries.{lookup_entry}
use agnx.Common.{String, ◌≡◌, refl, ◌↔◌, true, false, Option, none, some, List, [], ◌∷◌, map}
use agnx.Gateway.Protocol.{RoutingContext}
use agnx.Access.{AccessConfig}
use agnx.Gateway.Routing.{RoutingRule, RoutingMatch, resolve_agent, is_group_chat}
use agnx.Gateway.Routing.FirstMatch.{FirstServes, resolve_agent_iff}

abbrev anything : RoutingMatch
anything = record { gateway = none; chat_type = none; chat_id = none; sender_id = none }

-- Groups of Telegram have an agent that is not loaded, then a helper; all else goes to the main agent.
abbrev three_rules : List RoutingRule
three_rules =
    record { match_conditions = record anything { gateway = some "Telegram" }; agent = "gone" }
    ∷ record { match_conditions = record anything { chat_type = some "GROUP" }; agent = "helper" }
    ∷ record { match_conditions = anything; agent = "main" }
    ∷ []

abbrev two_agents : List (String × Option AccessConfig)
two_agents = ("main", none) ∷ ("helper", none) ∷ []

abbrev in_group : RoutingContext
in_group = record {
  channel = "telegram";
  chat_type = "group";
  chat_id = "100";
  sender_id = "42";
  extra = [];
}

to_helper : resolve_agent two_agents three_rules "telegram" in_group ≡ some "helper"
unfolding resolve_agent lookup_entry
to_helper = refl

dropped : resolve_agent [] three_rules "telegram" in_group ≡ none
unfolding resolve_agent lookup_entry
dropped = refl

group_types : map is_group_chat ("Group" ∷ "supergroup" ∷ "dm" ∷ []) ≡ true ∷ true ∷ false ∷ []
unfolding is_group_chat
group_types = refl

resolve_agent_iff_example :
    (resolve_agent two_agents three_rules "telegram" in_group ≡ some "helper")
    ↔ FirstServes two_agents "telegram" in_group three_rules "helper"
resolve_agent_iff_example = resolve_agent_iff two_agents "telegram" in_group three_rules "helper"
