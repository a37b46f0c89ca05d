-- ===== src/Context/Dropping.antt =====
-- Dropping of the oldest iteration groups: `drop_oldest_iterations` and `find_iteration_groups` of
-- crates/duragent/src/context/truncation.rs.
-- The scan runs on fuel, for which the number of messages is enough, since each turn passes one.
use agnx.Common.{
  take, drop, ℕ, zero, suc, ◌+◌, ◌-◌, ◌%◌, ◌^◌, String, Bool, true, false, ◌&&◌, Option, none, some,
  List, [], ◌∷◌, ◌++◌, leb, if◌then◌else◌, length, Text, codes, strip_prefix,
}
use agnx.Session.Message.{Message, ToolCall, Role, content_str}
use agnx.Context.{add_u32, estimate_message_tokens}
use agnx.Context.Truncation.{is_tool}

pub record IterationGroup : Type 0 where
  pub start : ℕ
  pub end_ : ℕ

abbrev pub starts_group : Message → Bool
starts_group m = elim m.role [
  | Role.assistant ↦ elim m.tool_calls [ none ↦ false | some _ ↦ true ]
  | _ ↦ false
]

abbrev pub is_user : Message → Bool
is_user m = elim m.role [ Role.user ↦ true | _ ↦ false ]

abbrev pub starts_with : Text → Text → Bool
starts_with p s = elim (strip_prefix p s) [ none ↦ false | some _ ↦ true ]

-- How many tool messages come first.
unfoldable pub leading_tools : List Message → ℕ
leading_tools [] = 0
leading_tools (m ∷ ms) = let rest = leading_tools ms in if is_tool m then suc rest else 0

-- 1 if a steering message of the user comes first.
unfoldable pub steering : List Message → ℕ
steering [] = 0
steering (m ∷ ms) =
    if is_user m && starts_with (codes "[steering]") (codes (content_str m)) then 1 else 0

-- How many messages of a group follow its first one.
abbrev pub followers : List Message → ℕ
followers ms = leading_tools ms + steering (drop (leading_tools ms) ms)

-- `ms` are the messages from the index `i` on.
unfoldable pub find_groups : ℕ → ℕ → List Message → List IterationGroup
find_groups zero i ms = []
find_groups (suc fuel) i [] = []
find_groups (suc fuel) i (m ∷ ms) =
    let n = followers ms in
    let group = find_groups fuel (i + 1 + n) (drop n ms) in
    let later = find_groups fuel (i + 1) ms in
    if starts_group m then (record { start = i; end_ = i + n }) ∷ group else later

unfoldable pub find_iteration_groups : List Message → ℕ → List IterationGroup
find_iteration_groups messages conversation_end_idx =
    find_groups (length messages) conversation_end_idx (drop conversation_end_idx messages)

-- `messages[start..=end]`
abbrev pub slice : IterationGroup → List Message → List Message
slice g ms = drop g.start (take (g.end_ + 1) ms)

-- `messages.drain(start..=end)`
unfoldable pub drain_group : IterationGroup → List Message → List Message
drain_group g ms = take g.start ms ++ drop (g.end_ + 1) ms

-- The last group is drained first.
unfoldable pub drain_groups : List IterationGroup → List Message → List Message
drain_groups [] ms = ms
drain_groups (g ∷ gs) ms = drain_group g (drain_groups gs ms)

-- All groups but the last.
unfoldable pub but_last : List IterationGroup → List IterationGroup
but_last [] = []
but_last (g ∷ []) = []
but_last (g ∷ h ∷ gs) = g ∷ but_last (h ∷ gs)

-- `current_tokens -= group_tokens`
abbrev pub sub_u32 : ℕ → ℕ → ℕ
sub_u32 a b = (a + 2 ^ 32 - b) % 2 ^ 32

module _ (to_json : List ToolCall → Option String) where
  -- `map(estimate_message_tokens).sum()`
  unfoldable pub sum_tokens : List Message → ℕ
  sum_tokens [] = 0
  sum_tokens (m ∷ ms) = add_u32 (estimate_message_tokens to_json m) (sum_tokens ms)

  -- The loop that collects `groups_to_drop`.
  unfoldable pub groups_to_drop : List Message → ℕ → ℕ → List IterationGroup → List IterationGroup
  groups_to_drop ms budget current [] = []
  groups_to_drop ms budget current (g ∷ gs) =
      let rest = groups_to_drop ms budget (sub_u32 current (sum_tokens (slice g ms))) gs in
      if leb current budget then [] else g ∷ rest

  unfoldable pub drop_oldest_iterations : List Message → ℕ → ℕ → List Message
  drop_oldest_iterations messages conversation_end_idx token_budget =
      let total_tokens = sum_tokens messages in
      let groups = find_iteration_groups messages conversation_end_idx in
      if leb total_tokens token_budget
      then messages
      else if leb (length groups) 1
      then messages
      else drain_groups (groups_to_drop messages token_budget total_tokens (but_last groups))
          messages
