-- ===== src/Context/Tests.antt =====
-- crates/duragent/src/context/truncation.rs at concrete messages.
use agnx.Common.{
  last?, take, drop, ℕ, ◌+◌, ◌-◌, String, ◌≡◌, refl, ◌&&◌, Option, none, List, [], ◌∷◌, ◌++◌, ◌==◌,
  if◌then◌else◌, ◌^◌, ◌<◌, some, arith,
}
use agnx.Session.Message.{
  Message, ToolCall, user, assistant, text, tool_result, assistant_tool_calls,
}
use agnx.Context.Truncation.{mask_tool_results, tool_indices, mask_all, mask_message, update}
use agnx.Context.Dropping.{
  IterationGroup, find_iteration_groups, find_groups, leading_tools, steering, groups_to_drop,
  but_last, drain_groups, drain_group, sum_tokens, drop_oldest_iterations,
}
use agnx.Context.Budget.{total, Kept, drop_oldest_iterations-Kept}
use agnx.Context.{estimate_message_tokens, estimate_tokens}
use agnx.Context.Masking.{mask_pass, tools, mask_tool_results_lem}

abbrev no_json : List ToolCall → Option String
no_json calls = none

abbrev masked_text : ℕ → String
masked_text n = "[result masked]"

abbrev messages : List Message
messages =
    text user "go"
    ∷ tool_result "1" "a"
    ∷ tool_result "2" "b"
    ∷ tool_result "3" "c"
    ∷ text assistant "done"
    ∷ []

middle_is_masked :
    mask_tool_results no_json masked_text messages 1 1 1
    ≡ text user "go"
      ∷ tool_result "1" "a"
      ∷ tool_result "2" "[result masked]"
      ∷ tool_result "3" "c"
      ∷ text assistant "done"
      ∷ []
unfolding mask_tool_results tool_indices mask_all mask_message update
middle_is_masked = refl

mask_tool_results_lem_example : mask_tool_results no_json masked_text messages 1 1 1 ≡ (
    if 1 == 0 && 1 == 0
    then messages
    else take 1 messages
      ++ mask_pass no_json masked_text 1 (tools (drop 1 messages) - (1 + 1)) (drop 1 messages))
mask_tool_results_lem_example = mask_tool_results_lem no_json masked_text messages 1 1 1

abbrev call : ToolCall
call = record {
  id = "1";
  tool_type = "function";
  function = record { name = "ls"; arguments = "{}" };
}

abbrev two_rounds : List Message
two_rounds =
    text user "go"
    ∷ assistant_tool_calls (call ∷ [])
    ∷ tool_result "1" "a"
    ∷ assistant_tool_calls (call ∷ [])
    ∷ tool_result "1" "b"
    ∷ []

abbrev last_round : IterationGroup
last_round = record { start = 3; end_ = 4 }

second_is_last : last? (find_iteration_groups two_rounds 1) ≡ some last_round
unfolding find_iteration_groups find_groups leading_tools steering
second_is_last = refl

few_tokens : total no_json two_rounds < 2 ^ 32
unfolding estimate_message_tokens estimate_tokens
few_tokens = omega arith

first_is_dropped :
    drop_oldest_iterations no_json two_rounds 1 12
    ≡ text user "go" ∷ assistant_tool_calls (call ∷ []) ∷ tool_result "1" "b" ∷ []
unfolding drop_oldest_iterations find_iteration_groups find_groups leading_tools steering
    groups_to_drop but_last drain_groups drain_group sum_tokens estimate_message_tokens
    estimate_tokens
first_is_dropped = refl

drop_oldest_iterations-Kept_example :
    Kept no_json two_rounds 1 12 last_round (drop_oldest_iterations no_json two_rounds 1 12)
drop_oldest_iterations-Kept_example =
    drop_oldest_iterations-Kept no_json two_rounds 1 12 last_round few_tokens second_is_last
