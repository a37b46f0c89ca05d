-- ===== src/Tools/Tests.antt =====
-- Runs of the tools' hooks and executor at concrete inputs.
use agnx.Common.{
  ℕ, String, ◌≡◌, refl, true, none, some, [], ◌∷◌, str_eq, ◌==◌, if◌then◌else◌, ◌↔◌, false, ok, err,
  split, codes, split_once,
}
use agnx.Session.Message.{ToolCall, tool_result, assistant_tool_calls}
use agnx.Session.Event.{ToolType}
use agnx.Policy.{
  check, matches_any_typed, matches_typed_pattern, typed_parts, matches_pattern, matches_parts,
  after_first, contains, ToolPolicy, PolicyMode, star,
}
use agnx.Tools.Executor.{
  find_lowercase, execute_tool, Environment, ToolExecutor, ToolError, execute, find_tool,
  execute_found, execute_decided, invocation_of,
}
use agnx.Tools.HookPatterns.{matches_hook_pattern_iff, IsGlob}
use agnx.Tools.Rejections.{
  Rejects, FirstRejects, check_skip_duplicate_iff, check_depends_on_iff, run_before_tool_iff,
}
use agnx.Tools.Json.{Json}
use agnx.Tools.Hooks.{
  glob_parts, last_differs, ends_with, middle_parts, build_invocation,
  build_invocation_from_tool_call, identity_eq, extract_identity, extract, HookContext,
  GuardVerdict, matches_hook_pattern, matches,
}
use agnx.Common.Entries.{insert, lookup_entry}
use agnx.Tools.Verdicts.{Some, Place}
use agnx.Tools.Guards.{
  check_depends_on, run_before_tool, run_guards, dispatch_before_hook, find_duplicate, response_any,
  is_same_call, has_result, check_skip_duplicate,
}
use agnx.Tools.Steering.{default_hooks, hooks_of, memory_guard, send_keys_guard}

-- JSON whose values are numbers: an object is 0, and its fields all have the value 1.
abbrev pub plain_json : Json ℕ
plain_json = record {
  get = λ v k. some 1;
  eq = λ a b. a == b;
  from_str = λ s. some 0;
  null = 2;
  object = 0;
  true_value = 1;
  action = λ s. if str_eq s "" then none else some s;
  command = λ s. some s;
}

abbrev pub call : String → String → String → ToolCall
call id name arguments = record {
  id = id;
  tool_type = "function";
  function = record { name = name; arguments = arguments };
}

abbrev recalled : HookContext ℕ
recalled = record {
  tool_name = "memory";
  action = some "recall";
  arguments = 0;
  messages = assistant_tool_calls (call "a" "memory" "recall" ∷ []) ∷ tool_result "a" "notes" ∷ [];
}

abbrev keys : HookContext ℕ
keys = record {
  tool_name = "background_process";
  action = some "send_keys";
  arguments = 0;
  messages = [];
}

duplicate_rejected :
    run_before_tool plain_json (default_hooks plain_json ("memory" ∷ [])) recalled
    ≡ GuardVerdict.reject
        "Hook guard: duplicate call skipped. An identical 'memory:recall' call with the same arguments already has a result in this conversation."
unfolding run_before_tool run_guards dispatch_before_hook default_hooks hooks_of
    check_skip_duplicate find_duplicate response_any is_same_call has_result matches_hook_pattern
    build_invocation build_invocation_from_tool_call identity_eq extract_identity extract insert
    lookup_entry
duplicate_rejected = refl

masked_allowed :
    run_before_tool plain_json (default_hooks plain_json ("memory" ∷ [])) (record recalled {
      messages =
          assistant_tool_calls (call "a" "memory" "recall" ∷ [])
          ∷ tool_result "a" "[result masked — ~2 tokens removed]"
          ∷ [];
    })
    ≡ GuardVerdict.allow
unfolding run_before_tool run_guards dispatch_before_hook default_hooks hooks_of
    check_skip_duplicate find_duplicate response_any is_same_call has_result matches_hook_pattern
    build_invocation build_invocation_from_tool_call identity_eq extract_identity extract insert
    lookup_entry
masked_allowed = refl

-- The last part of a pattern may overlap the first.
overlap : matches "ab*ba" "aba" ≡ true
unfolding matches_hook_pattern glob_parts split last_differs ends_with middle_parts
overlap = refl

matches_hook_pattern_iff_example :
    (matches_hook_pattern (codes "web:*") (codes "web:get") ≡ true)
    ↔ IsGlob (split star (codes "web:*")) (codes "web:get")
matches_hook_pattern_iff_example = matches_hook_pattern_iff (codes "web:*") (codes "web:get")

check_skip_duplicate_iff_example : Rejects (check_skip_duplicate plain_json memory_guard recalled)
unfolding is_same_call matches_hook_pattern build_invocation build_invocation_from_tool_call
    identity_eq extract_identity extract insert lookup_entry
check_skip_duplicate_iff_example = (check_skip_duplicate_iff plain_json memory_guard recalled).1 (
  refl,
  Place.at (
    (call "a" "memory" "recall" ∷ []),
    refl,
    refl,
    Some.here ((refl, (refl, tt)), ([], tool_result "a" "notes", [], refl, tt, refl, refl)),
  ),
)

check_depends_on_iff_example : Rejects (check_depends_on plain_json send_keys_guard keys)
check_depends_on_iff_example =
    (check_depends_on_iff plain_json send_keys_guard keys).1
      ("background_process:capture", refl, λ s. elim s [ ])

run_before_tool_iff_example :
    (run_before_tool plain_json (default_hooks plain_json ("memory" ∷ [])) recalled
      ≡ GuardVerdict.reject "no")
    ↔ FirstRejects plain_json recalled
        (build_invocation "memory" (some "recall"))
        (default_hooks plain_json ("memory" ∷ [])).before_tool
        "no"
run_before_tool_iff_example =
    run_before_tool_iff plain_json (default_hooks plain_json ("memory" ∷ [])) recalled "no"

-- A builtin tool that is called by another spelling is found, and its invocation has that spelling.
abbrev world : Environment
world = record {
  run = λ n tool arguments. ok (record { success = true; content = "done" });
  to_lowercase = λ s. if str_eq s "MEMORY" then "memory" else s;
  rebuilt = λ n. none;
}

abbrev no_recall : ToolPolicy
no_recall = record {
  api_version = [];
  kind = [];
  mode = PolicyMode.dangerous;
  deny = codes "builtin:memory:*" ∷ [];
  allow = [];
  notify = record { enabled = false; patterns = []; deliveries = [] };
}

abbrev executor : ToolExecutor
executor = record {
  tools = ("memory", record { name = "memory"; tool_type = ToolType.builtin }) ∷ [];
  policy = no_recall;
  has_reload_deps = false;
  runs = [];
  notifications = [];
  rebuilds = 0;
}

denied :
    (execute plain_json world (call "a" "memory" "recall") executor).0
    ≡ err (ToolError.policy_denied "memory:recall")
unfolding execute find_tool execute_found execute_decided invocation_of lookup_entry check
    matches_any_typed matches_typed_pattern typed_parts matches_pattern matches_parts after_first
    contains split split_once
denied = refl

other_spelling_runs :
    (execute plain_json world (call "a" "MEMORY" "recall") executor).0
    ≡ ok (record { success = true; content = "done" })
unfolding execute find_tool find_lowercase execute_found execute_decided execute_tool invocation_of
    lookup_entry check matches_any_typed matches_typed_pattern typed_parts matches_pattern
    matches_parts after_first contains split split_once
other_spelling_runs = refl
