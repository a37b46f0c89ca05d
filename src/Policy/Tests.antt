-- ===== src/Policy/Tests.antt =====
-- crates/duragent/src/agent/policy_eval.rs at concrete invocations.
use agnx.Common.{
  split, split_once, codes, Text, ◌≡◌, refl, ◌↔◌, ◌⊎◌, true, false, List, [], ◌∷◌, ◌++◌,
}
use agnx.Policy.Glob.{matches_pattern_iff, InOrder}
use agnx.Policy.Decisions.{check_iff, Decides, Listed}
use agnx.Policy.Changes.{check-merge, check-longer}
use agnx.Session.Event.{ToolType}
use agnx.Policy.{
  star, typed_parts, matches_pattern, matches_parts, after_first, contains, ToolPolicy, PolicyMode,
  PolicyDecision, check, merge, matches_any_typed, matches_typed_pattern,
}

abbrev policy : PolicyMode → List Text → List Text → ToolPolicy
policy mode deny allow = record {
  api_version = codes "duragent/v1alpha1";
  kind = codes "Policy";
  mode = mode;
  deny = deny;
  allow = allow;
  notify = record { enabled = false; patterns = []; deliveries = [] };
}

abbrev cargo_only : ToolPolicy
cargo_only = policy PolicyMode.restrict [] (codes "bash:cargo *" ∷ [])

abbrev no_sudo : ToolPolicy
no_sudo = policy PolicyMode.ask (codes "*:*sudo*" ∷ []) []

cargo_is_allowed : check cargo_only ToolType.bash (codes "cargo test") ≡ PolicyDecision.allow
unfolding check matches_any_typed matches_typed_pattern typed_parts split_once matches_pattern split
    matches_parts after_first contains
cargo_is_allowed = refl

sudo_is_denied : check no_sudo ToolType.bash (codes "sudo ls") ≡ PolicyDecision.deny
unfolding check matches_any_typed matches_typed_pattern typed_parts split_once matches_pattern split
    matches_parts after_first contains
sudo_is_denied = refl

-- A pattern with a URL names no tool.
url_is_not_denied :
    check
      (policy PolicyMode.dangerous (codes "curl https://evil" ∷ []) [])
      ToolType.bash
      (codes "curl https://evil")
    ≡ PolicyDecision.allow
unfolding check matches_any_typed matches_typed_pattern typed_parts split_once matches_pattern split
    matches_parts after_first contains
url_is_not_denied = refl

ls_matches : matches_pattern (codes "ls *") (codes "ls -la") ≡ true
unfolding matches_pattern split matches_parts after_first contains
ls_matches = refl

matches_pattern_iff_example :
    (matches_pattern (codes "ls *") (codes "ls -la") ≡ true)
    ↔ InOrder (split star (codes "ls *")) (codes "ls -la")
matches_pattern_iff_example = matches_pattern_iff (codes "ls *") (codes "ls -la")

check_iff_example :
    (check no_sudo ToolType.bash (codes "sudo ls") ≡ PolicyDecision.deny)
    ↔ Decides no_sudo ToolType.bash (codes "sudo ls") PolicyDecision.deny
check_iff_example = check_iff no_sudo ToolType.bash (codes "sudo ls") PolicyDecision.deny

check-merge_example :
    (Listed ToolType.bash (codes "sudo ls") cargo_only.deny
        ⊎ Listed ToolType.bash (codes "sudo ls") no_sudo.deny
      → check (merge cargo_only no_sudo) ToolType.bash (codes "sudo ls") ≡ PolicyDecision.deny)
    × (check (merge cargo_only no_sudo) ToolType.bash (codes "sudo ls") ≡ PolicyDecision.allow
        → (check cargo_only ToolType.bash (codes "sudo ls") ≡ PolicyDecision.allow)
          ⊎ (check no_sudo ToolType.bash (codes "sudo ls") ≡ PolicyDecision.allow))
check-merge_example = check-merge cargo_only no_sudo ToolType.bash (codes "sudo ls")

check-longer_example :
    check cargo_only ToolType.bash (codes "rm -rf /; " ++ (codes "cargo test" ++ codes " || true"))
    ≡ PolicyDecision.allow
check-longer_example =
    check-longer cargo_only ToolType.bash (codes "cargo test") (codes "rm -rf /; ")
      (codes " || true") refl cargo_is_allowed
