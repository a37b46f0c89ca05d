-- ===== src/Policy.antt =====
-- Tool policies: crates/duragent-types/src/agent/policy.rs and
-- crates/duragent/src/agent/policy_eval.rs.
-- A text is the list of its code points; the program's byte offsets lie between code points.
pub mod Glob
pub mod Decisions
pub mod Changes
mod Tests
use agnx.Session.Event.{ToolType}
use agnx.Common.{
  split, split_once, is_empty, strip_prefix, codes, any, text_eq, Text, ℕ, Bool, true, false, not,
  ◌&&◌, ◌||◌, Option, none, some, List, [], ◌∷◌, ◌++◌, ◌==◌, if◌then◌else◌, length,
}

pub data PolicyMode : Type 0 where
  dangerous : PolicyMode
  ask : PolicyMode
  restrict : PolicyMode

pub data Delivery : Type 0 where
  log : Delivery
  webhook : Text → Delivery

pub record NotifyConfig : Type 0 where
  pub enabled : Bool
  pub patterns : List Text
  pub deliveries : List Delivery

pub record ToolPolicy : Type 0 where
  pub api_version : Text
  pub kind : Text
  pub mode : PolicyMode
  pub deny : List Text
  pub allow : List Text
  pub notify : NotifyConfig

pub data PolicyDecision : Type 0 where
  allow : PolicyDecision
  deny : PolicyDecision
  ask : PolicyDecision

-- `ToolType::as_str`
abbrev pub as_str : ToolType → Text
as_str ToolType.bash = codes "bash"
as_str ToolType.mcp = codes "mcp"
as_str ToolType.builtin = codes "builtin"
as_str ToolType.cli = codes "cli"

abbrev pub star : ℕ
star = b'*'

abbrev pub colon : ℕ
colon = b':'

-- `find(part)`, given as the text after the first occurrence: `text[pos + idx + part.len()..]`.
unfoldable pub after_first : Text → Text → Option Text
after_first p [] = strip_prefix p []
after_first p (c ∷ s) =
    let later = after_first p s in elim (strip_prefix p (c ∷ s)) [ some r ↦ some r | none ↦ later ]

unfoldable pub contains : Text → Text → Bool
contains p s = elim (after_first p s) [ some _ ↦ true | none ↦ false ]

-- The loop of `matches_pattern` over the parts, with the text from `pos` on.
unfoldable pub matches_parts : List Text → Text → Bool
matches_parts [] s = true
matches_parts (p ∷ ps) s =
    if is_empty p
    then matches_parts ps s
    else elim (after_first p s) [ some r ↦ matches_parts ps r | none ↦ false ]

unfoldable pub matches_pattern : Text → Text → Bool
matches_pattern pattern s =
    let parts = split star pattern in
    if length parts == 1 then contains pattern s else matches_parts parts s

unfoldable pub typed_parts : Text → Text × Text
typed_parts pattern = elim (split_once colon pattern) [ some r ↦ r | none ↦ (star ∷ [], pattern) ]

unfoldable pub matches_typed_pattern : Text → Text → Text → Bool
matches_typed_pattern pattern tool_type invocation =
    let (pattern_tool_type, pattern_rest) = typed_parts pattern in
    if not (text_eq pattern_tool_type (star ∷ []))
      && not (matches_pattern pattern_tool_type tool_type)
    then false
    else matches_pattern pattern_rest invocation

unfoldable pub matches_any_typed : List Text → Text → Text → Bool
matches_any_typed patterns tool_type invocation =
    any (λ pattern. matches_typed_pattern pattern tool_type invocation) patterns

unfoldable pub check : ToolPolicy → ToolType → Text → PolicyDecision
check p tool_type invocation =
    let tool_str = as_str tool_type in
    if not (is_empty p.deny) && matches_any_typed p.deny tool_str invocation
    then PolicyDecision.deny
    else elim p.mode [
      | PolicyMode.dangerous ↦ PolicyDecision.allow
      | PolicyMode.restrict ↦
          if matches_any_typed p.allow tool_str invocation
          then PolicyDecision.allow
          else PolicyDecision.deny
      | PolicyMode.ask ↦
          if matches_any_typed p.allow tool_str invocation
          then PolicyDecision.allow
          else PolicyDecision.ask
    ]

unfoldable pub should_notify : ToolPolicy → ToolType → Text → Bool
should_notify p tool_type invocation =
    p.notify.enabled
    && (is_empty p.notify.patterns
        || matches_any_typed p.notify.patterns (as_str tool_type) invocation)

pub delivery_eq : Delivery → Delivery → Bool
delivery_eq Delivery.log Delivery.log = true
delivery_eq (Delivery.webhook a) (Delivery.webhook b) = text_eq a b
delivery_eq _ _ = false

-- The loop of `merge` over the deliveries of the other policy.
pub add_deliveries : List Delivery → List Delivery → List Delivery
add_deliveries ds [] = ds
add_deliveries ds (e ∷ es) = add_deliveries (if any (delivery_eq e) ds then ds else ds ++ e ∷ []) es

pub merge : ToolPolicy → ToolPolicy → ToolPolicy
merge p other = record p {
  mode = elim other.mode [ PolicyMode.dangerous ↦ p.mode | m ↦ m ];
  deny = p.deny ++ other.deny;
  allow = p.allow ++ other.allow;
  notify = record {
    enabled = other.notify.enabled || p.notify.enabled;
    patterns = p.notify.patterns ++ other.notify.patterns;
    deliveries = add_deliveries p.notify.deliveries other.notify.deliveries;
  };
}

pub add_allow_pattern : ToolType → Text → ToolPolicy → ToolPolicy
add_allow_pattern tool_type pattern p =
    let full_pattern = as_str tool_type ++ colon ∷ pattern in
    if any (text_eq full_pattern) p.allow
    then p
    else record p { allow = p.allow ++ full_pattern ∷ [] }
