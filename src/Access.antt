-- ===== src/Access.antt =====
-- Access control for messages: crates/duragent-types/src/agent/access.rs and
-- crates/duragent/src/agent/access_eval.rs.
-- A text is the list of its bytes. A `HashMap` is a list of pairs without two equal keys, in the
-- order in which it is iterated.
pub mod Disposition
pub mod Order
mod Tests
use agnx.Gateway.Queue.{QueueConfig}
use agnx.Common.{
  ℕ, any, ◌+◌, Bool, true, false, ◌&&◌, ◌||◌, Option, none, some, List, [], ◌∷◌, ◌++◌, ltb, leb,
  ◌==◌, if◌then◌else◌, length, Text, codes, text_eq, strip_prefix,
}

pub data DmPolicy : Type 0 where
  open_ : DmPolicy
  disabled : DmPolicy
  allowlist : DmPolicy

pub data GroupPolicy : Type 0 where
  open_ : GroupPolicy
  disabled : GroupPolicy
  allowlist : GroupPolicy

pub data SenderDisposition : Type 0 where
  allow : SenderDisposition
  passive : SenderDisposition
  silent : SenderDisposition
  block : SenderDisposition

pub record DmAccessConfig : Type 0 where
  pub policy : DmPolicy
  pub allowlist : List Text

pub data ActivationMode : Type 0 where
  mention : ActivationMode
  always : ActivationMode

pub data ContextBufferMode : Type 0 where
  silent : ContextBufferMode
  passive : ContextBufferMode

pub record ContextBufferConfig : Type 0 where
  pub mode : ContextBufferMode
  pub max_messages : ℕ
  pub max_age_hours : ℕ

pub record GroupAccessConfig : Type 0 where
  pub policy : GroupPolicy
  pub allowlist : List Text
  pub sender_default : SenderDisposition
  pub sender_overrides : List (Text × SenderDisposition)
  pub activation : ActivationMode
  pub context_buffer : ContextBufferConfig
  pub queue : QueueConfig

pub record AccessConfig : Type 0 where
  pub dm : DmAccessConfig
  pub groups : GroupAccessConfig

abbrev pub star : ℕ
star = b'*'

-- `strip_suffix('*')`
pub strip_star : Text → Option Text
strip_star [] = none
strip_star (c ∷ []) = if c == star then some [] else none
strip_star (c ∷ d ∷ s) =
    let rest = strip_star (d ∷ s) in elim rest [ none ↦ none | some p ↦ some (c ∷ p) ]

pub starts_with : Text → Text → Bool
starts_with p s = elim (strip_prefix p s) [ none ↦ false | some _ ↦ true ]

pub matches_pattern : Text → Text → Bool
matches_pattern pattern value = elim (strip_star pattern) [
  | some prefix ↦ starts_with prefix value
  | none ↦ text_eq pattern value
]

abbrev to_lower : ℕ → ℕ
to_lower c = if leb b'A' c && leb c b'Z' then c + 32 else c

-- `to_ascii_lowercase`
abbrev pub to_ascii_lowercase : Text → Text
to_ascii_lowercase [] = []
to_ascii_lowercase (c ∷ s) = to_lower c ∷ to_ascii_lowercase s

pub check_access : AccessConfig → Text → Text → Text → Text → Bool
check_access access chat_type channel chat_id sender_id =
    let t = to_ascii_lowercase chat_type in
    if text_eq t (codes "dm") || text_eq t (codes "private")
    then elim access.dm.policy [
      | DmPolicy.open_ ↦ true
      | DmPolicy.disabled ↦ false
      | DmPolicy.allowlist ↦ any (λ p. matches_pattern p sender_id) access.dm.allowlist
    ]
    else if text_eq t (codes "group")
        || text_eq t (codes "supergroup")
        || text_eq t (codes "channel")
    then elim access.groups.policy [
      | GroupPolicy.open_ ↦ true
      | GroupPolicy.disabled ↦ false
      | GroupPolicy.allowlist ↦
          any (λ p. matches_pattern p (channel ++ b':' ∷ chat_id)) access.groups.allowlist
    ]
    else true

pub get : Text → List (Text × SenderDisposition) → Option SenderDisposition
get k [] = none
get k ((j, d) ∷ m) = if text_eq j k then some d else get k m

pub contains_star : Text → Bool
contains_star = any (λ c. c == star)

-- The test of one override in the loop, and the update of `best`.
pub better :
    Text
    → Text × SenderDisposition
    → Option (ℕ × SenderDisposition)
    → Option (ℕ × SenderDisposition)
better sender_id (pattern, d) best =
    if contains_star pattern && matches_pattern pattern sender_id
    then elim best [
      | none ↦ some (length pattern, d)
      | some (n, e) ↦ if ltb n (length pattern) then some (length pattern, d) else some (n, e)
    ]
    else best

pub best_of :
    Text
    → Option (ℕ × SenderDisposition)
    → List (Text × SenderDisposition)
    → Option (ℕ × SenderDisposition)
best_of sender_id best [] = best
best_of sender_id best (o ∷ os) = best_of sender_id (better sender_id o best) os

pub resolve_sender_disposition : GroupAccessConfig → Text → SenderDisposition
resolve_sender_disposition groups sender_id = elim (get sender_id groups.sender_overrides) [
  | some d ↦ d
  | none ↦ elim (best_of sender_id none groups.sender_overrides) [
    | some (_, d) ↦ d
    | none ↦ groups.sender_default
  ]
]
