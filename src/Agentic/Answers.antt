-- ===== src/Agentic/Answers.antt =====
-- Which tool calls of the conversation still want a result.
use agnx.Common.{
  String, Bool, true, false, not, ◌&&◌, Option, none, some, List, [], ◌∷◌, ◌++◌, ◌≡◌, refl,
  is_empty, if◌then◌else◌, Option-cases, inl, inr, arith, str_eq, eq_iff, ◌∙◌, append_assoc,
}
use agnx.Session.Message.{Message, ToolCall, Role, tool_result, text}
use agnx.Agentic.{skipped}

abbrev pub call_ids : Option (List ToolCall) → List String
call_ids none = []
call_ids (some []) = []
call_ids (some (c ∷ cs)) = c.id ∷ call_ids (some cs)

-- The ids that are left when one result for `id` has come.
unfoldable pub settle : String → List String → Option (List String)
settle id [] = none
settle id (i ∷ ids) =
    if str_eq i id
    then some ids
    else elim (settle id ids) [ some left ↦ some (i ∷ left) | none ↦ none ]

abbrev settle_option : Option String → List String → Option (List String)
settle_option none ids = none
settle_option (some id) ids = settle id ids

abbrev pub then_owed :
    Option (List String) → (List String → Option (List String)) → Option (List String)
then_owed none f = none
then_owed (some ids) f = f ids

-- `strict` allows nothing between a response and the results of its calls.
unfoldable pub owed_by : Bool → List String → Message → Option (List String)
owed_by strict ids m = elim m.role [
  | Role.assistant ↦ if is_empty ids then some (call_ids m.tool_calls) else none
  | Role.tool ↦ settle_option m.tool_call_id ids
  | _ ↦ if strict && not (is_empty ids) then none else some ids
]

-- The ids of the calls that want a result after the messages, if `ids` wanted one before them. It is
-- `none` where a result has no call, or the next response comes before the results.
unfoldable pub owed : Bool → List String → List Message → Option (List String)
unfolding owed_by
owed strict ids [] = some ids
owed strict ids (m ∷ ms) = then_owed (owed_by strict ids m) (λ left. owed strict left ms)

abbrev pub IsAnswered : Bool → List Message → Type 0
IsAnswered strict ms = owed strict [] ms ≡ some []

pub owed-append :
    (strict : Bool) (ids : List String) (xs ys : List Message)
    → owed strict ids (xs ++ ys) ≡ then_owed (owed strict ids xs) (λ left. owed strict left ys)
unfolding owed
owed-append strict ids [] ys = refl
owed-append strict ids (m ∷ xs) ys = elim (Option-cases (owed_by strict ids m)) [
  | inl e ↦ rw e refl
  | inr (left, e) ↦ rw e (owed-append strict left xs ys)
]

-- The messages go on from what was owed before.
pub owed_after :
    (strict : Bool) {ids : List String} (xs ys : List Message)
    → owed strict [] xs ≡ some ids
    → owed strict [] (xs ++ ys) ≡ owed strict ids ys
owed_after strict xs ys h = rw (owed-append strict [] xs ys, h) refl

pub settle_first : (id : String) (ids : List String) → settle id (id ∷ ids) ≡ some ids
unfolding settle
settle_first id ids = ground (arith, eq_iff id id)

settle_second :
    (first id : String) (ids : List String) → settle id (first ∷ id ∷ ids) ≡ some (first ∷ ids)
unfolding settle
settle_second first id ids = ground (arith, eq_iff first id, eq_iff id id)

pub owed_result :
    (strict : Bool) (id content : String) (ids : List String)
    → owed strict (id ∷ ids) (tool_result id content ∷ []) ≡ some ids
unfolding owed owed_by
owed_result strict id content ids = rw (settle_first id ids) refl

-- The skipped calls get their results.
pub owed-skipped :
    (strict : Bool) (reason : String) (calls : List ToolCall)
    → owed strict (call_ids (some calls)) (skipped reason calls) ≡ some []
unfolding owed owed_by skipped
owed-skipped strict reason [] = refl
owed-skipped strict reason (c ∷ calls) =
    rw (settle_first c.id (call_ids (some calls))) (owed-skipped strict reason calls)

pub owed-skipped_after :
    (strict : Bool) (reason first : String) (calls : List ToolCall)
    → owed strict (first ∷ call_ids (some calls)) (skipped reason calls) ≡ some (first ∷ [])
unfolding owed owed_by skipped
owed-skipped_after strict reason first [] = refl
owed-skipped_after strict reason first (c ∷ calls) =
    rw (settle_second first c.id (call_ids (some calls)))
      (owed-skipped_after strict reason first calls)

pub owed_user :
    (strict : Bool) (content : String) → owed strict [] (text Role.user content ∷ []) ≡ some []
unfolding owed owed_by
owed_user true content = refl
owed_user false content = refl

-- The messages behind the conversation leave the calls `ids` without results.
abbrev pub Owes : Bool → List Message → List Message → List String → Type 0
Owes strict conversation messages ids =
    (x : List Message) × (messages ≡ conversation ++ x) × (owed strict [] x ≡ some ids)

pub Owes-after :
    (strict : Bool) (conversation messages ys : List Message) {ids ids' : List String}
    → Owes strict conversation messages ids
    → owed strict ids ys ≡ some ids'
    → Owes strict conversation (messages ++ ys) ids'
Owes-after strict conversation messages ys (x, e, h) k =
    (x ++ ys, rw e (append_assoc conversation x ys), owed_after strict x ys h ∙ k)
