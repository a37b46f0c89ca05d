-- ===== src/Agentic/Pairing.antt =====
-- The results that the loop over the tool calls of a response gives to the conversation.
use agnx.Session.Event.{PendingApproval}
use agnx.Agentic.Outcomes.{Settles, execute_tool_call-Fits, Fits, NeverAsks}
use agnx.Tools.Executor.{Environment}
use agnx.Tools.Json.{Json}
use agnx.Common.{
  String, ◌≡◌, ◌∙◌, Bool, some, List, [], ◌∷◌, refl, inl, inr, true, Option, none, arith, if_both,
}
use agnx.Agentic.Answers.{
  Owes, Owes-after, settle_first, owed_result, owed-skipped_after, owed_by, owed_user,
}
use agnx.Session.Message.{tool_result, Message, Role, text, ToolCall}
use agnx.Agentic.{
  executed, paused, into_messages, ToolCallOutcome, AgentSpec, World, SteeringMessage, LoopState,
  ToolsOutcome, next, wait, skipped,
}
use agnx.Agentic.Calls.{
  persist, steering_list, count, run_tool_calls, push, after_call, check_steering,
  inject_steered_messages, skip,
}
use agnx.Agentic.Answers.{Owes, Owes-after, owed, call_ids, owed-skipped}

module _ (strict : Bool) where
  -- A call's outcome settles the call.
  owed_outcome :
      (call : ToolCall) (ids : List String) (m : Message) (steering : Option Message)
      → Settles strict call m steering
      → owed strict (call.id ∷ ids) (m ∷ steering_list steering) ≡ some ids
  unfolding owed owed_by
  owed_outcome call ids m none ((content, e), s) = rw (e, settle_first call.id ids) refl
  owed_outcome call ids m (some n) ((content, e), inl s) = absurd (ground (arith, s))
  owed_outcome call ids m (some n) ((content, e), inr (t, s, loose)) =
      let s' : n ≡ text Role.steering t = cc in rw (e, settle_first call.id ids, s', loose) refl

module _ (strict : Bool) (conversation : List Message) (requests : List (List Message)) where
  -- The calls `ids` want results, and `requests` were sent.
  abbrev pub Holds : {V : Type 0} → List String → LoopState V → Type 0
  Holds ids st = Owes strict conversation st.messages ids × (st.requests ≡ requests)

  -- No call wants a result when the loop goes on, and only the call that waits for approval wants
  -- one when it pauses.
  abbrev pub Paired : {V : Type 0} → ToolsOutcome V × LoopState V → Type 0
  Paired (next reload, st) = Holds [] st
  Paired (wait p, st) =
      Owes strict conversation p.messages (p.call_id ∷ []) × (st.requests ≡ requests)

module _ {V : Type 0} (strict : Bool) (conversation : List Message)
    (requests : List (List Message)) where
  abbrev Held : List String → LoopState V → Type 0
  Held ids st = Holds strict conversation requests ids st

  pub inject-Holds :
      (steered : List SteeringMessage) (st : LoopState V)
      → Held [] st
      → Held [] (inject_steered_messages steered st)
  unfolding inject_steered_messages
  inject-Holds [] st h = h
  inject-Holds (m ∷ steered) st (h, r) =
      let user_message = text Role.user m.content in
      let h' =
        Owes-after strict conversation st.messages (user_message ∷ []) h
          (owed_user strict m.content) in
      let pushed : LoopState V → LoopState V = push (user_message ∷ []) in
      if_both (λ (s : LoopState V). Held [] (inject_steered_messages steered (pushed s)))
        m.persisted {x = st} {y = persist m st} (inject-Holds steered (pushed st) (h', r))
        (inject-Holds steered (pushed (persist m st)) (h', r))

  skip-Holds :
      (reason : String) (calls : List ToolCall) (st : LoopState V)
      → Held (call_ids (some calls)) st
      → Held [] (skip reason calls st)
  unfolding skip skipped
  skip-Holds reason [] st (h, r) =
      (Owes-after strict conversation st.messages [] h (owed-skipped strict reason []), r)
  skip-Holds reason (c ∷ calls) st (h, r) = (
    Owes-after strict conversation st.messages (skipped reason (c ∷ calls)) h
        (owed-skipped strict reason (c ∷ calls)),
    r,
  )

  skip-requests :
      (reason : String) (calls : List ToolCall) (st : LoopState V)
      → (skip reason calls st).requests ≡ st.requests
  unfolding skip
  skip-requests reason [] st = refl
  skip-requests reason (c ∷ calls) st = refl

  abbrev Goes : (LoopState V → ToolsOutcome V × LoopState V) → List ToolCall → Type 0
  Goes rest calls =
      (s : LoopState V)
      → Held (call_ids (some calls)) s
      → Paired strict conversation requests (rest s)

  check_steering-Paired :
      (rest : LoopState V → ToolsOutcome V × LoopState V) (calls : List ToolCall) (reload : Bool)
      (st : LoopState V) (steered : List SteeringMessage)
      → Goes rest calls
      → Held (call_ids (some calls)) st
      → Paired strict conversation requests (check_steering rest calls reload st steered)
  unfolding check_steering
  check_steering-Paired rest calls reload st [] ih h = ih st h
  check_steering-Paired rest calls reload st (m ∷ steered) ih h =
      inject-Holds (m ∷ steered) _ (skip-Holds _ calls st h)

  after_call-Paired :
      (world : World) (call : ToolCall) (calls : List ToolCall) (reload : Bool)
      (rest : LoopState V → ToolsOutcome V × LoopState V) (messages : List Message)
      (o : ToolCallOutcome V) (st : LoopState V)
      → Goes rest calls
      → Owes strict conversation messages (call.id ∷ call_ids (some calls))
      → Fits strict call messages o
      → st.messages ≡ messages
      → st.requests ≡ requests
      → Paired strict conversation requests (after_call world rest calls reload (o, st))
  unfolding after_call
  after_call-Paired world call calls reload rest messages (paused p) st ih h (same_id, same) e r = (
    rw (same, same_id)
        (Owes-after strict conversation messages (skipped "approval required" calls) h
          (owed-skipped_after strict "approval required" call.id calls)),
    skip-requests "approval required" calls st ∙ r,
  )
  after_call-Paired world call calls reload rest messages (executed m steering) st ih h fits e r =
      check_steering-Paired rest calls reload _ _ ih (
        rw e (
            Owes-after strict conversation messages (m ∷ steering_list steering) h
              (owed_outcome strict call (call_ids (some calls)) m steering fits)),
        r,
      )

module _ {V : Type 0} (json : Json V) (env : Environment) (world : World) (spec : AgentSpec V)
    (plain : NeverAsks env) (strict : Bool) (no_hooks : strict ≡ true → spec.hooks.after_tool ≡ [])
    (conversation : List Message) (requests : List (List Message)) where
  -- If the calls of a response are what the messages behind the conversation want results for, no tool
  -- asks for approval by itself, and with `strict` there are no hooks after the tools, then the loop
  -- over the calls leaves no call without a result and gives none twice; where it pauses, the pending
  -- conversation wants a result for the call that waits and for no other; and it sends no request.
  pub run_tool_calls-Paired :
      (calls : List ToolCall) (reload : Bool) (st : LoopState V)
      → Holds strict conversation requests (call_ids (some calls)) st
      → Paired strict conversation requests (run_tool_calls json env world spec calls reload st)
  unfolding run_tool_calls
  run_tool_calls-Paired [] reload st h = h
  run_tool_calls-Paired (call ∷ calls) reload st (h, r) =
      let (fits, same) =
        execute_tool_call-Fits json env world spec plain strict no_hooks call (count st) in
      after_call-Paired strict conversation requests world call calls _ _ st.messages _ _
        (run_tool_calls-Paired calls _) h fits same.0 (same.1 ∙ r)

-- The result of the call that waited makes the pending conversation whole again.
pub into_messages-Owes :
    {V : Type 0} (strict : Bool) (conversation : List Message) (p : PendingApproval V)
    (content : String)
    → Owes strict conversation p.messages (p.call_id ∷ [])
    → Owes strict conversation (into_messages p content) []
unfolding into_messages
into_messages-Owes strict conversation p content h =
    Owes-after strict conversation p.messages (tool_result p.call_id content ∷ []) h
      (owed_result strict p.call_id content [])
