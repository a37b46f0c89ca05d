-- ===== src/Agentic/Conversation.antt =====
-- The conversation that the agentic loop sends to the model, from its start or resumed.
use agnx.Session.Event.{PendingApproval, ToolResultData}
use agnx.Agentic.Outcomes.{NeverAsks}
use agnx.Common.{
  String, ◌≡◌, refl, true, Option, none, some, List, [], ◌∷◌, Result, sym, ap, ◌∙◌, ◌++◌,
  append-nil, append_assoc,
}
use agnx.Session.Message.{Message, ToolCall}
use agnx.Session.Commands.{SessionCommand}
use agnx.Tools.Json.{Json}
use agnx.Tools.Executor.{ToolExecutor, Environment}
use agnx.Agentic.{into_messages, World, AgentSpec, LoopState, AgenticError, AgenticResult}
use agnx.Agentic.Loop.{run_agentic_loop, resume_agentic_loop, start}
use agnx.Agentic.Answers.{IsAnswered, owed_after, owed, Owes}
use agnx.Agentic.Pairing.{into_messages-Owes}
use agnx.Agentic.Requests.{AllAnswered, IsResumable, Ends, agentic_loop-Ends}

owed_append-IsAnswered :
    (x y : List Message) → IsAnswered true x → IsAnswered true y → IsAnswered true (x ++ y)
owed_append-IsAnswered x y h k = owed_after true x y h ∙ k

module _ {V : Type 0} (json : Json V) (env : Environment) (world : World) (spec : AgentSpec V)
    (to_json : List ToolCall → Option String) (plain : NeverAsks env)
    (no_hooks : spec.hooks.after_tool ≡ []) where
  Ends-result :
      (conversation : List Message)
      (o : Option (Result (AgenticResult V) AgenticError) × LoopState V)
      → Ends conversation o
      → AllAnswered conversation o.1.requests × IsResumable conversation o.0
  Ends-result conversation (none, st) h = (h.1, tt)
  Ends-result conversation (some r, st) h = h

  -- If no tool asks for approval by itself and there are no hooks after the tools, then every request
  -- that the loop sends to the model starts with the initial messages unchanged, and behind them each
  -- response with tool calls is followed by exactly one result for each of its calls before anything
  -- else; and where the loop pauses for approval, the pending messages are of this form but for the
  -- call that waits, which alone has no result yet.
  pub run_agentic_loop-IsAnswered :
      (executor : ToolExecutor) (commands : List (SessionCommand V)) (initial : List Message)
      → AllAnswered initial
          (run_agentic_loop json env world spec to_json executor commands initial).1.requests
        × IsResumable initial
            (run_agentic_loop json env world spec to_json executor commands initial).0
  unfolding run_agentic_loop owed
  run_agentic_loop-IsAnswered executor commands initial = Ends-result initial _ (
      agentic_loop-Ends json env world spec to_json initial plain no_hooks _
        (start json env world spec executor commands initial)
        (([], sym (append-nil initial), refl), tt))

  extend :
      (conversation p : List Message)
      → Owes true conversation p []
      → (requests : List (List Message)) → AllAnswered p requests
      → AllAnswered conversation requests
  extend conversation p h [] a = tt
  extend conversation p (x, e, h) (r ∷ rs) ((y, d, k), a) = (
    (
      x ++ y,
      d ∙ (ap (λ l. l ++ y) e ∙ append_assoc conversation x y),
      owed_append-IsAnswered x y h k,
    ),
    extend conversation p (x, e, h) rs a,
  )

  -- Under the same conditions, a loop that is resumed with the result of the call that waited sends
  -- only requests in which every call behind the first conversation has its result.
  pub resume_agentic_loop-IsAnswered :
      (executor : ToolExecutor) (commands : List (SessionCommand V)) (conversation : List Message)
      (p : PendingApproval V) (result : ToolResultData)
      → Owes true conversation p.messages (p.call_id ∷ [])
      → AllAnswered conversation
          (resume_agentic_loop json env world spec to_json executor commands p result).1.requests
  unfolding resume_agentic_loop
  resume_agentic_loop-IsAnswered executor commands conversation p result h =
      extend conversation (into_messages p result.content)
        (into_messages-Owes true conversation p result.content h) _
        (run_agentic_loop-IsAnswered executor _ (into_messages p result.content)).0
