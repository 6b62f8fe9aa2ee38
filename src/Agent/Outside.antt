-- ===== src/Agent/Outside.antt =====
-- The conversation within a turn of pkg/agent/loop.go: what is sent to the model after a batch of tool
-- calls.
use picoclaw.Prelude.{
  String, ◌≡◌, refl, sym, ap, ◌∙◌, inl, inr, Bool, false, not, ◌&&◌, some, List, [], ◌∷◌, ◌++◌,
  append_assoc, append-nil, arith, str_eq, eq_refl, Bool-cases, any,
}
use picoclaw.Llm.{Message, ToolCall, LlmResponse}
use picoclaw.Tools.{ToolResult}
use picoclaw.Tools.Loop.{assistant_message, tool_message}
use picoclaw.Tools.Pairing.{accept, and_then, pending, Paired, Paired-append, ids_of}
use picoclaw.Agent.Plan.{
  PlanState, call_name, is_allowed_tool, summarize_tool_call_for_plan, format_plan_context_message,
}
use picoclaw.Agent.World.{Host, AgentLoop, Active}
use picoclaw.Agent.Planner.{ProcessOptions, generate_execution_plan_bullets, text_message}
use picoclaw.Agent.Turn.{
  Progress, announce, announce_plan, update_plan, execute_tool, after_tool, run_tool_call,
  run_tool_calls, add_assistant, do_tools,
}
use picoclaw.Agent.Orphans.{pending_closed}

-- Whether a call makes the plan longer.
abbrev pub extends_plan : PlanState → ToolCall → Bool
extends_plan plan tc =
    plan.announced && not (str_eq (call_name tc) "") && not (is_allowed_tool (call_name tc) plan)

any_none :
    {A : Type 0} (p : A → Bool) (x : A) (xs : List A)
    → any p (x ∷ xs) ≡ false
    → (p x ≡ false) × (any p xs ≡ false)
any_none p x xs h = ground arith

module _ {W P Callback : Type 0} (host : Host W P Callback) (opts : ProcessOptions W) where
  update_plan_within :
      (tc : ToolCall) (s : Progress W P Callback)
      → extends_plan s.plan tc ≡ false
      → update_plan host opts tc s ≡ s
  unfolding update_plan
  update_plan_within tc s allowed = rw allowed refl

  plan-after_tool :
      (tc : ToolCall) (r : AgentLoop W P Callback × ToolResult) (s : Progress W P Callback)
      → (after_tool host opts tc r s).plan ≡ s.plan
  unfolding after_tool
  plan-after_tool tc (al, tr) s = refl

  pub messages-after_tool :
      (tc : ToolCall) (r : AgentLoop W P Callback × ToolResult) (s : Progress W P Callback)
      → (after_tool host opts tc r s).messages ≡ s.messages ++ tool_message tc.id r.1 ∷ []
  unfolding after_tool
  messages-after_tool tc (al, tr) s = refl

  run_tool_call_within :
      (tc : ToolCall) (s : Progress W P Callback)
      → extends_plan s.plan tc ≡ false
      → ((run_tool_call host opts tc s).plan ≡ s.plan)
        × ((tr : ToolResult) × ((run_tool_call host opts tc s).messages
              ≡ s.messages ++ tool_message tc.id tr ∷ []))
  unfolding run_tool_call
  run_tool_call_within tc s allowed =
      let same = update_plan_within tc s allowed in
      let s' = update_plan host opts tc s in
      let r = execute_tool host opts tc s'.al in
      (
        plan-after_tool tc r s' ∙ ap (λ t. t.plan) same,
        (
          r.1,
          messages-after_tool tc r s' ∙ ap (λ t. t.messages ++ tool_message tc.id r.1 ∷ []) same,
        ),
      )

  run_tool_calls_within :
      (tcs : List ToolCall) (s : Progress W P Callback)
      → any (extends_plan s.plan) tcs ≡ false
      → (ms : List Message) × ((run_tool_calls host opts tcs s).messages ≡ s.messages ++ ms)
        × (pending (ids_of tcs) ms ≡ some [])
  unfolding run_tool_calls pending accept and_then tool_message
  run_tool_calls_within [] s allowed = ([], sym (append-nil s.messages), refl)
  run_tool_calls_within (tc ∷ tcs) s allowed =
      let s' = run_tool_call host opts tc s in
      let (this, others) = any_none (extends_plan s.plan) tc tcs allowed in
      let (plan, (tr, first)) = run_tool_call_within tc s this in
      let (ms, later, closed) = run_tool_calls_within tcs s' (rw plan others) in
      (
        tool_message tc.id tr ∷ ms,
        later ∙ ap (λ xs. xs ++ ms) first ∙ append_assoc s.messages (tool_message tc.id tr ∷ []) ms,
        rw (eq_refl tc.id) closed,
      )

  -- What the conversation is told when a call makes the plan longer.
  abbrev pub added_context : ToolCall → Progress W P Callback → String
  added_context tc s =
      format_plan_context_message
        (s.plan.bullets ++ summarize_tool_call_for_plan host.base_name tc ∷ [])

  -- Anything that happens after a message leaves it where it is.
  messages-update_plan :
      (tc : ToolCall) (s : Progress W P Callback)
      → (ms : List Message) × ((update_plan host opts tc s).messages ≡ s.messages ++ ms)
  unfolding update_plan
  messages-update_plan tc s = elim (Bool-cases (extends_plan s.plan tc)) [
    | inl longer ↦ (text_message "system" (added_context tc s) ∷ [], rw longer refl)
    | inr within ↦ ([], rw within (sym (append-nil s.messages)))
  ]

  messages-run_tool_call :
      (tc : ToolCall) (s : Progress W P Callback)
      → (ms : List Message) × ((run_tool_call host opts tc s).messages ≡ s.messages ++ ms)
  unfolding run_tool_call
  messages-run_tool_call tc s =
      let s' = update_plan host opts tc s in
      let r = execute_tool host opts tc s'.al in
      let (ms, first) = messages-update_plan tc s in
      (
        ms ++ tool_message tc.id r.1 ∷ [],
        messages-after_tool tc r s'
            ∙ ap (λ xs. xs ++ tool_message tc.id r.1 ∷ []) first
            ∙ append_assoc s.messages ms (tool_message tc.id r.1 ∷ []),
      )

  pub messages-run_tool_calls :
      (tcs : List ToolCall) (s : Progress W P Callback)
      → (ms : List Message) × ((run_tool_calls host opts tcs s).messages ≡ s.messages ++ ms)
  unfolding run_tool_calls
  messages-run_tool_calls [] s = ([], sym (append-nil s.messages))
  messages-run_tool_calls (tc ∷ tcs) s =
      let (xs, first) = messages-run_tool_call tc s in
      let (ys, later) = messages-run_tool_calls tcs (run_tool_call host opts tc s) in
      (xs ++ ys, later ∙ ap (λ ms. ms ++ ys) first ∙ append_assoc s.messages xs ys)

  messages-announce :
      (tcs : List ToolCall) (r : AgentLoop W P Callback × (List String × String))
      (messages : List Message) (plan : PlanState)
      → (ms : List Message) × ((announce host opts tcs r messages plan).messages ≡ messages ++ ms)
        × (pending [] ms ≡ some [])
  unfolding announce pending accept and_then text_message
  messages-announce tcs (al, (bullets, model)) messages plan =
      (text_message "system" (format_plan_context_message bullets) ∷ [], refl, refl)

  Paired-announce_plan :
      (active : Active P) (tcs : List ToolCall) (s : Progress W P Callback)
      → Paired s.messages
      → Paired (announce_plan host opts active tcs s).messages
  unfolding announce_plan
  Paired-announce_plan active tcs s paired = elim (Bool-cases s.plan.announced) [
    | inl before ↦ simp before paired
    | inr first ↦
        let (ms, grown, closed) =
          messages-announce tcs (generate_execution_plan_bullets host opts active tcs s.al)
            s.messages s.plan in
        simp (first, grown) (pending_closed [] s.messages ms closed paired)
  ]

  -- After a batch of tool calls that stay within the plan, as it is once it has been announced, the
  -- conversation has every call answered, in order, if it had before.
  pub do_tools-Paired :
      (active : Active P) (response : LlmResponse) (s : Progress W P Callback)
      → Paired s.messages
      → any
          (extends_plan (announce_plan host opts active response.tool_calls s).plan)
          response.tool_calls
        ≡ false
      → Paired (do_tools host opts active response s).messages
  unfolding do_tools add_assistant
  do_tools-Paired active response s paired within =
      let s1 = announce_plan host opts active response.tool_calls s in
      let (ms, grown, closed) =
        run_tool_calls_within response.tool_calls (add_assistant host opts response s1) within in
      rw (grown, append_assoc s1.messages (assistant_message host.marshal response ∷ []) ms)
        (Paired-append host.marshal response response.tool_calls s1.messages ms refl
          (Paired-announce_plan active response.tool_calls s paired) closed)
