-- ===== src/Agent/Interrupted.antt =====
-- A batch of tool calls in pkg/agent/loop.go that makes the announced plan longer.
use picoclaw.Prelude.{String, ◌≡◌, refl, ap, ◌∙◌, true, none, some, List, [], ◌∷◌, ◌++◌}
use picoclaw.Llm.{Message, ToolCall, LlmResponse}
use picoclaw.Tools.Loop.{assistant_message, tool_message}
use picoclaw.Tools.Pairing.{
  accept, and_then, pending, pending-append, Paired, ids_of, ids_of-repeated_call,
}
use picoclaw.Agent.World.{Host, Active}
use picoclaw.Agent.Planner.{ProcessOptions, text_message}
use picoclaw.Agent.Turn.{
  Progress, announce_plan, update_plan, execute_tool, after_tool, run_tool_call, run_tool_calls,
  add_assistant, do_tools,
}
use picoclaw.Agent.Outside.{
  extends_plan, added_context, messages-after_tool, messages-run_tool_calls,
}

module _ {W P Callback : Type 0} (host : Host W P Callback) (opts : ProcessOptions W) where
  pending_stays_none :
      (ids : List String) (xs ys : List Message)
      → pending ids xs ≡ none
      → pending ids (xs ++ ys) ≡ none
  unfolding and_then
  pending_stays_none ids xs ys h = rw (pending-append ids xs ys, h) refl

  longer-update_plan :
      (tc : ToolCall) (s : Progress W P Callback)
      → extends_plan s.plan tc ≡ true
      → (update_plan host opts tc s).messages
        ≡ s.messages ++ text_message "system" (added_context host opts tc s) ∷ []
  unfolding update_plan
  longer-update_plan tc s longer = rw longer refl

  interrupted :
      (tc : ToolCall) (id : String) (ids : List String) (s : Progress W P Callback)
      → extends_plan s.plan tc ≡ true
      → pending [] s.messages ≡ some (id ∷ ids)
      → pending [] (update_plan host opts tc s).messages ≡ none
  unfolding pending accept and_then text_message
  interrupted tc id ids s longer opened =
      rw
        (
          longer-update_plan tc s longer,
          pending-append [] s.messages (text_message "system" (added_context host opts tc s) ∷ []),
          opened,
        )
        refl

  interrupted-run_tool_calls :
      (tc : ToolCall) (tcs : List ToolCall) (id : String) (ids : List String)
      (s : Progress W P Callback)
      → extends_plan s.plan tc ≡ true
      → pending [] s.messages ≡ some (id ∷ ids)
      → pending [] (run_tool_calls host opts (tc ∷ tcs) s).messages ≡ none
  unfolding run_tool_calls run_tool_call
  interrupted-run_tool_calls tc tcs id ids s longer opened =
      let s' = update_plan host opts tc s in
      let r = execute_tool host opts tc s'.al in
      let (ms, later) = messages-run_tool_calls host opts tcs (run_tool_call host opts tc s) in
      rw later (
        pending_stays_none [] (after_tool host opts tc r s').messages ms (
          rw (messages-after_tool host opts tc r s') (
            pending_stays_none [] s'.messages (tool_message tc.id r.1 ∷ [])
              (interrupted tc id ids s longer opened))))

  announced_before :
      (active : Active P) (tcs : List ToolCall) (s : Progress W P Callback)
      → s.plan.announced ≡ true
      → announce_plan host opts active tcs s ≡ s
  unfolding announce_plan
  announced_before active tcs s before = simp before refl

  plan_kept :
      (response : LlmResponse) (s : Progress W P Callback) (tc : ToolCall)
      → extends_plan s.plan tc ≡ true
      → extends_plan (add_assistant host opts response s).plan tc ≡ true
  unfolding add_assistant
  plan_kept response s tc longer = longer

  opened-add_assistant :
      (response : LlmResponse) (s : Progress W P Callback)
      → Paired s.messages
      → pending [] (add_assistant host opts response s).messages ≡ some (ids_of response.tool_calls)
  unfolding add_assistant pending accept and_then assistant_message
  opened-add_assistant response s paired =
      let m = assistant_message host.marshal response in
      rw (pending-append [] s.messages (m ∷ []), paired)
        (ap some (ids_of-repeated_call host.marshal response.tool_calls))

  -- When the first call of a batch makes the announced plan longer, a system message stands between the
  -- assistant's calls and their results: the conversation that is sent next has a call unanswered.
  pub do_tools_unpaired :
      (active : Active P) (response : LlmResponse) (s : Progress W P Callback) (tc : ToolCall)
      (tcs : List ToolCall)
      → response.tool_calls ≡ tc ∷ tcs
      → s.plan.announced ≡ true
      → extends_plan s.plan tc ≡ true
      → Paired s.messages
      → pending [] (do_tools host opts active response s).messages ≡ none
  unfolding do_tools
  do_tools_unpaired active response s tc tcs batch before longer paired =
      let s2 = add_assistant host opts response s in
      ap
        (λ t.
          pending []
            (run_tool_calls host opts response.tool_calls
              (add_assistant host opts response t)).messages)
        (announced_before active response.tool_calls s before)
      ∙ ap (λ calls. pending [] (run_tool_calls host opts calls s2).messages) batch
      ∙ interrupted-run_tool_calls tc tcs tc.id (ids_of tcs) s2 (plan_kept response s tc longer)
          (opened-add_assistant response s paired ∙ ap (λ calls. some (ids_of calls)) batch)
