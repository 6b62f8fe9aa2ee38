-- ===== src/Agent/TurnCalls.antt =====
-- How often the turn of pkg/agent/loop.go as a whole calls the model.
use picoclaw.Prelude.{
  ℕ, zero, suc, ◌+◌, ◌*◌, ◌≤◌, ◌≡◌, refl, inl, inr, Bool, true, false, some, List, arith,
  Option-cases, ltb, length,
}
use Prim.Native.Nat.{min}
use picoclaw.Prelude.Int.{pos_part}
use picoclaw.Llm.{Message, LlmResponse}
use picoclaw.Tools.{ToolRegistry}
use picoclaw.Agent.Plan.{PlanState, new_execution_plan_state}
use picoclaw.Agent.World.{Host, AgentLoop, Active, Called, got, fails}
use picoclaw.Agent.Calls.{call_model}
use picoclaw.Agent.Planner.{ActionStream, ProcessOptions}
use picoclaw.Agent.Turn.{
  Progress, TurnEnd, answered, failed, do_tools, settle, next_iteration, llm_loop, forced,
  run_llm_iteration,
}
use picoclaw.Agent.ChatCalls.{IsTally, Within, Within-call_model}
use picoclaw.Agent.BatchCalls.{due, due_at_most, Going, Going-do_tools}

module _ {W P Callback : Type 0} (host : Host W P Callback) (opts : ProcessOptions W)
    (tools : ToolRegistry W Callback) (tally : W → ℕ) (counts : IsTally host opts tools tally) where
  abbrev Kept : ℕ → AgentLoop W P Callback → Type 0
  Kept n al = Within host opts tools tally counts n al

  Kept-settle :
      (continue : Progress W P Callback → AgentLoop W P Callback × TurnEnd) (n more i : ℕ)
      (active : Active P) (response : LlmResponse) (s : Progress W P Callback) (calls : Bool)
      → ((k : ℕ) (s' : Progress W P Callback)
          → Going host opts tools tally counts k s'
          → Kept (k + more) (continue s').0)
      → Kept n s.al
      → Kept (n + due s.plan + more) (settle host opts continue i active response s calls).0
  unfolding settle
  Kept-settle continue n more i active response s false goes (same, h) = (same, omega arith)
  Kept-settle continue n more i active response s true goes kept =
      goes (n + due s.plan) (do_tools host opts active response s)
        (Going-do_tools host opts tools tally counts active response n s kept)

  Kept-next_iteration :
      (continue : Progress W P Callback → AgentLoop W P Callback × TurnEnd) (n more i : ℕ)
      (messages : List Message) (plan : PlanState) (r : AgentLoop W P Callback × Called P)
      → ((k : ℕ) (s' : Progress W P Callback)
          → Going host opts tools tally counts k s'
          → Kept (k + more) (continue s').0)
      → Kept n r.0
      → Kept (n + due plan + more) (next_iteration host opts continue i messages plan r).0
  unfolding next_iteration
  Kept-next_iteration continue n more i messages plan (al, fails e) goes (same, h) =
      (same, omega arith)
  Kept-next_iteration continue n more i messages plan (al, got active response) goes kept =
      Kept-settle continue n more i active response
        (record { al = al; messages = messages; plan = plan }) (ltb 0 (length response.tool_calls))
        goes kept

  Kept-llm_loop :
      (left i n : ℕ) (s : Progress W P Callback)
      → Kept n s.al
      → Kept (n + (2 * left + min left (due s.plan))) (llm_loop host opts left i s).0
  unfolding llm_loop
  Kept-llm_loop zero i n s (same, h) = (same, omega arith)
  Kept-llm_loop (suc left) i n s kept =
      let (same, spent) =
        Kept-next_iteration (λ s'. llm_loop host opts left (suc i) s') (suc (suc n)) (2 * left)
          (suc i) s.messages s.plan
          (call_model host opts.session_key opts.channel opts.chat_id s.messages s.al)
          (λ k s' going.
            let (same, spent) = Kept-llm_loop left (suc i) k s' going.0 in
            let planned : due s'.plan ≡ 0 = rw going.1 refl in
            (same, omega (arith, spent, planned)))
          (Within-call_model host opts tools tally counts opts.session_key opts.channel opts.chat_id
            s.messages n s.al kept) in
      (same, omega (arith, spent, due_at_most s.plan))

  Kept-updated :
      (stream : ActionStream W) (shown : opts.action_stream ≡ some stream)
      (al : AgentLoop W P Callback) (ended : TurnEnd) (n : ℕ)
      → Kept n al
      → Kept n (forced host opts (some stream) (al, ended)).0
  unfolding forced
  Kept-updated stream shown al (failed e i) n kept = kept
  Kept-updated stream shown al (answered content i) n (same, h) =
      (same, omega (arith, h, counts.by_update stream al.world shown))

  Kept-forced :
      (r : AgentLoop W P Callback × TurnEnd) (n : ℕ)
      → Kept n r.0
      → Kept n (forced host opts opts.action_stream r).0
  unfolding forced
  Kept-forced (al, ended) n (same, h) = elim (Option-cases opts.action_stream) [
    | inl silent ↦ rw silent (same, h)
    | inr (stream, shown) ↦ rw shown (Kept-updated stream shown al ended n (same, h))
  ]

  -- Where the tools and the stream of actions themselves make no calls of the model, a turn makes at
  -- most two for each iteration that maxIterations allows, and one more for its plan, and none at all
  -- when the limit is not positive.
  pub run_llm_iteration-chat_calls :
      (messages : List Message) (al : AgentLoop W P Callback)
      → al.tools ≡ tools
      → tally (run_llm_iteration host opts messages al).0.world
        ≤ tally al.world + (2 * pos_part al.max_iterations + min (pos_part al.max_iterations) 1)
  unfolding run_llm_iteration
  run_llm_iteration-chat_calls messages al same =
      let start : Progress W P Callback = record {
        al = al;
        messages = messages;
        plan = new_execution_plan_state;
      } in
      let max = pos_part al.max_iterations in
      (Kept-forced (llm_loop host opts max 0 start) _
        (Kept-llm_loop max 0 (tally al.world) start (same, omega arith))).1
