-- ===== src/Agent/BatchCalls.antt =====
-- What a batch of tool calls in pkg/agent/loop.go adds to the calls of the model: that of the planner.
use picoclaw.Prelude.{
  ℕ, suc, ◌+◌, ◌≤◌, String, ◌≡◌, refl, ap, ◌∙◌, inl, inr, Bool, true, false, not, ◌&&◌, ◌||◌,
  Option, none, some, List, [], ◌∷◌, arith, str_eq, if◌then◌else◌, Bool-cases,
}
use picoclaw.Prelude.Text.{trim_space}
use picoclaw.Bus.{OutboundMessage}
use picoclaw.Llm.{Message, ToolCall, LlmResponse}
use picoclaw.Tools.{ToolRegistry, ToolResult, execute_with_context}
use picoclaw.Agent.Plan.{PlanState, call_name, is_allowed_tool}
use picoclaw.Agent.World.{Reply, replied, erred, Host, AgentLoop, Active, plain}
use picoclaw.Agent.Calls.{publish}
use picoclaw.Agent.Planner.{ProcessOptions, parsed_or, ask_planner, generate_execution_plan_bullets}
use picoclaw.Agent.Turn.{
  Progress, store_plan, publish_if, announce, announce_plan, update_plan, started, execute_tool,
  show_result, after_tool, keep_message, run_tool_call, run_tool_calls, add_assistant, do_tools,
}
use picoclaw.Agent.ChatCalls.{IsTally, Within, Within-publish}

-- The call of the planner that is still to come.
abbrev pub due : PlanState → ℕ
due plan = if plan.announced then 0 else 1

pub due_at_most : (plan : PlanState) → due plan ≤ 1
due_at_most plan = ground arith

module _ {W P Callback : Type 0} (host : Host W P Callback) (opts : ProcessOptions W)
    (tools : ToolRegistry W Callback) (tally : W → ℕ) (counts : IsTally host opts tools tally) where
  abbrev Kept : ℕ → AgentLoop W P Callback → Type 0
  Kept n al = Within host opts tools tally counts n al

  Kept-parsed_or :
      (fallback : List String) (active_model model : String) (r : AgentLoop W P Callback × Reply)
      (n : ℕ)
      → Kept n r.0
      → Kept n (parsed_or host opts fallback active_model model r).0
  unfolding parsed_or
  Kept-parsed_or fallback active_model model (al, erred e) n kept = kept
  Kept-parsed_or fallback active_model model (al, replied response) n kept = kept

  Kept-ask_planner :
      (tcs : List ToolCall) (fallback : List String) (active_model model : String) (p : Option P)
      (n : ℕ) (al : AgentLoop W P Callback)
      → Kept n al
      → Kept (suc n) (ask_planner host opts tcs fallback active_model model p al).0
  unfolding ask_planner
  Kept-ask_planner tcs fallback active_model model none n al (same, h) = (same, omega arith)
  Kept-ask_planner tcs fallback active_model model (some p) n al (same, h) =
      Kept-parsed_or fallback active_model model _ (suc n) (same, omega (arith, h, counts.by_chat))

  Kept-generate_execution_plan_bullets :
      (active : Active P) (tcs : List ToolCall) (n : ℕ) (al : AgentLoop W P Callback)
      → Kept n al
      → Kept (suc n) (generate_execution_plan_bullets host opts active tcs al).0
  unfolding generate_execution_plan_bullets
  Kept-generate_execution_plan_bullets active tcs n al (same, h) =
      elim (Bool-cases (not al.planner_enabled || str_eq (trim_space al.planner_model) "")) [
        | inl off ↦ simp off (same, omega arith)
        | inr on ↦ simp on (Kept-ask_planner tcs _ active.model _ _ n al (same, h))
      ]

  same-store_plan :
      (file : Option (String × String)) (al : AgentLoop W P Callback)
      → ((store_plan host opts file al).0.tools ≡ al.tools)
        × (tally (store_plan host opts file al).0.world ≡ tally al.world)
  unfolding store_plan
  same-store_plan none al = (refl, refl)
  same-store_plan (some (path, content)) al = (refl, counts.by_put_file path content al.world)

  same-publish_if :
      (test : Bool) (ms : List OutboundMessage) (al : AgentLoop W P Callback)
      → ((publish_if host opts test ms al).tools ≡ al.tools)
        × (tally (publish_if host opts test ms al).world ≡ tally al.world)
  unfolding publish_if publish
  same-publish_if test [] al = (refl, refl)
  same-publish_if true (m ∷ ms) al =
      let rest = same-publish_if true ms (publish host m al) in
      (rest.0, rest.1 ∙ counts.by_publish m al.world)
  same-publish_if false (m ∷ ms) al = (refl, refl)

  tools-publish_if :
      (test : Bool) (ms : List OutboundMessage) (al : AgentLoop W P Callback)
      → (publish_if host opts test ms al).tools ≡ al.tools
  tools-publish_if test ms al = (same-publish_if test ms al).0

  tally-publish_if :
      (test : Bool) (ms : List OutboundMessage) (al : AgentLoop W P Callback)
      → tally (publish_if host opts test ms al).world ≡ tally al.world
  tally-publish_if test ms al = (same-publish_if test ms al).1

  tools-store_plan :
      (file : Option (String × String)) (al : AgentLoop W P Callback)
      → (store_plan host opts file al).0.tools ≡ al.tools
  tools-store_plan file al = (same-store_plan file al).0

  tally-store_plan :
      (file : Option (String × String)) (al : AgentLoop W P Callback)
      → tally (store_plan host opts file al).0.world ≡ tally al.world
  tally-store_plan file al = (same-store_plan file al).1

  Kept-announce :
      (tcs : List ToolCall) (r : AgentLoop W P Callback × (List String × String))
      (messages : List Message) (plan : PlanState) (n : ℕ)
      → Kept n r.0
      → Kept n (announce host opts tcs r messages plan).al
        × ((announce host opts tcs r messages plan).plan.announced ≡ true)
  unfolding announce
  Kept-announce tcs (al, (bullets, model)) messages plan n kept = (
    (
      rw (tools-publish_if, tools-store_plan) kept.0,
      rw (tally-publish_if, tally-store_plan) kept.1,
    ),
    refl,
  )

  Kept-announce_plan :
      (active : Active P) (tcs : List ToolCall) (n : ℕ) (s : Progress W P Callback)
      → Kept n s.al
      → Kept (n + due s.plan) (announce_plan host opts active tcs s).al
        × ((announce_plan host opts active tcs s).plan.announced ≡ true)
  unfolding announce_plan
  Kept-announce_plan active tcs n s (same, h) = elim (Bool-cases s.plan.announced) [
    | inl before ↦ simp before ((same, omega arith), refl)
    | inr first ↦
        let (kept, announced) =
          Kept-announce tcs (generate_execution_plan_bullets host opts active tcs s.al) s.messages
            s.plan (suc n) (Kept-generate_execution_plan_bullets active tcs n s.al (same, h)) in
        simp first ((kept.0, omega (arith, kept.1)), announced)
  ]

  -- In the rest of a batch the plan stays announced.
  abbrev pub Going : ℕ → Progress W P Callback → Type 0
  Going n s = Kept n s.al × (s.plan.announced ≡ true)

  Going-update_plan :
      (tc : ToolCall) (n : ℕ) (s : Progress W P Callback)
      → Going n s
      → Going n (update_plan host opts tc s)
  unfolding update_plan
  Going-update_plan tc n s (kept, announced) =
      elim (Bool-cases (
        s.plan.announced
        && not (str_eq (call_name tc) "")
        && not (is_allowed_tool (call_name tc) s.plan))) [
          | inl extends ↦
              simp extends ((rw tools-publish_if kept.0, rw tally-publish_if kept.1), announced)
          | inr allowed ↦ simp allowed (kept, announced)
        ]

  Kept-execute_tool :
      (tc : ToolCall) (n : ℕ) (al : AgentLoop W P Callback)
      → Kept n al
      → Kept n (execute_tool host opts tc al).0
  unfolding execute_tool
  Kept-execute_tool tc n al (same, h) =
      let w = (started host opts tc opts.action_stream al.world).0 in
      let r =
        execute_with_context host.quote al.tools tc.name tc.arguments opts.channel opts.chat_id
          (some host.log_only) w in
      let quiet : tally r.0 ≡ tally w =
        ap
          (λ ts.
            tally
              (execute_with_context host.quote ts tc.name tc.arguments opts.channel opts.chat_id
                (some host.log_only) w).0)
          same
        ∙ counts.by_tool tc.name tc.arguments w in
      (
        same,
        omega (
          arith,
          h,
          quiet,
          counts.by_start tc al.world,
          counts.by_completion (started host opts tc opts.action_stream al.world).1 r.1 r.0,
        ),
      )

  Kept-show_result :
      (tr : ToolResult) (n : ℕ) (al : AgentLoop W P Callback)
      → Kept n al
      → Kept n (show_result host opts tr al)
  unfolding show_result
  Kept-show_result tr n al kept =
      elim (Bool-cases (not tr.silent && not (str_eq tr.for_user "") && opts.send_response)) [
        | inl shown ↦ simp shown (
            Within-publish host opts tools tally counts
              (plain opts.channel opts.chat_id tr.for_user) n al kept)
        | inr hidden ↦ simp hidden kept
      ]

  Going-after_tool :
      (tc : ToolCall) (r : AgentLoop W P Callback × ToolResult) (n : ℕ) (s : Progress W P Callback)
      → Kept n r.0
      → s.plan.announced ≡ true
      → Going n (after_tool host opts tc r s)
  unfolding after_tool keep_message
  Going-after_tool tc (al, tr) n s kept announced = (Kept-show_result tr n al kept, announced)

  Going-run_tool_calls :
      (tcs : List ToolCall) (n : ℕ) (s : Progress W P Callback)
      → Going n s
      → Going n (run_tool_calls host opts tcs s)
  unfolding run_tool_calls run_tool_call
  Going-run_tool_calls [] n s going = going
  Going-run_tool_calls (tc ∷ tcs) n s going =
      let s' = update_plan host opts tc s in
      let going' = Going-update_plan tc n s going in
      let r = execute_tool host opts tc s'.al in
      Going-run_tool_calls tcs n (after_tool host opts tc r s')
        (Going-after_tool tc r n s' (Kept-execute_tool tc n s'.al going'.0) going'.1)

  pub Going-do_tools :
      (active : Active P) (response : LlmResponse) (n : ℕ) (s : Progress W P Callback)
      → Kept n s.al
      → Going (n + due s.plan) (do_tools host opts active response s)
  unfolding do_tools add_assistant keep_message
  Going-do_tools active response n s kept =
      Going-run_tool_calls response.tool_calls (n + due s.plan)
        (add_assistant host opts response (announce_plan host opts active response.tool_calls s))
        (Kept-announce_plan active response.tool_calls n s kept)
