-- ===== src/Agent/Growth.antt =====
-- What the tool calls of a turn of pkg/agent/loop.go add to its session.
use picoclaw.Prelude.{
  String, ◌≡◌, refl, ◌∙◌, inl, inr, Bool, true, false, not, ◌&&◌, ◌||◌, Option, none, some, List,
  [], ◌∷◌, arith, str_eq, eq_refl, Bool-cases,
}
use picoclaw.Llm.{Message, ToolCall, LlmResponse}
use picoclaw.Tools.{ToolResult}
use picoclaw.Tools.Loop.{assistant_message, tool_message}
use picoclaw.Tools.Pairing.{accept, and_then, pending, ids_of, ids_of-repeated_call}
use picoclaw.Prelude.Text.{trim_space}
use picoclaw.Bus.{OutboundMessage}
use picoclaw.Agent.Plan.{PlanState, call_name, is_allowed_tool}
use picoclaw.Agent.Calls.{publish}
use picoclaw.Agent.World.{Reply, replied, erred, Host, AgentLoop, Active}
use picoclaw.Agent.Planner.{ProcessOptions, parsed_or, ask_planner, generate_execution_plan_bullets}
use picoclaw.Agent.Turn.{
  Progress, store_plan, publish_if, announce, announce_plan, update_plan, execute_tool, show_result,
  after_tool, keep_message, run_tool_call, run_tool_calls, add_assistant, do_tools,
}
use picoclaw.Agent.Sessions.{Grows, Grows-nothing, Grows-trans, Grows-from, Grows-add_full_message}

module _ {W P Callback : Type 0} (host : Host W P Callback) (opts : ProcessOptions W) where
  sessions-parsed_or :
      (fallback : List String) (active_model model : String) (r : AgentLoop W P Callback × Reply)
      → (parsed_or host opts fallback active_model model r).0.sessions ≡ r.0.sessions
  unfolding parsed_or
  sessions-parsed_or fallback active_model model (al, erred e) = refl
  sessions-parsed_or fallback active_model model (al, replied response) = refl

  sessions-ask_planner :
      (tcs : List ToolCall) (fallback : List String) (active_model model : String) (p : Option P)
      (al : AgentLoop W P Callback)
      → (ask_planner host opts tcs fallback active_model model p al).0.sessions ≡ al.sessions
  unfolding ask_planner
  sessions-ask_planner tcs fallback active_model model none al = refl
  sessions-ask_planner tcs fallback active_model model (some p) al =
      sessions-parsed_or fallback active_model model _

  sessions-generate_execution_plan_bullets :
      (active : Active P) (tcs : List ToolCall) (al : AgentLoop W P Callback)
      → (generate_execution_plan_bullets host opts active tcs al).0.sessions ≡ al.sessions
  unfolding generate_execution_plan_bullets
  sessions-generate_execution_plan_bullets active tcs al =
      elim (Bool-cases (not al.planner_enabled || str_eq (trim_space al.planner_model) "")) [
        | inl off ↦ simp off refl
        | inr on ↦ simp on (sessions-ask_planner tcs _ active.model _ _ al)
      ]

  sessions-store_plan :
      (written : Option (String × String)) (al : AgentLoop W P Callback)
      → (store_plan host opts written al).0.sessions ≡ al.sessions
  unfolding store_plan
  sessions-store_plan none al = refl
  sessions-store_plan (some (path, content)) al = refl

  sessions-publish_if :
      (test : Bool) (ms : List OutboundMessage) (al : AgentLoop W P Callback)
      → (publish_if host opts test ms al).sessions ≡ al.sessions
  unfolding publish_if publish
  sessions-publish_if test [] al = refl
  sessions-publish_if true (m ∷ ms) al = sessions-publish_if true ms (publish host m al)
  sessions-publish_if false (m ∷ ms) al = refl

  sessions-announce :
      (tcs : List ToolCall) (r : AgentLoop W P Callback × (List String × String))
      (messages : List Message) (plan : PlanState)
      → (announce host opts tcs r messages plan).al.sessions ≡ r.0.sessions
  unfolding announce
  sessions-announce tcs (al, (bullets, model)) messages plan =
      rw (sessions-publish_if, sessions-store_plan) refl

  sessions-announce_plan :
      (active : Active P) (tcs : List ToolCall) (s : Progress W P Callback)
      → (announce_plan host opts active tcs s).al.sessions ≡ s.al.sessions
  unfolding announce_plan
  sessions-announce_plan active tcs s = elim (Bool-cases s.plan.announced) [
    | inl before ↦ simp before refl
    | inr now ↦ simp now (
        sessions-announce tcs _ s.messages s.plan
        ∙ sessions-generate_execution_plan_bullets active tcs s.al)
  ]

  sessions-update_plan :
      (tc : ToolCall) (s : Progress W P Callback)
      → (update_plan host opts tc s).al.sessions ≡ s.al.sessions
  unfolding update_plan
  sessions-update_plan tc s =
      elim (Bool-cases (
        s.plan.announced
        && not (str_eq (call_name tc) "")
        && not (is_allowed_tool (call_name tc) s.plan))) [
          | inl extends ↦ rw (extends, sessions-publish_if) refl
          | inr allowed ↦ simp allowed refl
        ]

  pub Grows-keep_message :
      (m : Message) (al : AgentLoop W P Callback)
      → Grows opts.session_key (m ∷ []) al.sessions (keep_message host opts m al).sessions
  unfolding keep_message
  Grows-keep_message m al = Grows-add_full_message _ opts.session_key m al.sessions

  sessions-show_result :
      (tr : ToolResult) (al : AgentLoop W P Callback)
      → (show_result host opts tr al).sessions ≡ al.sessions
  unfolding show_result publish
  sessions-show_result tr al = ground arith

  sessions-execute_tool :
      (tc : ToolCall) (al : AgentLoop W P Callback)
      → (execute_tool host opts tc al).0.sessions ≡ al.sessions
  unfolding execute_tool
  sessions-execute_tool tc al = refl

  Grows-after_tool :
      (tc : ToolCall) (r : AgentLoop W P Callback × ToolResult) (s : Progress W P Callback)
      → Grows opts.session_key
          (tool_message tc.id r.1 ∷ [])
          r.0.sessions
          (after_tool host opts tc r s).al.sessions
  unfolding after_tool
  Grows-after_tool tc (al, tr) s =
      Grows-from opts.session_key (tool_message tc.id tr ∷ [])
        (show_result host opts tr al).sessions al.sessions
        (keep_message host opts (tool_message tc.id tr) (show_result host opts tr al)).sessions
        (sessions-show_result tr al)
        (Grows-keep_message (tool_message tc.id tr) (show_result host opts tr al))

  Grows-run_tool_call :
      (tc : ToolCall) (s : Progress W P Callback)
      → (tr : ToolResult) × Grows opts.session_key
          (tool_message tc.id tr ∷ [])
          s.al.sessions
          (run_tool_call host opts tc s).al.sessions
  unfolding run_tool_call
  Grows-run_tool_call tc s =
      let s' = update_plan host opts tc s in
      let r = execute_tool host opts tc s'.al in
      (
        r.1,
        Grows-from opts.session_key (tool_message tc.id r.1 ∷ []) r.0.sessions s.al.sessions
            (after_tool host opts tc r s').al.sessions
            (sessions-execute_tool tc s'.al ∙ sessions-update_plan tc s) (Grows-after_tool tc r s'),
      )

  -- The results of a batch answer its calls, in order.
  Grows-run_tool_calls :
      (tcs : List ToolCall) (s : Progress W P Callback)
      → (ms : List Message) × Grows opts.session_key ms s.al.sessions
          (run_tool_calls host opts tcs s).al.sessions
        × (pending (ids_of tcs) ms ≡ some [])
  unfolding run_tool_calls pending accept and_then tool_message
  Grows-run_tool_calls [] s = ([], Grows-nothing opts.session_key s.al.sessions, refl)
  Grows-run_tool_calls (tc ∷ tcs) s =
      let s' = run_tool_call host opts tc s in
      let (tr, first) = Grows-run_tool_call tc s in
      let (ms, later, closed) = Grows-run_tool_calls tcs s' in
      (
        tool_message tc.id tr ∷ ms,
        Grows-trans opts.session_key (tool_message tc.id tr ∷ []) ms s.al.sessions s'.al.sessions
            (run_tool_calls host opts tcs s').al.sessions first later,
        rw (eq_refl tc.id) closed,
      )

  -- A response with calls adds its message and the answers: nothing stays open.
  pub Grows-do_tools :
      (active : Active P) (response : LlmResponse) (s : Progress W P Callback)
      → (ms : List Message) × Grows opts.session_key ms s.al.sessions
          (do_tools host opts active response s).al.sessions
        × (pending [] ms ≡ some [])
  unfolding do_tools add_assistant pending accept and_then assistant_message
  Grows-do_tools active response s =
      let s1 = announce_plan host opts active response.tool_calls s in
      let s2 = add_assistant host opts response s1 in
      let m = assistant_message host.marshal response in
      let (ms, later, closed) = Grows-run_tool_calls response.tool_calls s2 in
      (
        m ∷ ms,
        Grows-trans opts.session_key (m ∷ []) ms s.al.sessions s2.al.sessions
            (run_tool_calls host opts response.tool_calls s2).al.sessions
            (Grows-from opts.session_key (m ∷ []) s1.al.sessions s.al.sessions s2.al.sessions
              (sessions-announce_plan active response.tool_calls s) (Grows-keep_message m s1.al))
            later,
        rw (ids_of-repeated_call host.marshal response.tool_calls) closed,
      )
