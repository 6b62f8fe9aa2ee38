-- ===== src/Agent/Turn.antt =====
-- runLLMIteration of pkg/agent/loop.go: calls of the model until it answers without tool calls. The stream
-- of actions that visibility.go shows is an argument.
use picoclaw.Prelude.{
  ℕ, zero, suc, String, Bool, true, false, not, ◌&&◌, Option, none, some, List, [], ◌∷◌, ◌++◌,
  str_eq, ltb, if◌then◌else◌, length,
}
use picoclaw.Prelude.Int.{pos_part}
use picoclaw.Bus.{OutboundMessage}
use picoclaw.Llm.{ToolCall, Message, LlmResponse}
use picoclaw.Session.{add_full_message}
use picoclaw.Tools.{ToolResult, execute_with_context}
use picoclaw.Tools.Loop.{assistant_message, tool_message}
use picoclaw.Agent.Plan.{
  PlanState, new_execution_plan_state, call_name, absorb_tool_calls, is_allowed_tool,
  summarize_tool_call_for_plan, format_execution_plan_progress_with_artifact,
  format_plan_context_message, format_plan_update_progress,
}
use picoclaw.Agent.PlanFile.{PlanFileMetadata, write_execution_plan_file}
use picoclaw.Agent.Calls.{env_now, publish, call_model}
use picoclaw.Agent.World.{Host, AgentLoop, Active, Called, got, fails, plain}
use picoclaw.Agent.Planner.{
  ActionStream, ProcessOptions, text_message, generate_execution_plan_bullets,
}

unfoldable pub should_publish_progress : {W : Type 0} → ProcessOptions W → Bool
should_publish_progress opts =
    opts.allow_progress_updates && (not (str_eq opts.channel "") && not (str_eq opts.chat_id ""))

-- How the turn ends.
pub data TurnEnd : Type 0 where
  answered : String → ℕ → TurnEnd
  failed : String → ℕ → TurnEnd

-- What the loop carries from one iteration to the next.
pub record Progress (W P Callback : Type 0) : Type 0 where
  pub al : AgentLoop W P Callback
  pub messages : List Message
  pub plan : PlanState

module _ {W P Callback : Type 0} (host : Host W P Callback) (opts : ProcessOptions W) where
  -- The path of the plan's file, or nothing if it could not be written.
  unfoldable pub store_plan :
      Option (String × String) → AgentLoop W P Callback → AgentLoop W P Callback × String
  store_plan none al = (al, "")
  store_plan (some (path, content)) al =
      (record al { world = host.put_file path content al.world }, path)

  unfoldable pub publish_if :
      Bool → List OutboundMessage → AgentLoop W P Callback → AgentLoop W P Callback
  publish_if test [] al = al
  publish_if test (m ∷ ms) al =
      let rest = publish_if test ms (publish host m al) in if test then rest else al

  unfoldable pub announce :
      List ToolCall
      → AgentLoop W P Callback × (List String × String)
      → List Message
      → PlanState
      → Progress W P Callback
  unfolding store_plan publish_if
  announce tcs (al, (bullets, model)) messages plan =
      let meta : PlanFileMetadata = record {
        session_key = opts.session_key;
        correlation_id = opts.correlation_id;
        model = model;
      } in
      let (al', path) =
        store_plan
          (write_execution_plan_file (host.plan_io al.world) (host.plan_texts al.world) al.workspace
            bullets meta)
          al in
      record {
        al =
            publish_if (should_publish_progress opts)
              (plain opts.channel opts.chat_id
                  (format_execution_plan_progress_with_artifact bullets path)
                ∷ record (plain opts.channel opts.chat_id "Working... 🔧") {
                  is_progress_update = true;
                }
                ∷ [])
              al';
        messages = messages ++ text_message "system" (format_plan_context_message bullets) ∷ [];
        plan = record (absorb_tool_calls tcs plan) { announced = true; bullets = bullets };
      }

  -- The first batch of tool calls becomes the plan.
  unfoldable pub announce_plan :
      Active P → List ToolCall → Progress W P Callback → Progress W P Callback
  unfolding announce
  announce_plan active tcs s =
      if s.plan.announced
      then s
      else announce tcs (generate_execution_plan_bullets host opts active tcs s.al) s.messages
          s.plan

  -- A call of a tool that the plan does not allow extends the plan, and says so in the conversation.
  unfoldable pub update_plan : ToolCall → Progress W P Callback → Progress W P Callback
  unfolding publish_if
  update_plan tc s =
      let name = call_name tc in
      let step = summarize_tool_call_for_plan host.base_name tc in
      let bullets = s.plan.bullets ++ step ∷ [] in
      if s.plan.announced && not (str_eq name "") && not (is_allowed_tool name s.plan)
      then record {
        al =
            publish_if (should_publish_progress opts)
              (record (plain opts.channel opts.chat_id (format_plan_update_progress step)) {
                is_progress_update = true;
              }
                ∷ [])
              s.al;
        messages = s.messages ++ text_message "system" (format_plan_context_message bullets) ∷ [];
        plan = record s.plan { bullets = bullets; allowed = s.plan.allowed ++ name ∷ [] };
      }
      else s

  unfoldable pub started : ToolCall → Option (ActionStream W) → W → W × String
  started tc none w = (w, "")
  started tc (some stream) w = stream.start_action tc.name tc.arguments w

  unfoldable pub completed : String → ToolResult → Option (ActionStream W) → W → W
  completed id tr none w = w
  completed id tr (some stream) w =
      if str_eq id ""
      then w
      else stream.complete_action id (if str_eq tr.for_user "" then tr.for_llm else tr.for_user)
          tr.err w

  -- Runs one tool between the two reports to the stream.
  unfoldable pub execute_tool :
      ToolCall → AgentLoop W P Callback → AgentLoop W P Callback × ToolResult
  unfolding started completed
  execute_tool tc al =
      let (w, id) = started tc opts.action_stream al.world in
      let (w', tr) =
        execute_with_context host.quote al.tools tc.name tc.arguments opts.channel opts.chat_id
          (some host.log_only) w in
      (record al { world = completed id tr opts.action_stream w' }, tr)

  -- Puts a message into the session of the turn.
  unfoldable pub keep_message : Message → AgentLoop W P Callback → AgentLoop W P Callback
  keep_message m al = record al {
    sessions = add_full_message (env_now host al).now opts.session_key m al.sessions;
  }

  unfoldable pub show_result : ToolResult → AgentLoop W P Callback → AgentLoop W P Callback
  show_result tr al =
      if not tr.silent && not (str_eq tr.for_user "") && opts.send_response
      then publish host (plain opts.channel opts.chat_id tr.for_user) al
      else al

  unfoldable pub after_tool :
      ToolCall → AgentLoop W P Callback × ToolResult → Progress W P Callback → Progress W P Callback
  unfolding show_result keep_message
  after_tool tc (al, tr) s = record s {
    al = keep_message (tool_message tc.id tr) (show_result tr al);
    messages = s.messages ++ tool_message tc.id tr ∷ [];
  }

  unfoldable pub run_tool_call : ToolCall → Progress W P Callback → Progress W P Callback
  unfolding execute_tool after_tool
  run_tool_call tc s = let s' = update_plan tc s in after_tool tc (execute_tool tc s'.al) s'

  unfoldable pub run_tool_calls : List ToolCall → Progress W P Callback → Progress W P Callback
  run_tool_calls [] s = s
  run_tool_calls (tc ∷ tcs) s = run_tool_calls tcs (run_tool_call tc s)

  -- The assistant's message with its calls goes into the conversation and the session.
  unfoldable pub add_assistant : LlmResponse → Progress W P Callback → Progress W P Callback
  unfolding keep_message
  add_assistant response s =
      let m = assistant_message host.marshal response in
      record s { al = keep_message m s.al; messages = s.messages ++ m ∷ [] }

  -- What an iteration does with a response that has tool calls.
  unfoldable pub do_tools : Active P → LlmResponse → Progress W P Callback → Progress W P Callback
  do_tools active response s =
      run_tool_calls response.tool_calls
        (add_assistant response (announce_plan active response.tool_calls s))

  -- The turn goes on by `continue` when the response has calls, and is over otherwise.
  unfoldable pub settle :
      (Progress W P Callback → AgentLoop W P Callback × TurnEnd)
      → ℕ
      → Active P
      → LlmResponse
      → Progress W P Callback
      → Bool
      → AgentLoop W P Callback × TurnEnd
  settle continue iteration active response s false = (s.al, answered response.content iteration)
  settle continue iteration active response s true = continue (do_tools active response s)

  -- The end of an iteration.
  unfoldable pub next_iteration :
      (Progress W P Callback → AgentLoop W P Callback × TurnEnd)
      → ℕ
      → List Message
      → PlanState
      → AgentLoop W P Callback × Called P
      → AgentLoop W P Callback × TurnEnd
  unfolding settle
  next_iteration continue iteration messages plan (al, fails e) = (al, failed e iteration)
  next_iteration continue iteration messages plan (al, got active response) =
      settle continue iteration active response
        (record { al = al; messages = messages; plan = plan }) (ltb 0 (length response.tool_calls))

  -- `left` is maxIterations less the iterations made.
  unfoldable pub llm_loop : ℕ → ℕ → Progress W P Callback → AgentLoop W P Callback × TurnEnd
  llm_loop zero iteration s = (s.al, answered "" iteration)
  llm_loop (suc left) iteration s =
      next_iteration (λ s'. llm_loop left (suc iteration) s') (suc iteration) s.messages s.plan
        (call_model host opts.session_key opts.channel opts.chat_id s.messages s.al)

  unfoldable pub forced :
      Option (ActionStream W) → AgentLoop W P Callback × TurnEnd → AgentLoop W P Callback × TurnEnd
  forced none r = r
  forced (some stream) (al, failed e n) = (al, failed e n)
  forced (some stream) (al, answered c n) =
      (record al { world = stream.force_update al.world }, answered c n)

  unfoldable pub run_llm_iteration :
      List Message → AgentLoop W P Callback → AgentLoop W P Callback × TurnEnd
  unfolding forced
  run_llm_iteration messages al = forced opts.action_stream (
      llm_loop (pos_part al.max_iterations) 0
        (record { al = al; messages = messages; plan = new_execution_plan_state }))
