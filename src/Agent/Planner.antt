-- ===== src/Agent/Planner.antt =====
-- What a turn of pkg/agent/loop.go is asked to do, and the planner of planner.go, which makes the first
-- batch of tool calls a plan.
use picoclaw.Prelude.{
  ℕ, zero, suc, String, Bool, not, ◌||◌, Option, none, some, List, [], ◌∷◌, str_eq, ltb,
  if◌then◌else◌, length,
}
use picoclaw.Prelude.Int.{pos}
use picoclaw.Prelude.Text.{concat, itoa, trim_space}
use picoclaw.Prelude.Strings.{to_lower}
use picoclaw.Llm.{number, Fields, no_fields, field, ToolCall, Message}
use picoclaw.Utils.{truncate}
use picoclaw.Usage
use picoclaw.Agent.Plan.{listed, summarize_tool_call_for_plan, build_execution_plan_bullets}
use picoclaw.Agent.Parsing.{parse_execution_plan_bullets}
use picoclaw.Agent.Calls.{env_now}
use picoclaw.Agent.World.{Reply, replied, erred, Host, AgentLoop, Active, usage_record}

-- NewActionStream and its methods that the turn calls.
pub record ActionStream (W : Type 0) : Type 0 where
  pub start_action : String → Fields → W → W × String
  pub complete_action : String → String → Option String → W → W
  pub force_update : W → W

pub record ProcessOptions (W : Type 0) : Type 0 where
  pub session_key : String
  pub channel : String
  pub chat_id : String
  pub user_message : String
  pub default_response : String
  pub enable_summary : Bool
  pub send_response : Bool
  pub allow_progress_updates : Bool
  pub no_history : Bool
  pub correlation_id : String
  pub action_stream : Option (ActionStream W)
  pub media : List String

-- A message that the loop itself puts into the conversation.
unfoldable pub text_message : String → String → Message
text_message role content = record {
  role = role;
  content = content;
  tool_calls = [];
  tool_call_id = "";
  media = [];
}

abbrev pub planner_system_prompt : String
planner_system_prompt =
    "You are an execution planner for a coding agent.\nReturn only a numbered list of concrete execution steps.\nGuidance:\n- Prefer 4-6 steps, but fewer steps are allowed when the task is simple.\n- Use imperative action language.\n- Ground steps in the provided request and candidate tool actions.\n- Do not include headings, notes, explanations, or markdown fences.\n- Do not mention policies."

abbrev pub planner_options : Fields
planner_options = field "max_tokens" (number "300") (field "temperature" (number "0.1") no_fields)

-- The candidate steps without repetition; `room` is 10 less those that have been kept.
candidates : (String → String) → ℕ → List String → List ToolCall → List String
candidates base zero seen tcs = []
candidates base (suc room) seen [] = []
candidates base (suc room) seen (tc ∷ tcs) =
    let step = summarize_tool_call_for_plan base tc in
    let key = to_lower (trim_space step) in
    let skipped = candidates base (suc room) seen tcs in
    let taken = step ∷ candidates base room (key ∷ seen) tcs in
    if str_eq step "" || listed key seen then skipped else taken

numbered_lines : ℕ → List String → List String
numbered_lines i [] = []
numbered_lines i (s ∷ ss) = concat (itoa (pos i) ∷ ". " ∷ s ∷ "\n" ∷ []) ∷ numbered_lines (suc i) ss

unfoldable pub planner_prompt : (String → String) → String → List ToolCall → String
unfolding candidates numbered_lines
planner_prompt base user_message tcs =
    let request = trim_space user_message in
    concat (
      "User request:\n"
      ∷ truncate (if str_eq request "" then "(empty)" else request) 1200
      ∷ "\n\nCandidate tool actions:\n"
      ∷ trim_space (concat (numbered_lines 1 (candidates base 10 [] tcs)))
      ∷ "\nReturn only the numbered list."
      ∷ [])

module _ {W P Callback : Type 0} (host : Host W P Callback) (opts : ProcessOptions W) where
  -- The planner's steps, or the fallback if they cannot be read.
  unfoldable pub parsed_or :
      List String
      → String
      → String
      → AgentLoop W P Callback × Reply
      → AgentLoop W P Callback × (List String × String)
  parsed_or fallback active_model model (al, erred e) = (al, (fallback, active_model))
  parsed_or fallback active_model model (al, replied response) =
      let r =
        usage_record (env_now host al).now (host.today al.world) opts.session_key model
          "planner_call" response in
      let parsed = parse_execution_plan_bullets response.content in
      (
        record al {
          usage_store =
              Usage.add (host.today al.world) (env_now host al).now (host.usage_io al.world) r
                al.usage_store;
        },
        (if ltb 0 (length parsed) then parsed else fallback, model),
      )

  unfoldable pub ask_planner :
      List ToolCall
      → List String
      → String
      → String
      → Option P
      → AgentLoop W P Callback
      → AgentLoop W P Callback × (List String × String)
  unfolding parsed_or
  ask_planner tcs fallback active_model model none al = (al, (fallback, active_model))
  ask_planner tcs fallback active_model model (some provider) al =
      let (w, reply) =
        host.chat provider
          (text_message "system" planner_system_prompt
            ∷ text_message "user" (planner_prompt host.base_name opts.user_message tcs)
            ∷ [])
          [] model planner_options al.world in
      parsed_or fallback active_model model (record al { world = w }, reply)

  -- The steps of the plan and the model that made them.
  unfoldable pub generate_execution_plan_bullets :
      Active P
      → List ToolCall
      → AgentLoop W P Callback
      → AgentLoop W P Callback × (List String × String)
  unfolding ask_planner
  generate_execution_plan_bullets active tcs al =
      let fallback = build_execution_plan_bullets host.base_name tcs in
      let model = trim_space al.planner_model in
      if not al.planner_enabled || str_eq model ""
      then (al, (fallback, active.model))
      else ask_planner tcs fallback active.model model
          (if str_eq model active.model then some active.provider else host.create_provider model)
          al
