-- ===== src/Agent/Examples.antt =====
-- The theorems about the agent, applied to the conversations of Agent/Fixtures.
use Prim.Native.Nat.{min}
use picoclaw.Prelude.{
  drop, arith, suc, ◌+◌, ◌*◌, ◌≤◌, ◌-◌, take, length, str_eq, ℕ, String, ◌≡◌, refl, ◌⊎◌, inl, inr,
  true, false, none, List, [], ◌∷◌, ◌++◌, str_eq, Bool-cases, any,
}
use picoclaw.Prelude.Dict.{get}
use picoclaw.Prelude.Text.{concat, trim_space}
use picoclaw.Llm.{Message}
use picoclaw.Utils.{is_internal_channel}
use picoclaw.Session.{get_history, get_summary}
use picoclaw.Failover.Ops.{error_text}
use picoclaw.Failover.{other_error, enabled}
use picoclaw.Tools.Pairing.{pending, accept, and_then, Paired}
use picoclaw.Agent.Plan.{
  PlanState, listed, call_name, absorb_tool_calls, is_allowed_tool, new_execution_plan_state,
}
use picoclaw.Agent.Calls.{
  call_model, on_route, active_route, routed, chat_with, after_reply, report, publish,
}
use picoclaw.Agent.World.{erred, Host, Active, plain}
use picoclaw.Agent.Planner.{generate_execution_plan_bullets}
use picoclaw.Agent.Turn.{
  started, completed, forced, Progress, llm_loop, run_llm_iteration, do_tools, announce_plan,
  announce, next_iteration,
}
use picoclaw.Agent.Summary.{make_summary, put_summary, summarize_session, end_summary}
use picoclaw.Agent.Context.{update_tool_contexts, note_channel, drop_orphans}
use picoclaw.Agent.Loop.{
  say, process_message, converse, with_probe, run_agent_loop, cleaned, finish_turn, message_options,
  turn_messages,
}
use picoclaw.Agent.Notices.{error}
use picoclaw.Agent.Serving.{Serving, serve}
use picoclaw.Agent.Steps.{served, summarized, Reach, here, after, with_loop}
use picoclaw.Agent.Orphans.{Ready}
use picoclaw.Agent.Readiness.{turn_messages-Paired}
use picoclaw.Tools.{execute_with_context}
use picoclaw.Prelude.Dict.{get}
use picoclaw.Agent.Planner.{ProcessOptions}
use picoclaw.Agent.ChatCalls.{IsTally}
use picoclaw.Agent.TurnCalls.{run_llm_iteration-chat_calls}
use picoclaw.Agent.Outside.{extends_plan, do_tools-Paired}
use picoclaw.Agent.Interrupted.{do_tools_unpaired}
use picoclaw.Agent.Stopping.{error_unreported, stop_finds_nothing}
use picoclaw.Agent.Forgetting.{summarize_session_covers, put_summary_loses}
use picoclaw.Agent.Fixtures.{
  host_over, loop_over, World, ask_clock, desk, host, idle, loop, manager, options, question,
  request, with_clock,
}

question-Ready : (key : String) → Ready (get_history key (manager (question ∷ [])))
unfolding pending accept and_then drop_orphans get_history get
question-Ready key = elim (Bool-cases (str_eq key "cli:1")) [
  | inl this ↦ rw this refl
  | inr other ↦ rw other refl
]

summed : Serving World String ℕ
summed =
    with_loop host desk
      (end_summary host "cli:1" (put_summary host "cli:1" "times" (loop (question ∷ []) false)))
      (idle (question ∷ []) false)

steps : Reach host desk (idle (question ∷ []) false) (serve host desk (request "time?") summed)
unfolding summed
steps =
    after (after here (summarized "cli:1" "times" (idle (question ∷ []) false)))
      (served (request "time?") summed)

turn_messages-Paired_example :
    Paired (turn_messages host desk options (serve host desk (request "time?") summed).al)
turn_messages-Paired_example =
    turn_messages-Paired host desk (idle (question ∷ []) false)
      (serve host desk (request "time?") summed) options question-Ready steps

-- A world that counts the calls of the model.
abbrev counted : Host ℕ String ℕ
counted = host_over (λ n. suc n) (λ m n. n)

abbrev plain_options : ProcessOptions ℕ
plain_options = record {
  session_key = "cli:1";
  channel = "cli";
  chat_id = "1";
  user_message = "time?";
  default_response = "";
  enable_summary = true;
  send_response = false;
  allow_progress_updates = true;
  no_history = false;
  correlation_id = "";
  action_stream = none;
  media = [];
}

counted-IsTally : IsTally counted plain_options [] (λ n. n)
unfolding execute_with_context get started completed
counted-IsTally = record {
  by_chat = λ p ms ts model fields n. refl;
  by_publish = λ m n. refl;
  by_put_file = λ path text n. refl;
  by_tool = λ name args n. refl;
  by_start = λ tc n. refl;
  by_completion = λ id tr n. refl;
  by_update = λ stream n shown. absurd (cc);
}

run_llm_iteration-chat_calls_example :
    (run_llm_iteration counted plain_options (question ∷ []) (loop_over [] 3 [])).0.world
    ≤ 3 + (2 * 5 + min 5 1)
run_llm_iteration-chat_calls_example =
    run_llm_iteration-chat_calls counted plain_options [] (λ n. n) counted-IsTally (question ∷ [])
      (loop_over [] 3 []) refl

abbrev asked : PlanState → Progress World String ℕ
asked plan = record { al = loop [] false; messages = question ∷ []; plan = plan }

abbrev active : Active String
active = record { provider = "claude"; model = "claude" }

clock_allowed :
    any
      (extends_plan
        (announce_plan host options active (ask_clock ∷ []) (asked new_execution_plan_state)).plan)
      (ask_clock ∷ [])
    ≡ false
unfolding announce_plan announce generate_execution_plan_bullets absorb_tool_calls is_allowed_tool
    call_name trim_space listed
clock_allowed = refl

do_tools-Paired_example :
    Paired (do_tools host options active with_clock (asked new_execution_plan_state)).messages
unfolding pending accept and_then
do_tools-Paired_example =
    do_tools-Paired host options active with_clock (asked new_execution_plan_state) refl
      clock_allowed

-- A plan that allows no tool.
abbrev bare_plan : PlanState
bare_plan = record { announced = true; bullets = "Think" ∷ []; allowed = [] }

do_tools_unpaired_example :
    pending [] (do_tools host options active with_clock (asked bare_plan)).messages ≡ none
unfolding pending accept and_then is_allowed_tool call_name trim_space listed
do_tools_unpaired_example =
    do_tools_unpaired host options active with_clock (asked bare_plan) ask_clock [] refl refl refl
      refl

stop_finds_nothing_example :
    serve host desk (request " /stop ") (idle [] false) ≡ record (idle [] false) {
      al = publish host (plain "cli" "1" "Nothing running to stop.") (loop [] false);
    }
unfolding trim_space
stop_finds_nothing_example =
    stop_finds_nothing host desk (idle [] false) (idle [] false) (request " /stop ") refl here refl

abbrev chat : List Message
chat = question ∷ question ∷ question ∷ question ∷ question ∷ question ∷ question ∷ []

summarize_session_covers_example :
    let old = get_history "cli:1" (manager chat) in
    let al = loop chat false in
    let made = (make_summary host al old (get_summary "cli:1" al.sessions) al.world).1 in
    let after = (summarize_session host "cli:1" al).sessions in
    ((str_eq made "" ≡ true) × (after ≡ al.sessions))
    ⊎ ((str_eq made "" ≡ false)
        × (take (length old - 4) old ++ get_history "cli:1" after ≡ old)
        × (length (get_history "cli:1" after) ≡ min (length old) 4))
summarize_session_covers_example = summarize_session_covers host "cli:1" (loop chat false)

abbrev late : List Message
late = question ∷ question ∷ question ∷ question ∷ question ∷ []

put_summary_loses_example :
    get_history "cli:1" (put_summary host "cli:1" "times" (loop chat false)).sessions
    ≡ drop (length late - 4) late
unfolding get_history get
put_summary_loses_example =
    put_summary_loses host "cli:1" "times" (loop chat false) (question ∷ question ∷ []) late refl
      refl (omega arith)

-- The same world, in which the model does not answer.
abbrev deaf_host : Host World String ℕ
deaf_host = record host {
  chat = λ provider messages tools model options w. (w, erred (other_error "down"));
}

deaf_error :
    (process_message deaf_host desk (request "time?") (loop [] false)).1.1
    ≡ error "LLM call failed: down"
unfolding process_message trim_space enabled converse with_probe run_agent_loop cleaned finish_turn
    run_llm_iteration forced llm_loop next_iteration call_model on_route active_route routed
    chat_with after_reply report error_text message_options say update_tool_contexts note_channel
    is_internal_channel concat
deaf_error = refl

error_unreported_example :
    (serve deaf_host desk (request "time?") (idle [] false)).al
    ≡ (process_message deaf_host desk (request "time?") (loop [] false)).0
unfolding trim_space
error_unreported_example =
    error_unreported deaf_host desk (request "time?") (idle [] false) "LLM call failed: down" refl
      deaf_error refl
