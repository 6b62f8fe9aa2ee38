-- ===== src/Tools/Subagent.antt =====
-- Subagents: pkg/tools/subagent.go and spawn.go. A task runs beside the agent: its start, its end and its
-- cancellation are steps of their own. Readings of the clock are arguments.
use picoclaw.Prelude.{String, Bool, Option, none, some, List, [], ◌∷◌, str_eq, if◌then◌else◌}
use picoclaw.Prelude.Int.{pos, inc64, pos_part}
use picoclaw.Prelude.Dict.{get, put}
use picoclaw.Prelude.Text.{concat, itoa}
use picoclaw.Llm.{Fields, Message}
use picoclaw.Bus.{InboundMessage}
use picoclaw.State.{Time}
use picoclaw.Tools.{
  Tool, ToolResult, async_result, error_result, with_error, ToolRegistry, register,
}
use picoclaw.Tools.Loop.{Chat, ToolLoopConfig, Outcome, tool_loop}
use picoclaw.Tools.MessageTool.{string_arg}
use picoclaw.Tools.Subtask.{
  Origin, SubagentManager, SubagentTask, announcement, or_empty, report, settled, subagent_options,
  system_and_user,
}

module _ {W Callback : Type 0} where
  unfoldable pub new_subagent_manager : Chat W → String → SubagentManager W Callback
  new_subagent_manager provider model = record {
    tasks = [];
    provider = provider;
    default_model = model;
    tools = [];
    max_iterations = pos 10;
    next_id = pos 1;
  }

  unfoldable pub set_tools :
      ToolRegistry W Callback → SubagentManager W Callback → SubagentManager W Callback
  set_tools tools sm = record sm { tools = tools }

  unfoldable pub register_tool :
      Tool W Callback → SubagentManager W Callback → SubagentManager W Callback
  register_tool tool sm = record sm { tools = register tool sm.tools }

  -- Spawn: the manager, the task that is begun and the answer.
  unfoldable pub spawn :
      Time
      → String
      → String
      → Origin
      → SubagentManager W Callback
      → SubagentManager W Callback × (SubagentTask × String)
  spawn now task label o sm =
      let t : SubagentTask = record {
        id = concat ("subagent-" ∷ itoa sm.next_id ∷ []);
        task = task;
        label = label;
        origin_channel = o.channel;
        origin_chat_id = o.chat_id;
        status = "running";
        result = "";
        created = now;
      } in
      (
        record sm { tasks = put sm.tasks t.id t; next_id = inc64 sm.next_id },
        (
          t,
          if str_eq label ""
              then concat ("Spawned subagent for task: " ∷ task ∷ [])
              else concat ("Spawned subagent '" ∷ label ∷ "' for task: " ∷ task ∷ []),
        ),
      )

  unfoldable pub store_task : SubagentTask → SubagentManager W Callback → SubagentManager W Callback
  store_task t sm = record sm { tasks = put sm.tasks t.id t }

  -- The start of runTask.
  unfoldable pub begin_task :
      Time → SubagentTask → SubagentManager W Callback → SubagentManager W Callback × SubagentTask
  unfolding store_task
  begin_task now t sm =
      let t' = record t { status = "running"; created = now } in (store_task t' sm, t')

  -- runTask finds its context cancelled: it announces nothing.
  unfoldable pub cancel_task :
      SubagentTask → SubagentManager W Callback → SubagentManager W Callback
  unfolding store_task
  cancel_task t sm =
      store_task (record t { status = "cancelled"; result = "Task cancelled before execution" }) sm

  config_of : SubagentManager W Callback → ToolLoopConfig W Callback
  config_of sm = record {
    provider = sm.provider;
    model = sm.default_model;
    tools = some sm.tools;
    max_iterations = sm.max_iterations;
    llm_options = some subagent_options;
  }

  -- The end of runTask, with the message that it puts on the bus.
  unfoldable pub end_task :
      Bool
      → SubagentTask
      → Outcome W
      → SubagentManager W Callback
      → SubagentManager W Callback × (InboundMessage × ToolResult)
  unfolding store_task
  end_task cancelled t outcome sm =
      let (t', r) = settled cancelled t outcome in (store_task t' sm, (announcement t', r))

  unfoldable pub get_task : String → SubagentManager W Callback → Option SubagentTask
  get_task id sm = get sm.tasks id

  spawned :
      SubagentManager W Callback × (SubagentTask × String)
      → SubagentManager W Callback × (Option SubagentTask × ToolResult)
  spawned (sm, (t, answer)) = (sm, (some t, async_result answer))

  spawn_task :
      Time
      → String
      → Option String
      → Origin
      → SubagentManager W Callback
      → SubagentManager W Callback × (Option SubagentTask × ToolResult)
  unfolding spawned
  spawn_task now label none o sm = (sm, (none, error_result "task is required"))
  spawn_task now label (some task) o sm = spawned (spawn now task label o sm)

  -- Execute of the tool spawn, with the task that it begins.
  unfoldable pub spawn_tool :
      Time
      → Fields
      → Origin
      → SubagentManager W Callback
      → SubagentManager W Callback × (Option SubagentTask × ToolResult)
  unfolding spawn_task or_empty
  spawn_tool now args o sm =
      spawn_task now (or_empty (string_arg "label" args)) (string_arg "task" args) o sm

module _ {W Callback : Type 0} (quote : String → String) (marshal : Fields → String) where
  -- RunToolLoop with the text of its error.
  unfoldable pub run_loop :
      SubagentManager W Callback → List Message → String → String → W → Outcome W
  unfolding config_of
  run_loop sm messages channel chat_id w =
      tool_loop quote marshal (config_of sm) channel chat_id (pos_part sm.max_iterations) 0 messages
        w

  unfoldable pub run_task : SubagentTask → SubagentManager W Callback → W → Outcome W
  unfolding system_and_user
  run_task t sm w =
      run_loop sm
        (system_and_user
          "You are a subagent. Complete the given task independently and report the result.\nYou have access to tools - use them as needed to complete your task.\nAfter completing the task, provide a clear summary of what was done."
          t.task)
        t.origin_channel t.origin_chat_id w

  run_at : SubagentManager W Callback → Origin → String → Option String → W → W × ToolResult
  unfolding report system_and_user
  run_at sm o label none w =
      (w, with_error (some "task parameter is required") (error_result "task is required"))
  run_at sm o label (some task) w = report label (
      run_loop sm
        (system_and_user
          "You are a subagent. Complete the given task independently and provide a clear, concise result."
          task)
        o.channel o.chat_id w)

  -- Execute of the tool subagent, which waits for the end of its loop.
  unfoldable pub subagent_tool : SubagentManager W Callback → Origin → Fields → W → W × ToolResult
  unfolding run_at or_empty
  subagent_tool sm o args w =
      run_at sm o (or_empty (string_arg "label" args)) (string_arg "task" args) w
