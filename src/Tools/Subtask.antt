-- ===== src/Tools/Subtask.antt =====
-- The tasks of pkg/tools/subagent.go, their managers and how a task ends.
use picoclaw.Prelude.{String, Bool, Option, none, some, List, [], ◌∷◌, str_eq, ltb, if◌then◌else◌}
use Prim.Native.String.{len, ◌++◌ as append}
use picoclaw.Prelude.Int.{ℤ, pos}
use picoclaw.Prelude.Dict.{Dict}
use picoclaw.Prelude.Text.{concat, itoa}
use picoclaw.Prelude.Strings.{front}
use picoclaw.Llm.{Fields, no_fields, field, number, Message}
use picoclaw.Bus.{InboundMessage}
use picoclaw.State.{Time}
use picoclaw.Tools.{ToolResult, new_tool_result, error_result, with_error, ToolRegistry}
use picoclaw.Tools.Loop.{Chat, Outcome, failed, finished}

pub record SubagentTask : Type 0 where
  pub id : String
  pub task : String
  pub label : String
  pub origin_channel : String
  pub origin_chat_id : String
  pub status : String
  pub result : String
  pub created : Time

pub record SubagentManager (W Callback : Type 0) : Type 0 where
  pub tasks : Dict SubagentTask
  pub provider : Chat W
  pub default_model : String
  pub tools : ToolRegistry W Callback
  pub max_iterations : ℤ
  pub next_id : ℤ

-- A tool with the channel and the chat that a subagent reports to.
pub record Origin : Type 0 where
  pub channel : String
  pub chat_id : String

abbrev pub new_origin : Origin
new_origin = record { channel = "cli"; chat_id = "direct" }

unfoldable pub set_context : String → String → Origin → Origin
set_context channel chat_id o = record { channel = channel; chat_id = chat_id }

unfoldable pub system_and_user : String → String → List Message
system_and_user prompt task =
    record { role = "system"; content = prompt; tool_calls = []; tool_call_id = ""; media = [] }
    ∷ record { role = "user"; content = task; tool_calls = []; tool_call_id = ""; media = [] }
    ∷ []

abbrev pub subagent_options : Fields
subagent_options = field "max_tokens" (number "4096") (field "temperature" (number "0.7") no_fields)

-- The message that tells the agent about the end of a task.
unfoldable pub announcement : SubagentTask → InboundMessage
announcement t = record {
  channel = "system";
  sender_id = concat ("subagent:" ∷ t.id ∷ []);
  chat_id = concat (t.origin_channel ∷ ":" ∷ t.origin_chat_id ∷ []);
  content = concat ("Task '" ∷ t.label ∷ "' completed.\n\nResult:\n" ∷ t.result ∷ []);
  media = [];
  session_key = "";
  metadata = [];
  correlation_id = "";
}

-- The task and the result for its callback after the loop; `cancelled` tells whether its context has an
-- error by then.
unfoldable pub settled : {W : Type 0} → Bool → SubagentTask → Outcome W → SubagentTask × ToolResult
settled cancelled t (failed w e) =
    let t' = record t {
      status = if cancelled then "cancelled" else "failed";
      result = if cancelled then "Task cancelled during execution" else concat ("Error: " ∷ e ∷ []);
    } in
    (t', with_error (some e) (error_result t'.result))
settled cancelled t (finished w content messages n) = (
  record t { status = "completed"; result = content },
  record (new_tool_result (
      concat (
        "Subagent '"
        ∷ t.label
        ∷ "' completed (iterations: "
        ∷ itoa (pos n)
        ∷ "): "
        ∷ content
        ∷ []))) { for_user = content },
)

unfoldable pub or_empty : Option String → String
or_empty none = ""
or_empty (some s) = s

shortened : String → String
shortened s = if ltb 500 (len s) then append (front 500 s) "..." else s

unfoldable pub report : {W : Type 0} → String → Outcome W → W × ToolResult
unfolding shortened
report label (failed w e) =
    (w, with_error (some e) (error_result (concat ("Subagent execution failed: " ∷ e ∷ []))))
report label (finished w content messages n) = (
  w,
  record (new_tool_result (
      concat (
        "Subagent task completed:\nLabel: "
        ∷ (if str_eq label "" then "(unnamed)" else label)
        ∷ "\nIterations: "
        ∷ itoa (pos n)
        ∷ "\nResult: "
        ∷ content
        ∷ []))) { for_user = shortened content },
)
