-- ===== src/Cron/CronTool.antt =====
-- pkg/tools/cron.go: the tool that schedules jobs.
use picoclaw.Prelude.{
  suc, ◌-◌, ◌/◌, String, Bool, true, false, ◌&&◌, ◌||◌, Option, none, some, List, [], ◌∷◌, str_eq,
  ◌==◌, if◌then◌else◌, length,
}
use picoclaw.Prelude.Int.{ℤ, pos, negsuc}
use picoclaw.Prelude.Text.{concat, itoa}
use picoclaw.Llm.{Fields}
use picoclaw.Utils.{truncate}
use picoclaw.Tools.{ToolResult, silent_result, error_result}
use picoclaw.Tools.MessageTool.{string_arg}
use picoclaw.Cron.{CronSchedule, CronJob, CronService, Tick, Io}
use picoclaw.Cron.Jobs.{add_job, update_job, remove_job, enable_job, list_jobs}
use picoclaw.Cron.Arguments.{bool_arg, number_arg, or_empty, or_true, schedule_of}

pub record CronTool : Type 0 where
  pub channel : String
  pub chat_id : String

unfoldable pub set_context : String → String → CronTool → CronTool
set_context channel chat_id t = record t { channel = channel; chat_id = chat_id }

-- Readings of the clock and what the operating system answers, in the order of their use: `now` for the
-- tool itself, `first` for the first change of the service, `second` for the second.
pub record Moment : Type 0 where
  pub now : ℤ
  pub first : ℤ
  pub first_io : Io
  pub second : ℤ
  pub second_io : Io
  pub id : String

-- The second change: the command goes into the job. Its error is ignored.
unfoldable pub with_command : Moment → String → CronJob → CronService → CronService
with_command m command job cs =
    if str_eq command ""
    then cs
    else (update_job m.second m.second_io
        (record job { payload = record job.payload { command = command } }) cs).0

-- The text of the error of AddJob is left out.
unfoldable pub after_add : Moment → String → CronService × Option CronJob → CronService × ToolResult
after_add m command (cs, none) = (cs, error_result "Error adding job")
after_add m command (cs, some job) = (
  with_command m command job cs,
  silent_result (concat ("Cron job added: " ∷ job.name ∷ " (id: " ∷ job.id ∷ ")" ∷ [])),
)

unfoldable pub add_scheduled :
    Tick
    → Moment
    → CronTool
    → String
    → Option Bool
    → String
    → Option CronSchedule
    → CronService
    → CronService × ToolResult
unfolding after_add or_true
add_scheduled tick m t message deliver command none cs =
    (cs, error_result "one of at_seconds, every_seconds, or cron_expr is required")
add_scheduled tick m t message deliver command (some schedule) cs = after_add m command (
    add_job tick m.first m.id m.first_io
      (record {
        name = truncate message 30;
        schedule = schedule;
        message = message;
        deliver = or_true deliver && str_eq command "";
        channel = t.channel;
        to = t.chat_id;
      })
      cs)

-- addJob
unfoldable pub add_by_tool :
    Tick → (String → ℤ) → Moment → CronTool → Fields → CronService → CronService × ToolResult
unfolding add_scheduled or_empty
add_by_tool tick to_int m t args cs =
    if str_eq t.channel "" || str_eq t.chat_id ""
    then (
      cs,
      error_result
          "no session context (channel/chat_id not set). Use this tool in an active conversation.",
    )
    else if str_eq (or_empty (string_arg "message" args)) ""
    then (cs, error_result "message is required for add")
    else add_scheduled tick m t (or_empty (string_arg "message" args)) (bool_arg "deliver" args)
        (or_empty (string_arg "command" args))
        (schedule_of to_int m.now (number_arg "at_seconds" args) (number_arg "every_seconds" args)
          (string_arg "cron_expr" args))
        cs

-- Go's division of an int64 by 1000.
seconds : ℤ → ℤ
seconds (pos n) = pos (n / 1000)
seconds (negsuc n) = if suc n / 1000 == 0 then pos 0 else negsuc (suc n / 1000 - 1)

every_info : Option ℤ → String
unfolding seconds
every_info none = "unknown"
every_info (some e) = concat ("every " ∷ itoa (seconds e) ∷ "s" ∷ [])

unfoldable pub schedule_info : CronSchedule → String
unfolding every_info
schedule_info s =
    if str_eq s.kind "every"
    then every_info s.every_ms
    else if str_eq s.kind "cron"
    then s.expr
    else if str_eq s.kind "at"
    then "one-time"
    else "unknown"

job_lines : List CronJob → List String
job_lines [] = []
job_lines (j ∷ js) =
    concat ("- " ∷ j.name ∷ " (id: " ∷ j.id ∷ ", " ∷ schedule_info j.schedule ∷ ")\n" ∷ [])
    ∷ job_lines js

unfoldable pub list_by_tool : CronService → ToolResult
unfolding job_lines
list_by_tool cs =
    if length (list_jobs false cs) == 0
    then silent_result "No scheduled jobs"
    else silent_result (concat ("Scheduled jobs:\n" ∷ job_lines (list_jobs false cs)))

removed : String → CronService × Bool → CronService × ToolResult
removed id (cs, true) = (cs, silent_result (concat ("Cron job removed: " ∷ id ∷ [])))
removed id (cs, false) = (cs, error_result (concat ("Job " ∷ id ∷ " not found" ∷ [])))

unfoldable pub remove_by_tool : Moment → Fields → CronService → CronService × ToolResult
unfolding removed or_empty
remove_by_tool m args cs =
    let id = or_empty (string_arg "job_id" args) in
    if str_eq id ""
    then (cs, error_result "job_id is required for remove")
    else removed id (remove_job m.first_io id cs)

enabled : String → Bool → CronService × Option CronJob → CronService × ToolResult
enabled id on (cs, none) = (cs, error_result (concat ("Job " ∷ id ∷ " not found" ∷ [])))
enabled id on (cs, some job) = (
  cs,
  silent_result
      (concat ("Cron job '" ∷ job.name ∷ "' " ∷ (if on then "enabled" else "disabled") ∷ [])),
)

unfoldable pub enable_by_tool :
    Tick → Moment → Fields → Bool → CronService → CronService × ToolResult
unfolding enabled or_empty
enable_by_tool tick m args on cs =
    let id = or_empty (string_arg "job_id" args) in
    if str_eq id ""
    then (cs, error_result "job_id is required for enable/disable")
    else enabled id on (enable_job tick m.first m.first_io id on cs)

act :
    Tick
    → (String → ℤ)
    → Moment
    → CronTool
    → Option String
    → Fields
    → CronService
    → CronService × ToolResult
act tick to_int m t none args cs = (cs, error_result "action is required")
act tick to_int m t (some action) args cs =
    if str_eq action "add"
    then add_by_tool tick to_int m t args cs
    else if str_eq action "list"
    then (cs, list_by_tool cs)
    else if str_eq action "remove"
    then remove_by_tool m args cs
    else if str_eq action "enable"
    then enable_by_tool tick m args true cs
    else if str_eq action "disable"
    then enable_by_tool tick m args false cs
    else (cs, error_result (concat ("unknown action: " ∷ action ∷ [])))

-- Execute
unfoldable pub execute :
    Tick → (String → ℤ) → Moment → CronTool → Fields → CronService → CronService × ToolResult
unfolding act
execute tick to_int m t args cs = act tick to_int m t (string_arg "action" args) args cs
