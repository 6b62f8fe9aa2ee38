-- ===== src/Cron/JobRun.antt =====
-- pkg/tools/cron.go: what a due job does. The tool exec, the bus and the agent are arguments.
use picoclaw.Prelude.{String, false, not, Option, none, some, [], ◌∷◌, str_eq, if◌then◌else◌}
use picoclaw.Prelude.Text.{concat}
use picoclaw.Bus.{OutboundMessage}
use picoclaw.Tools.{ToolResult}
use picoclaw.Cron.{CronJob}

or_text : String → String → String
or_text s default = if str_eq s "" then default else s

module _ {W : Type 0} (exec : String → W → W × ToolResult) (publish : OutboundMessage → W → W)
    (process : String → String → String → String → W → W × Option String) where
  say : String → String → String → W → W
  say channel chat_id content w =
      publish
        (record {
          channel = channel;
          chat_id = chat_id;
          content = content;
          media = [];
          is_progress_update = false;
        })
        w

  command_done : String → String → String → W × ToolResult → W × String
  unfolding say
  command_done channel chat_id command (w, tr) = (
    say channel chat_id
        (if tr.is_error
          then concat ("Error executing scheduled command: " ∷ tr.for_llm ∷ [])
          else concat ("Scheduled command '" ∷ command ∷ "' executed:\n" ∷ tr.for_llm ∷ []))
        w,
    "ok",
  )

  processed : W × Option String → W × String
  processed (w, none) = (w, "ok")
  processed (w, some e) = (w, concat ("Error: " ∷ e ∷ []))

  -- ExecuteJob: `exec` is the tool exec, `process` is ProcessDirectWithChannel with its error.
  unfoldable pub execute_job : CronJob → W → W × String
  unfolding command_done processed or_text say
  execute_job job w =
      let channel = or_text job.payload.channel "cli" in
      let chat_id = or_text job.payload.to "direct" in
      if not (str_eq job.payload.command "")
      then command_done channel chat_id job.payload.command (exec job.payload.command w)
      else if job.payload.deliver
      then (say channel chat_id job.payload.message w, "ok")
      else processed
          (process job.payload.message (concat ("cron-" ∷ job.id ∷ [])) channel chat_id w)
