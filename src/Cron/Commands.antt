-- ===== src/Cron/Commands.antt =====
-- A command given to the tool cron (pkg/tools/cron.go): AddJob saves the job, UpdateJob saves it again
-- with its command.
use picoclaw.Prelude.{
  String, ◌≡◌, refl, Bool, true, false, Option, none, some, List, [], ◌∷◌, ◌++◌, arith, str_eq,
  eq_refl, is_some,
}
use picoclaw.Utils.{truncate}
use picoclaw.Tools.{silent_result}
use picoclaw.Cron.{
  CronSchedule, CronJob, CronService, encoded, WriteOutcome, not_opened, written, Io, Tick,
  save_store_unsafe, written_file, write_ok, set_jobs,
}
use picoclaw.Cron.Jobs.{NewJob, make_job, add_job, find_job, change_first, update_job}
use picoclaw.Cron.CronTool.{CronTool, Moment, with_command, after_add, add_scheduled}
use picoclaw.Cron.Arguments.{or_true}

abbrev pub saves : WriteOutcome → Io
saves outcome = record { mkdir_ok = true; marshal_ok = true; write = outcome }

-- What addJob hands to AddJob for a command.
abbrev pub command_job : CronTool → String → CronSchedule → NewJob
command_job t message schedule = record {
  name = truncate message 30;
  schedule = schedule;
  message = message;
  deliver = false;
  channel = t.channel;
  to = t.chat_id;
}

change_first-new :
    (id : String) (f : CronJob → CronJob) (js : List CronJob) (j : CronJob)
    → j.id ≡ id
    → find_job id js ≡ none
    → change_first id f (js ++ j ∷ []) ≡ js ++ f j ∷ []
unfolding find_job change_first
change_first-new id f [] j same h = ground (arith, eq_refl id)
change_first-new id f (x ∷ xs) j same h = ground (arith, change_first-new id f xs j same)

find_job-last :
    (id : String) (js : List CronJob) (j : CronJob)
    → j.id ≡ id
    → is_some (find_job id (js ++ j ∷ [])) ≡ true
unfolding find_job
find_job-last id [] j same = ground (arith, eq_refl id)
find_job-last id (x ∷ xs) j same = ground (arith, find_job-last id xs j same)

-- The job that AddJob makes of it, and what UpdateJob puts in its place.
abbrev pub made : Tick → Moment → CronTool → String → CronSchedule → CronJob
made tick m t message schedule = make_job tick m.first m.id (command_job t message schedule)

abbrev pub commanded : Moment → String → CronJob → CronJob
commanded m command job = record job {
  payload = record job.payload { command = command };
  updated_at_ms = m.second;
}

-- A command that is scheduled stands in the saved store, last on the list and under the new identifier,
-- not to be delivered, and the tool reports no error, when both saves succeed and no job has the
-- identifier yet.
pub add_command_saved :
    (tick : Tick) (m : Moment) (t : CronTool) (message command : String) (deliver : Option Bool)
    (schedule : CronSchedule) (cs : CronService)
    → str_eq command "" ≡ false
    → m.first_io ≡ saves written
    → m.second_io ≡ saves written
    → find_job m.id cs.store.jobs ≡ none
    → (let result = add_scheduled tick m t message deliver command (some schedule) cs in
        let job = commanded m command (made tick m t message schedule) in
        let saved = set_jobs (cs.store.jobs ++ job ∷ []) cs in
        (result.0 ≡ record saved { file = some (encoded saved.store) })
        × (result.1.is_error ≡ false))
unfolding add_scheduled after_add with_command add_job make_job update_job save_store_unsafe
    written_file write_ok or_true silent_result
add_command_saved tick m t message command deliver schedule cs given first second fresh =
    let job = made tick m t message schedule in
    ground (
      arith,
      find_job-last m.id cs.store.jobs job refl,
      change_first-new m.id (λ _. commanded m command job) cs.store.jobs job refl fresh,
    )

-- When the first save succeeds and the second cannot open the file, the tool reports no error although
-- the file holds the job without its command.
add_command_unsaved :
    (tick : Tick) (m : Moment) (t : CronTool) (message command : String) (deliver : Option Bool)
    (schedule : CronSchedule) (cs : CronService)
    → str_eq command "" ≡ false
    → m.first_io ≡ saves written
    → m.second_io ≡ saves not_opened
    → (let result = add_scheduled tick m t message deliver command (some schedule) cs in
        let job = made tick m t message schedule in
        (result.0.file ≡ some (encoded (set_jobs (cs.store.jobs ++ job ∷ []) cs).store))
        × (job.payload.command ≡ "")
        × (result.1.is_error ≡ false))
unfolding add_scheduled after_add with_command add_job make_job update_job save_store_unsafe
    written_file write_ok or_true silent_result
add_command_unsaved tick m t message command deliver schedule cs given first second = ground arith
