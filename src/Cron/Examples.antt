-- ===== src/Cron/Examples.antt =====
-- The theorems about scheduled jobs at concrete jobs.
use picoclaw.Prelude.{String, ◌≡◌, refl, true, false, Option, none, some, [], ◌∷◌, ◌++◌, arith}
use picoclaw.Prelude.Int.{ℤ, pos, ◌<ℤ◌, ◌+ℤ◌, +ℤ_parts, wrap64}
use picoclaw.Cron.{
  CronSchedule, CronJob, CronStore, CronService, set_jobs, WriteOutcome, encoded, written,
  stopped_short, Io, Tick, compute_next_run, save_store_unsafe, start,
}
use picoclaw.Cron.Jobs.{change_first, find_job}
use picoclaw.Cron.Run.{
  after_handler, settle, disable, JobHandler, RunEnv, is_due, due_ids, id_in, claim_due,
  execute_job_by_id, record_outcome, call_handler,
}
use picoclaw.Cron.Next.{compute_next_run-lt}
use picoclaw.Cron.Claim.{claim_due-due_ids}
use picoclaw.Cron.Once.{at_job_runs_once}
use picoclaw.Cron.CronTool.{CronTool, Moment, add_scheduled}
use picoclaw.Cron.Commands.{add_command_saved, made, commanded, saves}
use picoclaw.Cron.Missed.{missed_at_job_never_runs}

-- The next tick is a second later.
abbrev each_second : Tick
each_second expr now = some (now +ℤ pos 1000)

abbrev at_time : ℤ → CronSchedule
at_time t = record { kind = "at"; at_ms = some t; every_ms = none; expr = ""; tz = "" }

abbrev every_time : ℤ → CronSchedule
every_time t = record { kind = "every"; at_ms = none; every_ms = some t; expr = ""; tz = "" }

abbrev job : String → CronSchedule → Option ℤ → CronJob
job id schedule next = record {
  id = id;
  name = "tea";
  enabled = true;
  schedule = schedule;
  payload = record {
    kind = "agent_turn";
    message = "drink tea";
    command = "";
    deliver = true;
    channel = "telegram";
    to = "42";
  };
  state = record {
    next_run_at_ms = next;
    last_run_at_ms = none;
    last_status = "";
    last_error = "";
  };
  created_at_ms = pos 1;
  updated_at_ms = pos 1;
  delete_after_run = false;
}

abbrev two_jobs : CronStore
two_jobs = record {
  version = pos 1;
  jobs =
      job "a" (at_time (pos 50)) (some (pos 50))
      ∷ job "b" (every_time (pos 60)) (some (pos 90))
      ∷ [];
}

abbrev service : CronService
service = record { store = two_jobs; running = false; file = some (encoded two_jobs) }

abbrev good : Io
good = record { mkdir_ok = true; marshal_ok = true; write = written }

abbrev short : Io
short = record { mkdir_ok = true; marshal_ok = true; write = stopped_short }

abbrev env : RunEnv
env = record {
  start_time = pos 60;
  updated = pos 61;
  computed = pos 61;
  remove_io = good;
  save_io = good;
}

-- A handler that fails and leaves the service as it is.
abbrev failing : JobHandler
failing j cs = (cs, some "no model")

next_second : (now t : ℤ) → some (now +ℤ pos 1000) ≡ some t → now <ℤ t
next_second now t h = ground (arith, +ℤ_parts now (pos 1000))

compute_next_run-lt_example : pos 50 <ℤ pos 110
unfolding compute_next_run ◌+ℤ◌ wrap64
compute_next_run-lt_example =
    compute_next_run-lt each_second (every_time (pos 60)) (pos 50) (pos 110)
      (λ expr now t h. next_second now t h) (λ e h. ground arith) refl

claim_due-due_ids_example :
    id_in "a" (due_ids (pos 1000) (claim_due (pos 60) short service).0.store.jobs) ≡ false
unfolding claim_due id_in due_ids is_due
claim_due-due_ids_example = claim_due-due_ids (pos 60) (pos 1000) short service "a" refl

abbrev at_done : CronJob
at_done = record (job "a" (at_time (pos 50)) none) {
  enabled = false;
  updated_at_ms = pos 61;
  state = record {
    next_run_at_ms = none;
    last_run_at_ms = some (pos 60);
    last_status = "error";
    last_error = "no model";
  };
}

at_job_runs_once_example : (at_done.enabled ≡ false) × (is_due (pos 1000) at_done ≡ false)
unfolding find_job call_handler execute_job_by_id after_handler settle save_store_unsafe
    change_first disable record_outcome
at_job_runs_once_example =
    at_job_runs_once each_second (some failing) env "a" service _ _ at_done (pos 1000) refl refl
      refl refl

missed_at_job_never_runs_example :
    (find_job "a" (start each_second (pos 50) good service).0.store.jobs
      ≡ some (job "a" (at_time (pos 50)) none))
    × (is_due (pos 1000) (job "a" (at_time (pos 50)) none) ≡ false)
unfolding find_job
missed_at_job_never_runs_example =
    missed_at_job_never_runs each_second (pos 50) (pos 1000) (pos 50) good service two_jobs "a"
      (job "a" (at_time (pos 50)) (some (pos 50))) refl refl refl refl refl refl refl

abbrev chat : CronTool
chat = record { channel = "telegram"; chat_id = "42" }

abbrev moment : WriteOutcome → Moment
moment second = record {
  now = pos 5;
  first = pos 5;
  first_io = good;
  second = pos 6;
  second_io = saves second;
  id = "c";
}

add_command_saved_example :
    let result =
      add_scheduled each_second
        (moment written)
        chat
        "disk space"
        none
        "df -h"
        (some (every_time (pos 60)))
        service in
    let job =
      commanded
        (moment written)
        "df -h"
        (made each_second (moment written) chat "disk space" (every_time (pos 60))) in
    let saved = set_jobs (service.store.jobs ++ job ∷ []) service in
    (result.0 ≡ record saved { file = some (encoded saved.store) }) × (result.1.is_error ≡ false)
unfolding find_job
add_command_saved_example =
    add_command_saved each_second (moment written) chat "disk space" "df -h" none
      (every_time (pos 60)) service refl refl refl refl
