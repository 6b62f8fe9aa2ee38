-- ===== src/Cron/Run.antt =====
-- checkJobs and executeJobByID of pkg/cron/service.go. The handler of a job is any function that may
-- itself change the service, since it runs without the lock.
use picoclaw.Prelude.{
  String, Bool, true, false, ◌&&◌, Option, none, some, List, [], ◌∷◌, str_eq, if◌then◌else◌,
}
use picoclaw.Prelude.Int.{ℤ, leb_ℤ}
use picoclaw.Cron.{
  CronJob, CronService, Tick, Io, compute_next_run, save_store_unsafe, set_jobs, with_next,
}
use picoclaw.Cron.Jobs.{find_job, change_first, remove_job_unsafe}

-- The result is the text of an error.
abbrev pub JobHandler : Type 0
JobHandler = CronJob → CronService → CronService × Option String

-- The clock's readings and the answers to the saves of one execution.
pub record RunEnv : Type 0 where
  pub start_time : ℤ
  pub updated : ℤ
  pub computed : ℤ
  pub remove_io : Io
  pub save_io : Io

abbrev pub reached : Option ℤ → ℤ → Bool
reached none now = false
reached (some t) now = leb_ℤ t now

unfoldable pub is_due : ℤ → CronJob → Bool
is_due now job = job.enabled && reached job.state.next_run_at_ms now

unfoldable pub due_ids : ℤ → List CronJob → List String
unfolding is_due
due_ids now [] = []
due_ids now (j ∷ js) = let rest = due_ids now js in if is_due now j then j.id ∷ rest else rest

unfoldable pub id_in : String → List String → Bool
id_in id [] = false
id_in id (x ∷ xs) = let rest = id_in id xs in if str_eq x id then true else rest

-- The next runs of due jobs are reset before the lock is given up.
unfoldable pub claim : List String → List CronJob → List CronJob
unfolding id_in
claim due [] = []
claim due (j ∷ js) =
    let rest = claim due js in (if id_in j.id due then with_next none j else j) ∷ rest

unfoldable pub record_outcome : RunEnv → Option String → CronJob → CronJob
record_outcome env err job = record job {
  updated_at_ms = env.updated;
  state = record job.state {
    last_run_at_ms = some env.start_time;
    last_status = elim err [ none ↦ "ok" | some e ↦ "error" ];
    last_error = elim err [ none ↦ "" | some e ↦ e ];
  };
}

unfoldable pub disable : CronJob → CronJob
disable job = record job { enabled = false; state = record job.state { next_run_at_ms = none } }

unfoldable pub reschedule : Tick → ℤ → CronJob → CronJob
reschedule tick now job = with_next (compute_next_run tick job.schedule now) job

-- What becomes of the job that has run: removed, disabled or rescheduled.
unfoldable pub settle : Tick → RunEnv → Option String → String → CronJob → CronService → CronService
unfolding record_outcome disable reschedule
settle tick env err id job cs =
    let recorded = set_jobs (change_first id (record_outcome env err) cs.store.jobs) cs in
    let jobs = recorded.store.jobs in
    if str_eq job.schedule.kind "at"
    then (if job.delete_after_run
        then (remove_job_unsafe env.remove_io id recorded).0
        else set_jobs (change_first id disable jobs) recorded)
    else set_jobs (change_first id (reschedule tick env.computed) jobs) recorded

unfoldable pub after_handler : Tick → RunEnv → String → CronService × Option String → CronService
unfolding settle
after_handler tick env id (cs, err) = elim (find_job id cs.store.jobs) [
  | none ↦ cs
  | some job ↦ (save_store_unsafe env.save_io (settle tick env err id job cs)).0
]

unfoldable pub call_handler :
    Option JobHandler → CronJob → CronService → CronService × Option String
call_handler none job cs = (cs, none)
call_handler (some handler) job cs = handler job cs

unfoldable pub execute_job_by_id :
    Tick → Option JobHandler → RunEnv → String → CronService → CronService
unfolding call_handler after_handler
execute_job_by_id tick handler env id cs = elim (find_job id cs.store.jobs) [
  | none ↦ cs
  | some job ↦ after_handler tick env id (call_handler handler job cs)
]

unfoldable pub execute_all :
    Tick → Option JobHandler → (String → RunEnv) → List String → CronService → CronService
execute_all tick handler envs [] cs = cs
execute_all tick handler envs (id ∷ ids) cs =
    execute_all tick handler envs ids (execute_job_by_id tick handler (envs id) id cs)

-- The part of checkJobs under the lock.
unfoldable pub claim_due : ℤ → Io → CronService → CronService × List String
unfolding claim due_ids
claim_due now io cs =
    let due = due_ids now cs.store.jobs in
    ((save_store_unsafe io (set_jobs (claim due cs.store.jobs) cs)).0, due)

unfoldable pub check_jobs :
    Tick → Option JobHandler → ℤ → Io → (String → RunEnv) → CronService → CronService
unfolding claim_due
check_jobs tick handler now io envs cs =
    let (cs', due) = claim_due now io cs in
    if cs.running then execute_all tick handler envs due cs' else cs
