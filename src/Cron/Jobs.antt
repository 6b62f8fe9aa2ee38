-- ===== src/Cron/Jobs.antt =====
-- The operations on the jobs of pkg/cron/service.go.
use picoclaw.Prelude.{
  String, Bool, true, false, not, Option, none, some, List, [], ◌∷◌, ◌++◌, str_eq, ltb,
  if◌then◌else◌, is_some, length, keep,
}
use picoclaw.Prelude.Int.{ℤ, ltb_ℤ}
use picoclaw.Cron.{
  CronSchedule, CronJob, CronService, Tick, Io, compute_next_run, save_store_unsafe, set_jobs,
}

-- What AddJob is given.
pub record NewJob : Type 0 where
  pub name : String
  pub schedule : CronSchedule
  pub message : String
  pub deliver : Bool
  pub channel : String
  pub to : String

unfoldable pub make_job : Tick → ℤ → String → NewJob → CronJob
make_job tick now id n = record {
  id = id;
  name = n.name;
  enabled = true;
  schedule = n.schedule;
  payload = record {
    kind = "agent_turn";
    message = n.message;
    command = "";
    deliver = n.deliver;
    channel = n.channel;
    to = n.to;
  };
  state = record {
    next_run_at_ms = compute_next_run tick n.schedule now;
    last_run_at_ms = none;
    last_status = "";
    last_error = "";
  };
  created_at_ms = now;
  updated_at_ms = now;
  delete_after_run = str_eq n.schedule.kind "at";
}

-- `none` is the error of the save; `id` comes from generateID.
unfoldable pub add_job :
    Tick → ℤ → String → Io → NewJob → CronService → CronService × Option CronJob
add_job tick now id io n cs =
    let job = make_job tick now id n in
    let (cs', saved) = save_store_unsafe io (set_jobs (cs.store.jobs ++ job ∷ []) cs) in
    (cs', if saved then some job else none)

unfoldable pub find_job : String → List CronJob → Option CronJob
find_job id [] = none
find_job id (j ∷ js) = let rest = find_job id js in if str_eq j.id id then some j else rest

-- A change of the first job with an identifier, as the loops that end at it make.
unfoldable pub change_first : String → (CronJob → CronJob) → List CronJob → List CronJob
change_first id f [] = []
change_first id f (j ∷ js) =
    let rest = j ∷ change_first id f js in if str_eq j.id id then f j ∷ js else rest

pub data UpdateError : Type 0 where
  job_not_found save_failed : UpdateError

unfoldable pub update_job : ℤ → Io → CronJob → CronService → CronService × Option UpdateError
update_job now io job cs =
    if is_some (find_job job.id cs.store.jobs)
    then (let (cs', saved) = save_store_unsafe io (
          set_jobs (change_first job.id (λ _. record job { updated_at_ms = now }) cs.store.jobs)
            cs) in
        (cs', if saved then none else some save_failed))
    else (cs, some job_not_found)

abbrev pub other_id : String → CronJob → Bool
other_id id job = not (str_eq job.id id)

unfoldable pub remove_job_unsafe : Io → String → CronService → CronService × Bool
remove_job_unsafe io id cs =
    let jobs = keep (other_id id) cs.store.jobs in
    let removed = ltb (length jobs) (length cs.store.jobs) in
    let cs' = set_jobs jobs cs in (if removed then (save_store_unsafe io cs').0 else cs', removed)

-- RemoveJob takes the lock and calls removeJobUnsafe.
unfoldable pub remove_job : Io → String → CronService → CronService × Bool
remove_job io id cs = remove_job_unsafe io id cs

switch_job : Tick → ℤ → Bool → CronJob → CronJob
switch_job tick now true job = record job {
  enabled = true;
  updated_at_ms = now;
  state = record job.state { next_run_at_ms = compute_next_run tick job.schedule now };
}
switch_job tick now false job = record job {
  enabled = false;
  updated_at_ms = now;
  state = record job.state { next_run_at_ms = none };
}

-- EnableJob reads the clock twice within a millisecond or so: the model reads it once.
unfoldable pub enable_job :
    Tick → ℤ → Io → String → Bool → CronService → CronService × Option CronJob
unfolding switch_job
enable_job tick now io id on cs =
    let jobs = change_first id (switch_job tick now on) cs.store.jobs in
    if is_some (find_job id cs.store.jobs)
    then ((save_store_unsafe io (set_jobs jobs cs)).0, find_job id jobs)
    else (cs, none)

unfoldable pub list_jobs : Bool → CronService → List CronJob
list_jobs include_disabled cs =
    if include_disabled then cs.store.jobs else keep (λ j. j.enabled) cs.store.jobs

unfoldable pub sooner : Option ℤ → Option ℤ → Option ℤ
sooner none wake = wake
sooner (some t) none = some t
sooner (some t) (some w) = if ltb_ℤ t w then some t else some w

unfoldable pub next_wake : Option ℤ → List CronJob → Option ℤ
unfolding sooner
next_wake wake [] = wake
next_wake wake (j ∷ js) =
    next_wake (if j.enabled then sooner j.state.next_run_at_ms wake else wake) js

unfoldable pub get_next_wake_ms : CronService → Option ℤ
unfolding next_wake
get_next_wake_ms cs = next_wake none cs.store.jobs
