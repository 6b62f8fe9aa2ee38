-- ===== src/Cron.antt =====
-- pkg/cron/service.go: scheduled jobs, their next runs and their store file. The operations on jobs are
-- in Cron/Jobs.antt, the check and the execution of due jobs in Cron/Run.antt. The cron expressions of
-- the package gronx are a function `Tick`, the clock's readings and new identifiers are arguments.
pub mod Jobs
pub mod Run
pub mod Next
pub mod Store
pub mod Claim
pub mod Arguments
pub mod CronTool
pub mod JobRun
pub mod Commands
mod Once
mod Missed
mod Examples
use picoclaw.Prelude.{
  ◌+◌, String, Bool, true, false, ◌&&◌, Option, none, some, List, [], map, str_eq, if◌then◌else◌,
}
use picoclaw.Prelude.Int.{ℤ, pos, wrap64, ◌+ℤ◌, ltb_ℤ, leb_ℤ}

pub record CronSchedule : Type 0 where
  pub kind : String
  pub at_ms : Option ℤ
  pub every_ms : Option ℤ
  pub expr : String
  pub tz : String

pub record CronPayload : Type 0 where
  pub kind : String
  pub message : String
  pub command : String
  pub deliver : Bool
  pub channel : String
  pub to : String

pub record CronJobState : Type 0 where
  pub next_run_at_ms : Option ℤ
  pub last_run_at_ms : Option ℤ
  pub last_status : String
  pub last_error : String

pub record CronJob : Type 0 where
  pub id : String
  pub name : String
  pub enabled : Bool
  pub schedule : CronSchedule
  pub payload : CronPayload
  pub state : CronJobState
  pub created_at_ms : ℤ
  pub updated_at_ms : ℤ
  pub delete_after_run : Bool

pub record CronStore : Type 0 where
  pub version : ℤ
  pub jobs : List CronJob

-- The store file holds the JSON of a store, or bytes that do not decode.
pub data Content : Type 0 where
  encoded : CronStore → Content
  torn : Content

pub record CronService : Type 0 where
  pub store : CronStore
  pub running : Bool
  pub file : Option Content

-- gronx.NextTickAfter on a time in milliseconds; `none` is its error.
abbrev pub Tick : Type 0
Tick = String → ℤ → Option ℤ

-- What the operating system answers to one save.
pub data WriteOutcome : Type 0 where
  not_opened stopped_short written : WriteOutcome

pub record Io : Type 0 where
  pub mkdir_ok : Bool
  pub marshal_ok : Bool
  pub write : WriteOutcome

at_run : Option ℤ → ℤ → Option ℤ
at_run none now = none
at_run (some t) now = if ltb_ℤ now t then some t else none

every_run : Option ℤ → ℤ → Option ℤ
every_run none now = none
every_run (some e) now = if leb_ℤ e (pos 0) then none else some (wrap64 (now +ℤ e))

unfoldable pub compute_next_run : Tick → CronSchedule → ℤ → Option ℤ
unfolding at_run every_run
compute_next_run tick s now =
    if str_eq s.kind "at"
    then at_run s.at_ms now
    else if str_eq s.kind "every"
    then every_run s.every_ms now
    else if str_eq s.kind "cron"
    then (if str_eq s.expr "" then none else tick s.expr now)
    else none

written_file : WriteOutcome → CronStore → Option Content → Option Content
written_file not_opened s f = f
written_file stopped_short s f = some torn
written_file written s f = some (encoded s)

write_ok : WriteOutcome → Bool
write_ok written = true
write_ok stopped_short = false
write_ok not_opened = false

-- The service after a save, and whether the save reports no error.
unfoldable pub save_store_unsafe : Io → CronService → CronService × Bool
unfolding written_file write_ok
save_store_unsafe io cs =
    if io.mkdir_ok && io.marshal_ok
    then (record cs { file = written_file io.write cs.store cs.file }, write_ok io.write)
    else (cs, false)

abbrev pub empty_store : CronStore
empty_store = record { version = pos 1; jobs = [] }

-- The store and whether it loads without an error: a file that is not there is none.
decode : Option Content → CronStore × Bool
decode none = (empty_store, true)
decode (some torn) = (empty_store, false)
decode (some (encoded s)) = (s, true)

unfoldable pub load_store : CronService → CronService × Bool
unfolding decode
load_store cs = let (s, fine) = decode cs.file in (record cs { store = s }, fine)

unfoldable pub new_cron_service : Option Content → CronService
unfolding load_store
new_cron_service file =
    (load_store (record { store = empty_store; running = false; file = file })).0

abbrev pub set_jobs : List CronJob → CronService → CronService
set_jobs jobs cs = record cs { store = record cs.store { jobs = jobs } }

abbrev pub with_next : Option ℤ → CronJob → CronJob
with_next t job = record job { state = record job.state { next_run_at_ms = t } }

unfoldable pub recompute : Tick → ℤ → CronJob → CronJob
recompute tick now job =
    if job.enabled then with_next (compute_next_run tick job.schedule now) job else job

unfoldable pub recompute_next_runs : Tick → ℤ → CronService → CronService
unfolding recompute
recompute_next_runs tick now cs = set_jobs (map (recompute tick now) cs.store.jobs) cs

-- Start, and whether it reports no error; it begins the ticks that call checkJobs.
unfoldable pub begin : Tick → ℤ → Io → CronService × Bool → CronService × Bool
begin tick now io (cs, false) = (cs, false)
begin tick now io (cs, true) =
    let (cs', saved) = save_store_unsafe io (recompute_next_runs tick now cs) in
    if saved then (record cs' { running = true }, true) else (cs', false)

unfoldable pub start : Tick → ℤ → Io → CronService → CronService × Bool
unfolding begin
start tick now io cs = if cs.running then (cs, true) else begin tick now io (load_store cs)

unfoldable pub stop : CronService → CronService
stop cs = record cs { running = false }
