-- ===== src/Cron/Store.antt =====
-- What a save of pkg/cron/service.go leaves on disk and what a later start reads back.
use picoclaw.Prelude.{String, ◌≡◌, ◌⊎◌, true, false, ◌&&◌, none, some, [], ◌∷◌, ◌++◌, arith}
use picoclaw.Prelude.Int.{ℤ}
use picoclaw.Cron.{
  CronService, torn, stopped_short, Io, Tick, save_store_unsafe, written_file, write_ok, load_store,
  decode, new_cron_service, start, begin,
}
use picoclaw.Cron.Jobs.{NewJob, make_job, add_job}

pub save-store : (io : Io) (cs : CronService) → (save_store_unsafe io cs).0.store ≡ cs.store
unfolding save_store_unsafe
save-store io cs = ground arith

-- A service made from the file that a save left, when the save reported no error, has the saved jobs.
pub new_cron_service-save :
    (io : Io) (cs : CronService)
    → (save_store_unsafe io cs).1 ≡ true
    → (new_cron_service (save_store_unsafe io cs).0.file).store ≡ cs.store
unfolding save_store_unsafe written_file write_ok new_cron_service load_store decode
new_cron_service-save io cs h = ground arith

-- When AddJob reports an error, the job is on the list all the same, and the file either is as it was or
-- does not decode.
add_job_error_keeps_job :
    (tick : Tick) (now : ℤ) (id : String) (io : Io) (n : NewJob) (cs : CronService)
    → (add_job tick now id io n cs).1 ≡ none
    → ((add_job tick now id io n cs).0.store.jobs ≡ cs.store.jobs ++ make_job tick now id n ∷ [])
      × (((add_job tick now id io n cs).0.file ≡ cs.file)
          ⊎ ((add_job tick now id io n cs).0.file ≡ some torn))
unfolding add_job save_store_unsafe written_file write_ok
add_job_error_keeps_job tick now id io n cs h = ground arith

-- A save that stops short loses every job: a new service made from that file has none, and its Start
-- fails.
start_after_torn_save :
    (tick : Tick) (now : ℤ) (io next_io : Io) (cs : CronService)
    → io.mkdir_ok && io.marshal_ok ≡ true
    → io.write ≡ stopped_short
    → ((start tick now next_io (new_cron_service (save_store_unsafe io cs).0.file)).1 ≡ false)
      × ((start tick now next_io (new_cron_service (save_store_unsafe io cs).0.file)).0.store.jobs
          ≡ [])
unfolding save_store_unsafe written_file new_cron_service load_store decode start begin
start_after_torn_save tick now io next_io cs ok short = ground arith
