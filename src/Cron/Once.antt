-- ===== src/Cron/Once.antt =====
-- What becomes of a job that has run: the end of executeJobByID of pkg/cron/service.go.
use picoclaw.Prelude.{
  String, ◌≡◌, refl, sym, ap, ◌∙◌, inl, inr, true, false, Option, none, some, List, [], ◌∷◌, arith,
  str_eq, eq_iff, Bool-cases, keep,
}
use picoclaw.Prelude.Int.{ℤ}
use picoclaw.Cron.{CronJob, CronService, Io, Tick, set_jobs, save_store_unsafe}
use picoclaw.Cron.Store.{save-store}
use picoclaw.Cron.Jobs.{find_job, change_first, other_id, remove_job_unsafe}
use picoclaw.Cron.Run.{
  JobHandler, RunEnv, is_due, execute_job_by_id, after_handler, call_handler, settle,
  record_outcome, disable, reschedule,
}

find_job-keep : (id : String) (js : List CronJob) → find_job id (keep (other_id id) js) ≡ none
unfolding find_job
find_job-keep id [] = refl
find_job-keep id (j ∷ js) = ground (arith, find_job-keep id js)

find_job-change_first :
    (id : String) (f : CronJob → CronJob) (js : List CronJob) (j : CronJob)
    → ((x : CronJob) → (f x).id ≡ x.id)
    → find_job id js ≡ some j
    → find_job id (change_first id f js) ≡ some (f j)
unfolding find_job change_first
find_job-change_first id f [] j same h = absurd (cc)
find_job-change_first id f (x ∷ xs) j same h =
    ground (arith, find_job-change_first id f xs j same, same x)

find_job-change_first_other :
    (id other : String) (f : CronJob → CronJob) (js : List CronJob)
    → ((x : CronJob) → (f x).id ≡ x.id)
    → str_eq id other ≡ false
    → find_job other (change_first id f js) ≡ find_job other js
unfolding find_job change_first
find_job-change_first_other id other f [] same h = refl
find_job-change_first_other id other f (x ∷ xs) same h = ground (
  arith,
  find_job-change_first_other id other f xs same h,
  same x,
  eq_iff x.id id,
  eq_iff x.id other,
)

remove_job_unsafe-jobs :
    (io : Io) (id : String) (cs : CronService)
    → (remove_job_unsafe io id cs).0.store.jobs ≡ keep (other_id id) cs.store.jobs
unfolding remove_job_unsafe save_store_unsafe
remove_job_unsafe-jobs io id cs = ground arith

abbrev recorded : RunEnv → Option String → String → CronService → CronService
recorded env err id cs = set_jobs (change_first id (record_outcome env err) cs.store.jobs) cs

some_inj : {x y : CronJob} → some x ≡ some y → x ≡ y
some_inj h = cc

disable-id : (x : CronJob) → (disable x).id ≡ x.id
unfolding disable
disable-id x = refl

disable_lem : (t : ℤ) (x : CronJob) → ((disable x).enabled ≡ false) × (is_due t (disable x) ≡ false)
unfolding disable is_due
disable_lem t x = (refl, refl)

module _ (tick : Tick) (env : RunEnv) (err : Option String) (id : String) (job : CronJob)
    (cs : CronService) (found : find_job id cs.store.jobs ≡ some job) where
  found_recorded :
      find_job id (recorded env err id cs).store.jobs ≡ some (record_outcome env err job)
  unfolding record_outcome
  found_recorded =
      find_job-change_first id (record_outcome env err) cs.store.jobs job (λ x. refl) found

  settle_removes :
      str_eq job.schedule.kind "at" ≡ true
      → job.delete_after_run ≡ true
      → find_job id (settle tick env err id job cs).store.jobs ≡ none
  unfolding settle
  settle_removes kind once =
      rw (kind, once)
        (ap (λ js. find_job id js)
            (remove_job_unsafe-jobs env.remove_io id (recorded env err id cs))
          ∙ find_job-keep id (recorded env err id cs).store.jobs)

  settle_disables :
      str_eq job.schedule.kind "at" ≡ true
      → job.delete_after_run ≡ false
      → find_job id (settle tick env err id job cs).store.jobs
        ≡ some (disable (record_outcome env err job))
  unfolding settle
  settle_disables kind kept = ground (
    arith,
    find_job-change_first id disable (recorded env err id cs).store.jobs
        (record_outcome env err job) disable-id found_recorded,
  )

  settle_reschedules :
      str_eq job.schedule.kind "at" ≡ false
      → find_job id (settle tick env err id job cs).store.jobs
        ≡ some (reschedule tick env.computed (record_outcome env err job))
  unfolding settle reschedule
  settle_reschedules kind = rw (kind) (
      find_job-change_first id (reschedule tick env.computed) (recorded env err id cs).store.jobs
        (record_outcome env err job) (λ x. refl) found_recorded)

execute_job_by_id-settle :
    (tick : Tick) (handler : Option JobHandler) (env : RunEnv) (id : String) (cs : CronService)
    (called job : CronJob)
    → find_job id cs.store.jobs ≡ some called
    → find_job id (call_handler handler called cs).0.store.jobs ≡ some job
    → execute_job_by_id tick handler env id cs
      ≡ (save_store_unsafe env.save_io (
          settle tick env
            (call_handler handler called cs).1
            id
            job
            (call_handler handler called cs).0)).0
unfolding execute_job_by_id after_handler
execute_job_by_id-settle tick handler env id cs called job first found = cc

-- Whatever the handler does to the service, a job that is "at" when the handler ends is gone after
-- executeJobByID, or is disabled and not due at any time.
pub at_job_runs_once :
    (tick : Tick) (handler : Option JobHandler) (env : RunEnv) (id : String) (cs : CronService)
    (called job j : CronJob) (t : ℤ)
    → find_job id cs.store.jobs ≡ some called
    → find_job id (call_handler handler called cs).0.store.jobs ≡ some job
    → str_eq job.schedule.kind "at" ≡ true
    → find_job id (execute_job_by_id tick handler env id cs).store.jobs ≡ some j
    → (j.enabled ≡ false) × (is_due t j ≡ false)
at_job_runs_once tick handler env id cs called job j t first found kind after =
    let (cs', err) = call_handler handler called cs in
    let now_found =
      ap (λ s. find_job id s.jobs) (sym (save-store env.save_io _))
      ∙ ap (λ c. find_job id c.store.jobs)
          (sym (execute_job_by_id-settle tick handler env id cs called job first found))
      ∙ after in
    elim (Bool-cases job.delete_after_run) [
      | inl once ↦ absurd (cc (now_found, settle_removes tick env err id job cs' found kind once))
      | inr kept ↦
          (let (off, idle) = disable_lem t (record_outcome env err job) in
            let same =
              some_inj
                (sym (settle_disables tick env err id job cs' found kind kept) ∙ now_found) in
            (cc (same, off), cc (same, idle)))
    ]

-- A job of another kind is given the schedule's next run and the outcome of this one, if the handler has
-- left it on the list.
pub recurring_job_reschedules :
    (tick : Tick) (handler : Option JobHandler) (env : RunEnv) (id : String) (cs : CronService)
    (called job : CronJob)
    → find_job id cs.store.jobs ≡ some called
    → find_job id (call_handler handler called cs).0.store.jobs ≡ some job
    → str_eq job.schedule.kind "at" ≡ false
    → find_job id (execute_job_by_id tick handler env id cs).store.jobs
      ≡ some
          (reschedule tick env.computed (record_outcome env (call_handler handler called cs).1 job))
recurring_job_reschedules tick handler env id cs called job first found kind =
    let (cs', err) = call_handler handler called cs in
    ap (λ c. find_job id c.store.jobs)
      (execute_job_by_id-settle tick handler env id cs called job first found)
    ∙ ap (λ s. find_job id s.jobs) (save-store env.save_io _)
    ∙ settle_reschedules tick env err id job cs' found kind
