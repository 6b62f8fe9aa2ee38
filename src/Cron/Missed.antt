-- ===== src/Cron/Missed.antt =====
-- What Start of pkg/cron/service.go does with a job whose time has passed while the program was down.
use picoclaw.Prelude.{
  String, ◌≡◌, refl, ap, ◌∙◌, true, false, Option, none, some, List, [], ◌∷◌, map, arith, str_eq,
}
use picoclaw.Prelude.Int.{ℤ, leb_ℤ}
use picoclaw.Cron.{
  CronJob, CronStore, CronService, encoded, Io, Tick, at_run, compute_next_run, save_store_unsafe,
  load_store, decode, start, begin, recompute, recompute_next_runs, with_next,
}
use picoclaw.Cron.Jobs.{find_job}
use picoclaw.Cron.Run.{is_due}

find_job-recompute :
    (tick : Tick) (now : ℤ) (id : String) (js : List CronJob) (j : CronJob)
    → find_job id js ≡ some j
    → find_job id (map (recompute tick now) js) ≡ some (recompute tick now j)
unfolding find_job recompute
find_job-recompute tick now id [] j h = absurd (cc)
find_job-recompute tick now id (x ∷ xs) j h = ground (arith, find_job-recompute tick now id xs j)

at_run_past :
    (at_ms : Option ℤ) (now a : ℤ) → at_ms ≡ some a → leb_ℤ a now ≡ true → at_run at_ms now ≡ none
unfolding at_run
at_run_past none now a h past = refl
at_run_past (some b) now a h past = ground arith

recompute_missed :
    (tick : Tick) (now : ℤ) (j : CronJob) (a : ℤ)
    → j.enabled ≡ true
    → str_eq j.schedule.kind "at" ≡ true
    → j.schedule.at_ms ≡ some a
    → leb_ℤ a now ≡ true
    → recompute tick now j ≡ with_next none j
unfolding recompute compute_next_run
recompute_missed tick now j a on kind at past =
    ground (arith, at_run_past j.schedule.at_ms now a at past)

start-jobs :
    (tick : Tick) (now : ℤ) (io : Io) (cs : CronService) (s : CronStore)
    → cs.running ≡ false
    → cs.file ≡ some (encoded s)
    → (start tick now io cs).0.store.jobs ≡ map (recompute tick now) s.jobs
unfolding start begin load_store decode recompute_next_runs save_store_unsafe
start-jobs tick now io cs s stopped file = ground arith

-- An enabled "at" job whose time has come by the Start stays on the list, enabled and without a next
-- run, and no check at any time finds it due.
pub missed_at_job_never_runs :
    (tick : Tick) (now t a : ℤ) (io : Io) (cs : CronService) (s : CronStore) (id : String)
    (j : CronJob)
    → cs.running ≡ false
    → cs.file ≡ some (encoded s)
    → find_job id s.jobs ≡ some j
    → j.enabled ≡ true
    → str_eq j.schedule.kind "at" ≡ true
    → j.schedule.at_ms ≡ some a
    → leb_ℤ a now ≡ true
    → (find_job id (start tick now io cs).0.store.jobs ≡ some (with_next none j))
      × (is_due t (with_next none j) ≡ false)
unfolding is_due
missed_at_job_never_runs tick now t a io cs s id j stopped file found on kind at past = (
  ap (λ js. find_job id js) (start-jobs tick now io cs s stopped file)
      ∙ find_job-recompute tick now id s.jobs j found
      ∙ ap some (recompute_missed tick now j a on kind at past),
  ground arith,
)
