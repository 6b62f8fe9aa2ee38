-- ===== src/Cron/Claim.antt =====
-- Why one due time starts a job once: the part of checkJobs of pkg/cron/service.go under the lock.
use picoclaw.Prelude.{String, ◌≡◌, refl, ap, ◌∙◌, true, false, List, [], ◌∷◌, arith, eq_iff}
use picoclaw.Prelude.Int.{ℤ}
use picoclaw.Cron.{CronJob, CronService, Io, set_jobs}
use picoclaw.Cron.Store.{save-store}
use picoclaw.Cron.Run.{is_due, due_ids, id_in, claim, claim_due}

due_ids-claim :
    (t : ℤ) (due : List String) (js : List CronJob) (id : String)
    → id_in id due ≡ true
    → id_in id (due_ids t (claim due js)) ≡ false
unfolding claim due_ids is_due id_in
due_ids-claim t due [] id h = refl
due_ids-claim t due (j ∷ js) id h = ground (arith, due_ids-claim t due js id h, eq_iff j.id id)

abbrev claimed : ℤ → CronService → CronService
claimed now cs = set_jobs (claim (due_ids now cs.store.jobs) cs.store.jobs) cs

-- Once checkJobs has collected the due jobs and reset their next runs, no check at any time finds one of
-- them due, whatever the save reports.
pub claim_due-due_ids :
    (now later : ℤ) (io : Io) (cs : CronService) (id : String)
    → id_in id (claim_due now io cs).1 ≡ true
    → id_in id (due_ids later (claim_due now io cs).0.store.jobs) ≡ false
unfolding claim_due
claim_due-due_ids now later io cs id h =
    ap (λ s. id_in id (due_ids later s.jobs)) (save-store io (claimed now cs))
    ∙ due_ids-claim later (due_ids now cs.store.jobs) cs.store.jobs id h
