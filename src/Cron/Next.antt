-- ===== src/Cron/Next.antt =====
-- When a job runs next: computeNextRun and getNextWakeMS of pkg/cron/service.go.
use picoclaw.Prelude.{
  String, ◌≡◌, refl, sym, ap, ◌∙◌, inl, inr, Bool, true, false, ◌||◌, Option, none, some, List, [],
  ◌∷◌, arith, ltb, if◌then◌else◌, Bool-cases, length,
}
use picoclaw.Prelude.Int.{ℤ, pos, ◌+ℤ◌, ◌<ℤ◌, leb_ℤ, InInt64, wrap64_of_InInt64, +ℤ_parts}
use picoclaw.Cron.Jobs.{get_next_wake_ms, next_wake, sooner}
use picoclaw.Cron.Run.{reached, is_due, due_ids}
use picoclaw.Cron.{CronSchedule, CronJob, CronService, Tick, compute_next_run, at_run, every_run}

-- gronx.NextTickAfter with its last argument false answers a time after the one it is given.
abbrev pub TicksAhead : Tick → Type 0
TicksAhead tick = (expr : String) (now t : ℤ) → tick expr now ≡ some t → now <ℤ t

abbrev pub EveryFits : CronSchedule → ℤ → Type 0
EveryFits s now = (e : ℤ) → s.every_ms ≡ some e → InInt64 (now +ℤ e)

at_run-lt : (a : Option ℤ) (now t : ℤ) → at_run a now ≡ some t → now <ℤ t
unfolding at_run
at_run-lt none now t h = absurd (cc)
at_run-lt (some a) now t h = ground arith

add-lt : (now e : ℤ) → leb_ℤ e (pos 0) ≡ false → now <ℤ (now +ℤ e)
add-lt now e h = ground (arith, +ℤ_parts now e)

every_run-lt :
    (e : Option ℤ) (now t : ℤ)
    → ((d : ℤ) → e ≡ some d → InInt64 (now +ℤ d))
    → every_run e now ≡ some t
    → now <ℤ t
unfolding every_run
every_run-lt none now t fits h = absurd (cc)
every_run-lt (some e) now t fits h = elim (Bool-cases (leb_ℤ e (pos 0))) [
  | inl p ↦ absurd (cc)
  | inr p ↦ ground (arith, add-lt now e p, wrap64_of_InInt64 (now +ℤ e) (fits e refl))
]

-- A next run that is computed lies after the present, when the expressions' ticks do and the present
-- plus the interval of an "every" schedule fits in 64 bits.
pub compute_next_run-lt :
    (tick : Tick) (s : CronSchedule) (now t : ℤ)
    → TicksAhead tick
    → EveryFits s now
    → compute_next_run tick s now ≡ some t
    → now <ℤ t
unfolding compute_next_run
compute_next_run-lt tick s now t ahead fits h =
    ground (arith, at_run-lt s.at_ms now t, every_run-lt s.every_ms now t fits, ahead s.expr now t)

or_swap : (a b c : Bool) → ((a || b) || c) ≡ (b || (a || c))
or_swap true true c = refl
or_swap true false c = refl
or_swap false b c = refl

reached-sooner :
    (now : ℤ) (n wake : Option ℤ)
    → reached (sooner n wake) now ≡ (reached n now || reached wake now)
unfolding sooner
reached-sooner now none wake = refl
reached-sooner now (some t) none = ground arith
reached-sooner now (some t) (some w) = ground arith

abbrev with_job : CronJob → Option ℤ → Option ℤ
with_job j wake = if j.enabled then sooner j.state.next_run_at_ms wake else wake

reached-with_job :
    (now : ℤ) (j : CronJob) (wake : Option ℤ)
    → reached (with_job j wake) now ≡ (is_due now j || reached wake now)
unfolding is_due
reached-with_job now j wake = elim (Bool-cases j.enabled) [
  | inl p ↦ cc (reached-sooner now j.state.next_run_at_ms wake)
  | inr p ↦ cc
]

due_ids-item :
    (now : ℤ) (j : CronJob) (js : List CronJob)
    → ltb 0 (length (due_ids now (j ∷ js))) ≡ (is_due now j || ltb 0 (length (due_ids now js)))
unfolding due_ids
due_ids-item now j js = elim (Bool-cases (is_due now j)) [
  | inl p ↦ ground (arith, p)
  | inr p ↦ ground (arith, p)
]

next_wake-reached :
    (now : ℤ) (wake : Option ℤ) (js : List CronJob)
    → reached (next_wake wake js) now ≡ (reached wake now || ltb 0 (length (due_ids now js)))
unfolding next_wake due_ids is_due sooner
next_wake-reached now none [] = refl
next_wake-reached now (some w) [] = ground arith
next_wake-reached now wake (j ∷ js) =
    next_wake-reached now (with_job j wake) js
    ∙ ap (λ b. b || ltb 0 (length (due_ids now js))) (reached-with_job now j wake)
    ∙ or_swap (is_due now j) (reached wake now) (ltb 0 (length (due_ids now js)))
    ∙ ap (λ b. reached wake now || b) (sym (due_ids-item now j js))

-- The next wake-up lies at or before a time exactly when a check at that time finds a job due.
pub get_next_wake_ms-due_ids :
    (now : ℤ) (cs : CronService)
    → reached (get_next_wake_ms cs) now ≡ ltb 0 (length (due_ids now cs.store.jobs))
unfolding get_next_wake_ms
get_next_wake_ms-due_ids now cs = next_wake-reached now none cs.store.jobs
