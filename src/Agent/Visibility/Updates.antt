-- ===== src/Agent/Visibility/Updates.antt =====
-- How often the summaries of pkg/agent/visibility.go are sent.
use picoclaw.Prelude.{
  ℕ, suc, ◌+◌, ◌*◌, ◌≤◌, ◌<◌, String, ◌≡◌, refl, ◌∙◌, inl, inr, Bool, true, not, ◌&&◌, ◌||◌, Option,
  some, List, [], ◌∷◌, ◌++◌, arith, str_eq, Bool-cases,
}
use picoclaw.Prelude.Int.{
  ℤ, pos, pos_part, neg_part, wrap64, ◌+ℤ◌, ◌*ℤ◌, leb_ℤ, +ℤ_parts, wrap64_of_InInt64,
}
use picoclaw.Llm.{Fields}
use picoclaw.Agent.Visibility.{
  is_internal, started, has_id, finish_first, finished, maybe_update, start_action, complete_action,
  called,
}
use picoclaw.Agent.Visibility.Format.{
  ActionStream, Action, classify_action, VisibilityConfig, new_action_stream,
}

-- The start or the end of an action with its readings of the clock.
pub data Event : Type 0 where
  starts : String → Fields → ℤ → ℤ → ℤ → Event
  completes : String → String → Option String → ℤ → (Action → ℤ) → ℤ → Event

-- The world counts the summaries.
abbrev pub counting : Option (String → ℕ → ℕ)
counting = some (λ summary n. suc n)

unfoldable pub step : Event → ActionStream × ℕ → ActionStream × ℕ
step (starts tool_name args stamp now later) r =
    (start_action counting tool_name args stamp now later r).0
step (completes id result err now since later) r =
    complete_action counting id result err now since later r

unfoldable pub run : List Event → ActionStream × ℕ → ActionStream × ℕ
unfolding step
run [] r = r
run (e ∷ es) r = run es (step e r)

leb_ℤ→≤ : (a b : ℤ) → leb_ℤ a b ≡ true → pos_part a + neg_part b ≤ pos_part b + neg_part a
leb_ℤ→≤ a b h = ground arith

one_more : (n d : ℕ) → suc n * d ≡ n * d + d
one_more n d = grind arith

module _ (ms start : ℕ) (small : ms * 1000000 < 9223372036854775808) where
  -- So many intervals have passed since the start as summaries were sent.
  abbrev IsSpaced : ActionStream × ℕ → Type 0
  IsSpaced (s, n) =
      (s.config.update_interval_ms ≡ pos ms)
      × (n * (ms * 1000000) + start + neg_part s.last_update_time ≤ pos_part s.last_update_time)

  interval_lem : wrap64 (pos ms *ℤ pos 1000000) ≡ pos (ms * 1000000)
  unfolding ◌*ℤ◌
  interval_lem = wrap64_of_InInt64 _ (ground arith) ∙ ground arith

  maybe_update-IsSpaced :
      (now : ℤ) (s : ActionStream) (n : ℕ)
      → IsSpaced (s, n)
      → IsSpaced (maybe_update counting now (s, n))
  unfolding maybe_update called
  maybe_update-IsSpaced now s n (same, h) =
      let next = s.last_update_time +ℤ pos (ms * 1000000) in
      elim (Bool-cases (leb_ℤ next now)) [
        | inl due ↦
            rw (same, interval_lem, due)
              (
                refl,
                omega (
                  arith,
                  one_more n (ms * 1000000),
                  leb_ℤ→≤ next now due,
                  +ℤ_parts s.last_update_time (pos (ms * 1000000)),
                ),
              )
        | inr early ↦ rw (same, interval_lem, early) (refl, h)
      ]

  step-IsSpaced : (e : Event) (r : ActionStream × ℕ) → IsSpaced r → IsSpaced (step e r)
  unfolding step start_action complete_action
  step-IsSpaced (starts tool_name args stamp now later) (s, n) h =
      elim (Bool-cases (not s.config.verbose_mode && is_internal (classify_action tool_name))) [
        | inl skipped ↦ rw (skipped, step) h
        | inr shown ↦
            rw (shown, step)
              (maybe_update-IsSpaced later
                (record s {
                  actions =
                      s.actions
                      ++ started tool_name args (classify_action tool_name) stamp now ∷ [];
                })
                n h)
      ]
  step-IsSpaced (completes id result err now since later) (s, n) h =
      elim (Bool-cases (str_eq id "" || not (has_id id s.actions))) [
        | inl skipped ↦ rw (skipped, step) h
        | inr shown ↦
            rw (shown, step)
              (maybe_update-IsSpaced later
                (record s {
                  actions = finish_first id (λ a. finished result err now (since a) a) s.actions;
                })
                n h)
      ]

  run-IsSpaced : (es : List Event) (r : ActionStream × ℕ) → IsSpaced r → IsSpaced (run es r)
  unfolding run
  run-IsSpaced [] r h = h
  run-IsSpaced (e ∷ es) r h = run-IsSpaced es (step e r) (step-IsSpaced e r h)

-- Whatever actions start and end, the summaries that they send lie an interval apart on average: the time
-- from the start of the stream to the last of them is at least one interval for each.
pub updates_spaced :
    (es : List Event) (verbose : Bool) (ms start : ℕ)
    → ms * 1000000 < 9223372036854775808
    → (let config : VisibilityConfig = record {
      verbose_mode = verbose;
      update_interval_ms = pos ms;
    } in
        let r = run es (new_action_stream config (pos start), 0) in
        r.1 * (ms * 1000000) + start + neg_part r.0.last_update_time
        ≤ pos_part r.0.last_update_time)
unfolding new_action_stream
updates_spaced es verbose ms start small =
    (run-IsSpaced ms start small es
      (
        new_action_stream (record { verbose_mode = verbose; update_interval_ms = pos ms })
            (pos start),
        0,
      )
      (refl, omega arith)).1
