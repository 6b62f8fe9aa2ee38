-- ===== src/Failover/Probe.antt =====
-- ShouldProbe, RunProbe and recordProbeResult of pkg/failover/manager.go.
use picoclaw.Prelude.{
  String, Bool, true, false, not, ◌&&◌, ◌||◌, Option, none, some, [], ◌∷◌, str_eq, if◌then◌else◌,
}
use picoclaw.Prelude.Int.{ℤ, pos, negsuc, inc64, ltb_ℤ, leb_ℤ, eqb_ℤ, ◌+ℤ◌}
use picoclaw.Prelude.Text.{concat, itoa}
use picoclaw.State.{FailoverState, Time, zero_time}
use picoclaw.Failover.{
  Config, Env, Manager, ProbeOutcome, LlmError, rate_limited, other_error, mode_normal,
  mode_degraded, mode_awaiting_user_switchback, max_int, minutes, persist_locked, enabled,
}
use picoclaw.Failover.Hints.{extend_by_hint}

unfoldable pub threshold : Config → ℤ
threshold cfg = max_int cfg.probe_success_threshold (pos 1)

probe_note : Env → ℤ → ℤ → String
probe_note env n limit =
    concat (itoa n ∷ "/" ∷ itoa limit ∷ " successful probes as of " ∷ env.format_time env.now ∷ [])

-- The state after one more success, before the threshold is looked at.
count_success : Env → Config → FailoverState → FailoverState
unfolding probe_note
count_success env cfg fs =
    let n = inc64 fs.consecutive_probe_successes in
    record fs {
      last_probe_at = env.now;
      consecutive_probe_successes = n;
      last_switchback_probe = probe_note env n (threshold cfg);
      next_probe_at = env.now +ℤ minutes cfg.probe_interval_minutes;
    }

auto_switchback : String → FailoverState → FailoverState
auto_switchback primary fs = record fs {
  mode = mode_normal;
  active_model = primary;
  fallback_index = negsuc 0;
  last_switch_reason = "auto_switchback_probe_healthy";
  last_switchback_prompt_at = zero_time;
  last_switchback_probe = "";
  switchback_prompt_sent = false;
  switch_epoch = inc64 fs.switch_epoch;
}

become_healthy : Config → String → FailoverState → FailoverState
unfolding auto_switchback
become_healthy cfg primary fs =
    if cfg.switchback_requires_approval
    then record fs { mode = mode_awaiting_user_switchback }
    else auto_switchback primary fs

unfoldable pub probe_success : Env → Config → String → FailoverState → FailoverState
unfolding count_success become_healthy
probe_success env cfg primary fs =
    let fs' = count_success env cfg fs in
    if leb_ℤ (threshold cfg) fs'.consecutive_probe_successes
    then become_healthy cfg primary fs'
    else fs'

hold_on_rate_limit : Env → Config → Option LlmError → FailoverState → FailoverState
hold_on_rate_limit env cfg (some (rate_limited rl)) fs =
    let next = extend_by_hint env (some (rate_limited rl)) (env.now +ℤ minutes cfg.hold_minutes) in
    record fs { hold_until = next; next_probe_at = next }
hold_on_rate_limit env cfg (some (other_error s)) fs = fs
hold_on_rate_limit env cfg none fs = fs

unfoldable pub probe_failure : Env → Config → Option LlmError → FailoverState → FailoverState
unfolding hold_on_rate_limit
probe_failure env cfg err fs = hold_on_rate_limit env cfg err (record fs {
  last_probe_at = env.now;
  consecutive_probe_successes = pos 0;
  mode = mode_degraded;
  last_switchback_probe = "";
  switchback_prompt_sent = false;
  next_probe_at = env.now +ℤ minutes cfg.probe_failure_backoff_minutes;
})

module _ {P : Type 0} where
  unfoldable pub should_probe : Time → Manager P → Bool
  should_probe now m =
      let fs = m.fs in
      enabled m
      && not (str_eq fs.active_model "" || str_eq fs.active_model m.primary)
      && not (ltb_ℤ now fs.hold_until)
      && (eqb_ℤ fs.next_probe_at zero_time || not (ltb_ℤ now fs.next_probe_at))

  unfoldable pub record_probe_result :
      Env → Bool → Option LlmError → Manager P → Manager P × ProbeOutcome
  record_probe_result env true err m =
      let fs = probe_success env m.cfg m.primary m.fs in
      (
        persist_locked env (record m { fs = fs }),
        record {
          success = true;
          became_healthy = leb_ℤ (threshold m.cfg) fs.consecutive_probe_successes;
          next_probe_at = fs.next_probe_at;
        },
      )
  record_probe_result env false err m =
      let fs = probe_failure env m.cfg err m.fs in
      (
        persist_locked env (record m { fs = fs }),
        record { success = false; became_healthy = false; next_probe_at = fs.next_probe_at },
      )

  -- `reply` is what creating the provider and its Chat come to: an error, or none.
  unfoldable pub run_probe : Env → Option LlmError → Manager P → Manager P × ProbeOutcome
  run_probe env none m = record_probe_result env true none m
  run_probe env (some err) m = record_probe_result env false (some err) m
