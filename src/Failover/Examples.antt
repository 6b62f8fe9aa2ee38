-- ===== src/Failover/Examples.antt =====
-- The theorems about the failover manager at a concrete chain of models.
use picoclaw.Prelude.{
  ℕ, String, ◌≡◌, refl, ◌≢◌, Bool, true, false, none, some, List, [], ◌∷◌, arith, eq_iff, any,
}
use picoclaw.Prelude.Int.{pos, negsuc, inc64, wrap64, ◌+ℤ◌}
use picoclaw.Prelude.Text.{trim_space, lower_is}
use picoclaw.State
use picoclaw.State.{
  Io, written, Time, zero_time, zero_state, zero_failover, Disk, encoded, save_atomic,
  set_failover_state,
}
use picoclaw.Failover.{Env, Config, Manager, other_error, mode_normal, persist_locked, enabled}
use picoclaw.Failover.Chain.{normalize_fallback_chain, new_manager, fill_defaults}
use picoclaw.Failover.Ops.{on_llm_rate_limited, refuse, degrade, advance, next_index, hold_until}
use picoclaw.Failover.Probe.{
  run_probe, record_probe_result, probe_success, probe_failure, threshold,
}
use picoclaw.Failover.Switchback.{
  read_answer, consume_switchback_prompt, handle_user_switchback_decision,
}
use picoclaw.Failover.Machine.{Event, rate_limit, probe, prompt, answer, step, run}
use picoclaw.Failover.Invariant.{Inv}
use picoclaw.Failover.Chains.{new_manager-run-Inv}
use picoclaw.Failover.Probing.{probes, probes_to_switch_back}
use picoclaw.Failover.Routing.{Limit, limits, limits_walk_chain}
use picoclaw.Failover.Approval.{is_approval, switchback_needs_approval}

abbrev good_io : Io
good_io = record { marshal_ok = true; write = written; rename_ok = true }

abbrev env_at : ℕ → Env
env_at t = record { now = pos t; io = good_io; format_time = λ u. "now"; parse_date = λ s. none }

abbrev config : Bool → Config
config ask = record {
  model = "claude";
  fallback_models = " gpt " ∷ "claude" ∷ "" ∷ "gemini" ∷ "gpt" ∷ [];
  fallback_model = "";
  enabled = true;
  hold_minutes = pos 300;
  probe_interval_minutes = pos 5;
  probe_success_threshold = pos 2;
  probe_failure_backoff_minutes = pos 10;
  switchback_requires_approval = ask;
}

abbrev empty_disk : Disk
empty_disk = record { state_file = none; temp_file = none; old_state_file = none }

abbrev fresh_state : State.Manager
fresh_state = record { state = zero_state; disk = empty_disk }

start : Bool → Manager String
unfolding new_manager normalize_fallback_chain persist_locked set_failover_state save_atomic
    fill_defaults trim_space enabled run step on_llm_rate_limited refuse degrade advance next_index
    inc64 wrap64 hold_until run_probe record_probe_result probe_success probe_failure threshold
    consume_switchback_prompt handle_user_switchback_decision read_answer lower_is ◌+ℤ◌
start ask = new_manager (env_at 1) (config ask) fresh_state

start_routes :
    ((start true).fs.active_model ≡ "claude")
    × ((start true).fs.fallback_index ≡ negsuc 0)
    × ((start true).fallbacks ≡ "gpt" ∷ "gemini" ∷ [])
unfolding start
start_routes = (refl, refl, refl)

claude_set : ◌≢◌ {A = String} "claude" ""
claude_set = ground (arith, eq_iff "claude" "")

gpt≢claude : ◌≢◌ {A = String} "gpt" "claude"
gpt≢claude = ground (arith, eq_iff "gpt" "claude")

abbrev limited : ℕ → Event String
limited t = rate_limit (env_at t) "claude" (some (other_error "429"))

new_manager-run-Inv_example :
    Inv (run (new_manager {P = String} (env_at 1) (config true) fresh_state) (limited 2 ∷ []))
new_manager-run-Inv_example =
    new_manager-run-Inv (env_at 1) (config true) fresh_state (limited 2 ∷ []) claude_set refl

start-Inv : (ask : Bool) (es : List (Event String)) → Inv (run (start ask) es)
unfolding start
start-Inv ask es = new_manager-run-Inv (env_at 1) (config ask) fresh_state es claude_set refl

abbrev limit_at : ℕ → Limit
limit_at t = record { env = env_at t; model = "claude"; err = none }

limits_walk_chain_example :
    let m' = limits (limit_at 2 ∷ limit_at 3 ∷ []) (run (start true) []) in
    (m'.fs.active_model ≡ "gemini") × (m'.fs.fallback_index ≡ pos 1)
unfolding start
limits_walk_chain_example =
    limits_walk_chain (limit_at 2) (limit_at 3 ∷ []) (run (start true) []) "gemini" refl
      (start-Inv true []) refl (omega arith) refl

-- A degraded manager that waits for two good probes.
abbrev probed : List (Event String)
probed = limited 2 ∷ probe (env_at 5) none ∷ probe (env_at 6) none ∷ []

abbrev yes_later : List (Event String)
yes_later = prompt (env_at 7) (pos 7) ∷ answer (env_at 8) " Yes " ∷ []

abbrev waiting : Manager String
waiting = run (start true) probed

waiting_asks : (waiting.fs.mode ≡ "awaiting_user_switchback") × (waiting.fs.active_model ≡ "gpt")
unfolding start
waiting_asks = (refl, refl)

switchback_needs_approval_example : any (is_approval {P = String}) yes_later ≡ true
unfolding start
switchback_needs_approval_example =
    switchback_needs_approval waiting yes_later refl (start-Inv true probed) gpt≢claude refl

abbrev automatic : Manager String
automatic = run (start false) (limited 2 ∷ [])

probes_to_switch_back_example :
    let before = probes (env_at 5 ∷ []) automatic in
    let after = probes (env_at 5 ∷ env_at 6 ∷ []) automatic in
    (before.fs.active_model ≡ automatic.fs.active_model)
    × (after.fs.active_model ≡ automatic.primary)
    × (after.fs.mode ≡ mode_normal)
unfolding start
probes_to_switch_back_example =
    probes_to_switch_back (env_at 5 ∷ []) (env_at 6) automatic refl (omega arith) refl refl
