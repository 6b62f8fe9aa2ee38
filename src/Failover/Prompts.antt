-- ===== src/Failover/Prompts.antt =====
-- The prompt of pkg/failover/manager.go that asks the user to switch back, and a probe that ends late.
use picoclaw.Prelude.{
  String, ◌≡◌, Bool, true, false, not, none, some, List, [], ◌∷◌, arith, eq_iff, All,
}
use picoclaw.State.{Time}
use picoclaw.Failover.{
  Env, Manager, LlmError, mode_degraded, mode_awaiting_user_switchback, persist_locked, enabled,
}
use picoclaw.Failover.Ops.{
  resolve_route, provider_for_model_locked, set_provider_for_model, on_llm_success,
}
use picoclaw.Failover.Probe.{
  probe_success, probe_failure, record_probe_result, run_probe, should_probe,
}
use picoclaw.Failover.Switchback.{
  approve, read_answer, consume_switchback_prompt, handle_user_switchback_decision,
}
use picoclaw.Failover.Machine.{
  Event, route, provide, rate_limit, success, probe, prompt, answer, step, run,
}
use picoclaw.Failover.Approval.{is_approve, step-Frame}

-- The operations that do not end a round of probing: no rate limit, no failed probe, no approval.
abbrev pub is_quiet : {P : Type 0} → Event P → Bool
is_quiet (rate_limit env model err) = false
is_quiet (probe env (some err)) = false
is_quiet (answer env text) = not (is_approve (read_answer text))
is_quiet _ = true

module _ {P : Type 0} where
  quiet_keeps_sent :
      (m : Manager P) (e : Event P)
      → is_quiet e ≡ true
      → m.cfg.switchback_requires_approval ≡ true
      → m.fs.switchback_prompt_sent ≡ true
      → (step m e).fs.switchback_prompt_sent ≡ true
  unfolding step resolve_route provider_for_model_locked set_provider_for_model on_llm_success
      run_probe record_probe_result probe_success consume_switchback_prompt
      handle_user_switchback_decision persist_locked
  quiet_keeps_sent m (route create) q a s = ground arith
  quiet_keeps_sent m (provide model p) q a s = ground arith
  quiet_keeps_sent m (rate_limit env model err) q a s = cc
  quiet_keeps_sent m (success env model) q a s = ground arith
  quiet_keeps_sent m (probe env none) q a s = ground arith
  quiet_keeps_sent m (probe env (some err)) q a s = cc
  quiet_keeps_sent m (prompt env now) q a s = ground arith
  quiet_keeps_sent m (answer env text) q a s = ground arith

  run_keeps_sent :
      (m : Manager P) (es : List (Event P))
      → All (λ e. is_quiet e ≡ true) es
      → m.cfg.switchback_requires_approval ≡ true
      → m.fs.switchback_prompt_sent ≡ true
      → (run m es).fs.switchback_prompt_sent ≡ true
  unfolding run
  run_keeps_sent m [] q a s = s
  run_keeps_sent m (e ∷ es) q a s =
      run_keeps_sent (step m e) es q.1 (rw ((step-Frame m e).same_cfg) a)
        (quiet_keeps_sent m e q.0 a s)

  sent_of_prompt :
      (env : Env) (now : Time) (m : Manager P) {text : String}
      → (consume_switchback_prompt env now m).1 ≡ some text
      → ((consume_switchback_prompt env now m).0.fs.switchback_prompt_sent ≡ true)
        × ((consume_switchback_prompt env now m).0.cfg ≡ m.cfg)
  unfolding consume_switchback_prompt persist_locked
  sent_of_prompt env now m h = ground arith

  silent_when_sent :
      (env : Env) (now : Time) (m : Manager P)
      → m.fs.switchback_prompt_sent ≡ true
      → (consume_switchback_prompt env now m).1 ≡ none
  unfolding consume_switchback_prompt
  silent_when_sent env now m h = ground arith

  -- Once the user has been asked, no operation asks again until a rate limit, a failed probe or an
  -- approval: the prompt is given at most once for each round.
  prompt_once :
      (env env' : Env) (now now' : Time) (m : Manager P) {text : String} (es : List (Event P))
      → m.cfg.switchback_requires_approval ≡ true
      → (consume_switchback_prompt env now m).1 ≡ some text
      → All (λ e. is_quiet e ≡ true) es
      → (consume_switchback_prompt env' now' (run (consume_switchback_prompt env now m).0 es)).1
        ≡ none
  prompt_once env env' now now' m es a h q =
      let s = sent_of_prompt env now m h in
      silent_when_sent env' now' _ (run_keeps_sent _ es q (rw (s.1) a) s.0)

  -- A probe that ends with an error after the user has approved the switch back, which the program
  -- allows since a probe runs beside the messages, leaves the degraded mode on the primary model, and
  -- no later probe is due that would end it.
  late_probe_degrades_primary :
      (env env' : Env) (text : String) (err : LlmError) (m : Manager P) (t : Time)
      → enabled m ≡ true
      → m.fs.mode ≡ mode_awaiting_user_switchback
      → read_answer text ≡ approve
      → let m' = step (step m (answer env text)) (probe env' (some err)) in
        (m'.fs.mode ≡ mode_degraded)
        × (m'.fs.active_model ≡ m.primary)
        × (should_probe t m' ≡ false)
  unfolding step handle_user_switchback_decision run_probe record_probe_result probe_failure
      persist_locked should_probe
  late_probe_degrades_primary env env' text err m t on w a =
      ground (arith, eq_iff m.fs.mode mode_awaiting_user_switchback, eq_iff m.primary m.primary)
