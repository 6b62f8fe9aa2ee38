-- ===== src/Failover/Invariant.antt =====
-- What holds of a failover manager of pkg/failover/manager.go after any operations.
use picoclaw.Prelude.{
  String, ◌≡◌, refl, ap, inl, inr, ◌&&◌, Option, none, some, List, [], ◌∷◌, arith, str_eq, eq_iff,
  Bool-cases,
}
use picoclaw.Prelude.Int.{ℤ}
use picoclaw.State
use picoclaw.State.{Time, FailoverState, zero_failover}
use picoclaw.State.Updates.{state-set_failover_state}
use picoclaw.Failover.{
  Env, Manager, LlmError, mode_awaiting_user_switchback, persist_locked, enabled,
}
use picoclaw.Failover.Ops.{
  at, switch_to, choose, resolve_route, provider_for_model_locked, set_provider_for_model, refuse,
  degrade, advance, on_llm_rate_limited, on_llm_success,
}
use picoclaw.Failover.Probe.{record_probe_result, run_probe}
use picoclaw.Failover.Switchback.{
  Answer, approve, decline, unclear, read_answer, decide_answer, consume_switchback_prompt,
  handle_user_switchback_decision,
}
use picoclaw.Failover.Sound.{
  Sound, Sound-reroute, Sound-primary, Sound-fallback, degraded-IsAlert, probe_success-Sound,
  probe_failure-Sound,
}
use picoclaw.Failover.Machine.{
  Event, route, provide, rate_limit, success, probe, prompt, answer, step, run,
}

-- The state manager holds the same state.
pub record Inv {P : Type 0} (m : Manager P) : Type 0 where
  pub sound : Sound m.primary m.fallbacks m.fs
  pub synced : m.state_mgr.state.failover ≡ m.fs

module _ {P : Type 0} where
  pub persist-Inv :
      (env : Env) (m : Manager P) → Sound m.primary m.fallbacks m.fs → Inv (persist_locked env m)
  unfolding persist_locked
  persist-Inv env m h = record {
    sound = h;
    synced =
        ap (λ (s : State.State). s.failover)
          (state-set_failover_state env.io env.now m.state_mgr m.fs);
  }

  refuse-Inv :
      (env : Env) (from why reason : String) (m : Manager P)
      → Sound m.primary m.fallbacks m.fs
      → Inv (refuse env from why reason m).0
  unfolding refuse
  refuse-Inv env from why reason m h =
      persist-Inv env (record m { fs = record m.fs { last_switch_reason = why } })
        (Sound-reroute m.primary m.fallbacks m.fs _ h refl refl refl refl)

  switch_to-Inv :
      (env : Env) (t : Time) (from : String) (i : ℤ) (to : Option String) (m : Manager P)
      → Sound m.primary m.fallbacks m.fs
      → at m.fallbacks i ≡ to
      → Inv (switch_to env t from i to m).0
  unfolding switch_to degrade
  switch_to-Inv env t from i none m h e =
      refuse-Inv env from "rate_limited_fallback_exhausted" "fallback_exhausted" m h
  switch_to-Inv env t from i (some to) m h e =
      persist-Inv env (degrade env t i to m)
        (Sound-fallback m.primary m.fallbacks m.fs _ h e degraded-IsAlert refl)

  choose-Inv :
      (env : Env) (err : Option LlmError) (from : String) (xs : List String) (m : Manager P)
      → Sound m.primary m.fallbacks m.fs
      → Inv (choose env err from xs m).0
  unfolding choose advance
  choose-Inv env err from [] m h =
      refuse-Inv env from "rate_limited_no_fallback" "no_fallback_configured" m h
  choose-Inv env err from (x ∷ xs) m h = switch_to-Inv env _ from _ _ m h refl

  on_llm_rate_limited-Inv :
      (env : Env) (model : String) (err : Option LlmError) (m : Manager P)
      → Inv m
      → Inv (on_llm_rate_limited env model err m).0
  unfolding on_llm_rate_limited
  on_llm_rate_limited-Inv env model err m h = elim (Bool-cases (enabled m)) [
    | inl on ↦ rw on (
        choose-Inv env err _ m.fallbacks _
          (Sound-reroute m.primary m.fallbacks m.fs _ h.sound refl refl refl refl))
    | inr off ↦ rw off h
  ]

  on_llm_success-Inv :
      (env : Env) (model : String) (m : Manager P) → Inv m → Inv (on_llm_success env model m)
  unfolding on_llm_success
  on_llm_success-Inv env model m h = elim (Bool-cases (enabled m && str_eq m.fs.active_model "")) [
    | inl on ↦ absurd (h.sound.active_set (ground (arith, eq_iff m.fs.active_model "")))
    | inr off ↦ rw off h
  ]

  resolve_route-frame :
      (create : String → Option P) (m : Manager P)
      → let m' = (resolve_route create m).0 in
        (m'.fs ≡ m.fs)
        × (m'.state_mgr ≡ m.state_mgr)
        × (m'.primary ≡ m.primary)
        × (m'.fallbacks ≡ m.fallbacks)
  unfolding resolve_route provider_for_model_locked
  resolve_route-frame create m = ground arith

  set_provider_for_model-frame :
      (model : String) (p : Option P) (m : Manager P)
      → let m' = set_provider_for_model model p m in
        (m'.fs ≡ m.fs)
        × (m'.state_mgr ≡ m.state_mgr)
        × (m'.primary ≡ m.primary)
        × (m'.fallbacks ≡ m.fallbacks)
  unfolding set_provider_for_model
  set_provider_for_model-frame model p m = ground arith

  Inv-frame :
      (m m' : Manager P)
      → Inv m
      → (m'.fs ≡ m.fs)
        × (m'.state_mgr ≡ m.state_mgr)
        × (m'.primary ≡ m.primary)
        × (m'.fallbacks ≡ m.fallbacks)
      → Inv m'
  Inv-frame m m' h e = record {
    sound = rw (e.0, e.2, e.3) h.sound;
    synced = rw (e.0, e.1) h.synced;
  }

  run_probe-Inv :
      (env : Env) (reply : Option LlmError) (m : Manager P) → Inv m → Inv (run_probe env reply m).0
  unfolding run_probe record_probe_result
  run_probe-Inv env none m h =
      persist-Inv env _ (probe_success-Sound env m.cfg m.primary m.fallbacks m.fs h.sound)
  run_probe-Inv env (some err) m h =
      persist-Inv env _
        (probe_failure-Sound env m.cfg (some err) m.primary m.fallbacks m.fs h.sound)

  consume_switchback_prompt-Inv :
      (env : Env) (now : Time) (m : Manager P) → Inv m → Inv (consume_switchback_prompt env now m).0
  unfolding consume_switchback_prompt
  consume_switchback_prompt-Inv env now m h =
      elim (Bool-cases (str_eq m.fs.mode mode_awaiting_user_switchback)) [
        | inl waiting ↦ elim (Bool-cases m.fs.switchback_prompt_sent) [
          | inl sent ↦ simp (waiting, sent) h
          | inr fresh ↦
              rw (waiting, fresh)
                (persist-Inv env _
                  (Sound-reroute m.primary m.fallbacks m.fs _ h.sound refl refl refl refl))
        ]
        | inr other ↦ rw other h
      ]

  decide_answer-Inv :
      (env : Env) (a : Answer) (m : Manager P) → Inv m → Inv (decide_answer env a m).0
  unfolding decide_answer
  decide_answer-Inv env unclear m h = h
  decide_answer-Inv env approve m h =
      elim (Bool-cases (str_eq m.fs.mode mode_awaiting_user_switchback)) [
        | inl waiting ↦ rw waiting (
            persist-Inv env _
              (Sound-primary m.primary m.fallbacks m.fs _ h.sound refl refl refl refl))
        | inr other ↦ rw other h
      ]
  decide_answer-Inv env decline m h =
      elim (Bool-cases (str_eq m.fs.mode mode_awaiting_user_switchback)) [
        | inl waiting ↦ rw waiting (
            persist-Inv env _
              (Sound-reroute m.primary m.fallbacks m.fs _ h.sound refl refl refl refl))
        | inr other ↦ rw other h
      ]

  handle_user_switchback_decision-Inv :
      (env : Env) (text : String) (m : Manager P)
      → Inv m
      → Inv (handle_user_switchback_decision env text m).0
  unfolding handle_user_switchback_decision
  handle_user_switchback_decision-Inv env text m h = elim (Bool-cases (enabled m)) [
    | inl on ↦ rw on (decide_answer-Inv env (read_answer text) m h)
    | inr off ↦ rw off h
  ]

  -- Every operation keeps the invariant.
  pub step-Inv : (m : Manager P) (e : Event P) → Inv m → Inv (step m e)
  unfolding step
  step-Inv m (route create) h = Inv-frame m _ h (resolve_route-frame create m)
  step-Inv m (provide model p) h = Inv-frame m _ h (set_provider_for_model-frame model p m)
  step-Inv m (rate_limit env model err) h = on_llm_rate_limited-Inv env model err m h
  step-Inv m (success env model) h = on_llm_success-Inv env model m h
  step-Inv m (probe env reply) h = run_probe-Inv env reply m h
  step-Inv m (prompt env now) h = consume_switchback_prompt-Inv env now m h
  step-Inv m (answer env text) h = handle_user_switchback_decision-Inv env text m h

  pub run-Inv : (m : Manager P) (es : List (Event P)) → Inv m → Inv (run m es)
  unfolding run
  run-Inv m [] h = h
  run-Inv m (e ∷ es) h = run-Inv (step m e) es (step-Inv m e h)
