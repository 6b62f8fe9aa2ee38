-- ===== src/Failover/Approval.antt =====
-- Who may switch back to the primary model, and how often the user is asked: the decisions of
-- pkg/failover/manager.go.
use picoclaw.Prelude.{
  String, ◌≡◌, refl, sym, ◌∙◌, ◌≢◌, ◌⊎◌, inl, inr, Bool, true, false, not, ◌&&◌, Option, none, some,
  List, [], ◌∷◌, arith, str_eq, eq_iff, if◌then◌else◌, Bool-cases, any,
}
use picoclaw.Prelude.Int.{inc64}
use picoclaw.Failover.{
  Env, Manager, LlmError, mode_awaiting_user_switchback, persist_locked, enabled,
}
use picoclaw.Failover.Ops.{
  at, resolve_route, provider_for_model_locked, set_provider_for_model, refuse, degrade, advance,
  on_llm_rate_limited, on_llm_success,
}
use picoclaw.Failover.Probe.{probe_success, probe_failure, record_probe_result, run_probe}
use picoclaw.Failover.Switchback.{
  Answer, approve, decline, unclear, read_answer, consume_switchback_prompt,
  handle_user_switchback_decision,
}
use picoclaw.Failover.Sound.{at-All}
use picoclaw.Failover.Invariant.{Inv, step-Inv}
use picoclaw.Failover.Machine.{
  Event, route, provide, rate_limit, success, probe, prompt, answer, step, run,
}

abbrev pub is_approve : Answer → Bool
is_approve approve = true
is_approve decline = false
is_approve unclear = false

abbrev pub is_unclear : Answer → Bool
is_unclear unclear = true
is_unclear decline = false
is_unclear approve = false

abbrev pub is_approval : {P : Type 0} → Event P → Bool
is_approval (answer env text) = is_approve (read_answer text)
is_approval _ = false

-- A reply of the user is handled exactly in the waiting mode, if it is a clear yes or no. It changes the
-- model exactly if it is a yes, to the primary and with a new epoch; else model and epoch stay.
pub handle_user_switchback_decision_lem :
    {P : Type 0} (env : Env) (text : String) (m : Manager P)
    → let (m', out) = handle_user_switchback_decision env text m in
      let waiting = enabled m && str_eq m.fs.mode mode_awaiting_user_switchback in
      (out.handled ≡ (waiting && not (is_unclear (read_answer text))))
      × (out.changed ≡ (waiting && is_approve (read_answer text)))
      × (m'.fs.active_model ≡ (if out.changed then m.primary else m.fs.active_model))
      × (m'.fs.switch_epoch ≡ (if out.changed then inc64 m.fs.switch_epoch else m.fs.switch_epoch))
unfolding handle_user_switchback_decision persist_locked
handle_user_switchback_decision_lem env text m = ground arith

-- The configuration and the chain of two managers are the same.
pub record Frame {P : Type 0} (m m' : Manager P) : Type 0 where
  pub same_cfg : m'.cfg ≡ m.cfg
  pub same_primary : m'.primary ≡ m.primary
  pub same_fallbacks : m'.fallbacks ≡ m.fallbacks

module _ {P : Type 0} where
  pub step-Frame : (m : Manager P) (e : Event P) → Frame m (step m e)
  unfolding step resolve_route provider_for_model_locked set_provider_for_model on_llm_rate_limited
      refuse degrade advance on_llm_success run_probe record_probe_result consume_switchback_prompt
      handle_user_switchback_decision persist_locked
  step-Frame m (route create) = ground arith
  step-Frame m (provide model p) = ground arith
  step-Frame m (rate_limit env model err) = ground arith
  step-Frame m (success env model) = ground arith
  step-Frame m (probe env none) = ground arith
  step-Frame m (probe env (some err)) = ground arith
  step-Frame m (prompt env now) = ground arith
  step-Frame m (answer env text) = ground arith

  -- A rate limit leaves the model or moves to one of the chain.
  rate_limit_moves :
      (env : Env) (model : String) (err : Option LlmError) (m : Manager P)
      → let m' = (on_llm_rate_limited env model err m).0 in
        (m'.fs.active_model ≡ m.fs.active_model)
        ⊎ (at m.fallbacks m'.fs.fallback_index ≡ some m'.fs.active_model)
  unfolding on_llm_rate_limited refuse degrade advance persist_locked
  rate_limit_moves env model err m = ground arith

  -- What keeps a manager off the primary for one operation.
  step_stays :
      (m : Manager P) (e : Event P)
      → m.cfg.switchback_requires_approval ≡ true
      → Inv m
      → m.fs.active_model ≢ m.primary
      → is_approval e ≡ false
      → (step m e).fs.active_model ≢ m.primary
  unfolding step
  step_stays m (route create) a h off unapproved =
      unfold resolve_route provider_for_model_locked in ground arith
  step_stays m (provide model p) a h off unapproved = unfold set_provider_for_model in ground arith
  step_stays m (rate_limit env model err) a h off unapproved =
      elim (rate_limit_moves env model err m) [
        | inl same ↦ λ q. off (sym same ∙ q)
        | inr moved ↦ (at-All m.fallbacks _ h.sound.fallbacks_fit moved).1
      ]
  step_stays m (success env model) a h off unapproved =
      unfold on_llm_success persist_locked in
      ground (arith, eq_iff m.fs.active_model "", h.sound.active_set)
  step_stays m (probe env none) a h off unapproved =
      unfold run_probe record_probe_result probe_success persist_locked in ground arith
  step_stays m (probe env (some err)) a h off unapproved =
      unfold run_probe record_probe_result probe_failure persist_locked in ground arith
  step_stays m (prompt env now) a h off unapproved =
      unfold consume_switchback_prompt persist_locked in ground arith
  step_stays m (answer env text) a h off unapproved =
      unfold handle_user_switchback_decision persist_locked in ground arith

  -- Where the configuration asks for approval, a manager that has left the primary model comes back to
  -- it, over any operations, only if the user approved in one of them.
  pub switchback_needs_approval :
      (m : Manager P) (es : List (Event P))
      → m.cfg.switchback_requires_approval ≡ true
      → Inv m
      → m.fs.active_model ≢ m.primary
      → (run m es).fs.active_model ≡ m.primary
      → any is_approval es ≡ true
  unfolding run
  switchback_needs_approval m [] a h off back = absurd (off back)
  switchback_needs_approval m (e ∷ es) a h off back = elim (Bool-cases (is_approval e)) [
    | inl ok ↦ rw ok refl
    | inr unapproved ↦
        let f = step-Frame m e in
        rw unapproved (
          switchback_needs_approval (step m e) es (rw f.same_cfg a) (step-Inv m e h)
            (rw f.same_primary (step_stays m e a h off unapproved)) (back ∙ sym f.same_primary))
  ]
