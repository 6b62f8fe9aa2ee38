-- ===== src/Failover/Switchback.antt =====
-- ConsumeSwitchbackPrompt and HandleUserSwitchbackDecision of pkg/failover/manager.go.
use picoclaw.Prelude.{
  String, true, false, not, ◌||◌, Option, none, some, [], ◌∷◌, str_eq, if◌then◌else◌,
}
use picoclaw.Prelude.Int.{pos, negsuc, inc64}
use picoclaw.Prelude.Text.{concat, trim_space, lower_is}
use picoclaw.State.{FailoverState, Time, zero_time}
use picoclaw.Failover.{
  Env, Manager, DecisionOutcome, mode_normal, mode_awaiting_user_switchback, persist_locked,
  enabled,
}

pub data Answer : Type 0 where
  approve decline unclear : Answer

-- The words that HandleUserSwitchbackDecision takes for yes and for no.
unfoldable pub read_answer : String → Answer
read_answer text =
    let t = trim_space text in
    if lower_is t "yes" || lower_is t "y" || lower_is t "switch" || lower_is t "switch back"
    then approve
    else if lower_is t "no" || lower_is t "n" || lower_is t "stay" || lower_is t "stay fallback"
    then decline
    else unclear

abbrev pub unhandled : DecisionOutcome
unhandled = record { handled = false; reply = ""; changed = false }

switch_back : FailoverState → String → FailoverState
switch_back fs primary = record fs {
  mode = mode_normal;
  active_model = primary;
  fallback_index = negsuc 0;
  consecutive_probe_successes = pos 0;
  last_switch_reason = "manual_switchback_approved";
  last_switchback_prompt_at = zero_time;
  last_switchback_probe = "";
  switchback_prompt_sent = false;
  switch_epoch = inc64 fs.switch_epoch;
}

module _ {P : Type 0} where
  unfoldable pub build_switchback_prompt_locked : Manager P → String
  build_switchback_prompt_locked m = concat (
      "Primary model " ∷ m.primary ∷ " looks healthy (" ∷ m.fs.last_switchback_probe
      ∷ "). Currently using fallback " ∷ m.fs.active_model
      ∷ ". Reply 'yes' to switch back to primary or 'no' to stay on fallback." ∷ [])

  unfoldable pub consume_switchback_prompt : Env → Time → Manager P → Manager P × Option String
  consume_switchback_prompt env now m =
      if not (str_eq m.fs.mode mode_awaiting_user_switchback)
      then (m, none)
      else if m.fs.switchback_prompt_sent
      then (m, none)
      else (let m' = record m {
        fs = record m.fs { last_switchback_prompt_at = now; switchback_prompt_sent = true };
      } in
          (persist_locked env m', some (build_switchback_prompt_locked m')))

  approved : Env → Manager P → Manager P × DecisionOutcome
  unfolding switch_back
  approved env m = (
    persist_locked env (record m { fs = switch_back m.fs m.primary }),
    record {
      handled = true;
      reply =
          concat (
            "Switched back to primary model " ∷ m.primary ∷ " from " ∷ m.fs.active_model ∷ "."
            ∷ []);
      changed = true;
    },
  )

  declined : Env → Manager P → Manager P × DecisionOutcome
  declined env m = (
    persist_locked env (record m {
      fs = record m.fs {
        last_switch_reason = "manual_switchback_declined";
        last_switchback_prompt_at = env.now;
        switchback_prompt_sent = true;
      };
    }),
    record {
      handled = true;
      reply = concat (
          "Staying on fallback model " ∷ m.fs.active_model
          ∷ ". Ask for failover status any time if you want to switch back later." ∷ []);
      changed = false;
    },
  )

  unfoldable pub decide_answer : Env → Answer → Manager P → Manager P × DecisionOutcome
  unfolding approved declined
  decide_answer env unclear m = (m, unhandled)
  decide_answer env approve m =
      if str_eq m.fs.mode mode_awaiting_user_switchback then approved env m else (m, unhandled)
  decide_answer env decline m =
      if str_eq m.fs.mode mode_awaiting_user_switchback then declined env m else (m, unhandled)

  unfoldable pub handle_user_switchback_decision :
      Env → String → Manager P → Manager P × DecisionOutcome
  unfolding decide_answer
  handle_user_switchback_decision env text m =
      if enabled m then decide_answer env (read_answer text) m else (m, unhandled)
