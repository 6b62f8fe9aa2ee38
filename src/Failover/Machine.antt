-- ===== src/Failover/Machine.antt =====
-- The failover manager as a machine: an event for each operation that the agent loop and the channels
-- call, in any order, and its runs.
use picoclaw.Prelude.{String, Option, List, [], ◌∷◌}
use picoclaw.State.{Time}
use picoclaw.Failover.{Env, Manager, LlmError}
use picoclaw.Failover.Ops.{
  resolve_route, set_provider_for_model, on_llm_rate_limited, on_llm_success,
}
use picoclaw.Failover.Probe.{run_probe}
use picoclaw.Failover.Switchback.{consume_switchback_prompt, handle_user_switchback_decision}

pub data Event (P : Type 0) : Type 0 where
  route : (String → Option P) → Event P
  provide : String → Option P → Event P
  rate_limit : Env → String → Option LlmError → Event P
  success : Env → String → Event P
  probe : Env → Option LlmError → Event P
  prompt : Env → Time → Event P
  answer : Env → String → Event P

module _ {P : Type 0} where
  unfoldable pub step : Manager P → Event P → Manager P
  step m (route create) = (resolve_route create m).0
  step m (provide model p) = set_provider_for_model model p m
  step m (rate_limit env model err) = (on_llm_rate_limited env model err m).0
  step m (success env model) = on_llm_success env model m
  step m (probe env reply) = (run_probe env reply m).0
  step m (prompt env now) = (consume_switchback_prompt env now m).0
  step m (answer env text) = (handle_user_switchback_decision env text m).0

  unfoldable pub run : Manager P → List (Event P) → Manager P
  run m [] = m
  run m (e ∷ es) = run (step m e) es
