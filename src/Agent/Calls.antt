-- ===== src/Agent/Calls.antt =====
-- One call of the model in pkg/agent/loop.go: the route, the failover on a rate limit, the notices and the
-- usage record.
use picoclaw.Prelude.{String, not, ◌&&◌, ◌||◌, Option, none, some, List, str_eq, if◌then◌else◌}
use picoclaw.Prelude.Int.{pos, ltb_ℤ, leb_ℤ}
use picoclaw.Bus.{OutboundMessage}
use picoclaw.Llm.{Message}
use picoclaw.Failover.{
  Env, Manager, SwitchEvent, Route, LlmError, rate_limited, other_error, enabled,
}
use picoclaw.Failover.Ops.{resolve_route, on_llm_rate_limited, on_llm_success}
use picoclaw.Usage
use picoclaw.Usage.{Record}
use picoclaw.Tools.{to_provider_defs}
use picoclaw.Agent.World.{
  Active, AgentLoop, Called, Host, Reply, active_of, call_failed, chat_options, erred, failed_over,
  fails, finish_reason, got, plain, replied, usage_record,
}

module _ {W P Callback : Type 0} (host : Host W P Callback) where
  unfoldable pub publish : OutboundMessage → AgentLoop W P Callback → AgentLoop W P Callback
  publish msg al = record al { world = host.publish msg al.world }

  unfoldable pub env_now : AgentLoop W P Callback → Env
  env_now al = host.env al.world

  unfoldable pub notify_failover_switch :
      String → String → SwitchEvent → AgentLoop W P Callback → AgentLoop W P Callback
  unfolding publish
  notify_failover_switch channel chat_id event al =
      let epoch = al.failover.fs.switch_epoch in
      if str_eq channel "" || str_eq chat_id "" || not al.notify_on_switch
      then al
      else if ltb_ℤ (pos 0) epoch && leb_ℤ epoch al.last_notice_by_ep
      then al
      else publish (plain channel chat_id (failed_over event))
          (if ltb_ℤ (pos 0) epoch then record al { last_notice_by_ep = epoch } else al)

  unfoldable pub routed :
      Manager P × Option (Route P)
      → AgentLoop W P Callback
      → AgentLoop W P Callback × Option (Active P)
  unfolding active_of
  routed (m, r) al = (record al { failover = m }, active_of r)

  -- The provider and model of a turn; `none` is the error of ResolveRoute.
  unfoldable pub active_route : AgentLoop W P Callback → AgentLoop W P Callback × Option (Active P)
  unfolding routed
  active_route al =
      if enabled al.failover
      then routed (resolve_route host.create_provider al.failover) al
      else (al, some (record { provider = al.provider; model = al.model }))

  unfoldable pub chat_with :
      Active P → List Message → AgentLoop W P Callback → AgentLoop W P Callback × Reply
  chat_with active messages al =
      let (w, reply) =
        host.chat active.provider messages (to_provider_defs al.tools) active.model chat_options
          al.world in
      (record al { world = w }, reply)

  unfoldable pub settle_reply :
      Active P → AgentLoop W P Callback × Reply → AgentLoop W P Callback × Called P
  unfolding call_failed
  settle_reply active (al, replied response) = (al, got active response)
  settle_reply active (al, erred e) = (al, call_failed e)

  -- The text of the error of ResolveRoute is left out of the error that wraps it, here and below.
  unfoldable pub retry :
      List Message → AgentLoop W P Callback × Option (Active P) → AgentLoop W P Callback × Called P
  unfolding settle_reply
  retry messages (al, none) = (al, fails "resolve failover retry route")
  retry messages (al, some active) = settle_reply active (chat_with active messages al)

  -- After a rate limit: the retry on the next model if the manager has switched.
  unfoldable pub after_limit :
      String
      → String
      → List Message
      → LlmError
      → Manager P × SwitchEvent
      → AgentLoop W P Callback
      → AgentLoop W P Callback × Called P
  unfolding retry call_failed
  after_limit channel chat_id messages e (m, event) al =
      let al' = record al { failover = m } in
      if event.switched
      then retry messages (active_route (notify_failover_switch channel chat_id event al'))
      else (al', call_failed e)

  unfoldable pub after_reply :
      String
      → String
      → List Message
      → Active P
      → AgentLoop W P Callback × Reply
      → AgentLoop W P Callback × Called P
  unfolding after_limit call_failed
  after_reply channel chat_id messages active (al, replied response) = (al, got active response)
  after_reply channel chat_id messages active (al, erred (other_error e)) =
      (al, call_failed (other_error e))
  after_reply channel chat_id messages active (al, erred (rate_limited e)) =
      if enabled al.failover
      then after_limit channel chat_id messages (rate_limited e)
          (on_llm_rate_limited (env_now al) active.model (some (rate_limited e)) al.failover) al
      else (al, call_failed (rate_limited e))

  unfoldable pub on_route :
      String
      → String
      → List Message
      → AgentLoop W P Callback × Option (Active P)
      → AgentLoop W P Callback × Called P
  unfolding after_reply
  on_route channel chat_id messages (al, none) = (al, fails "resolve failover route")
  on_route channel chat_id messages (al, some active) =
      after_reply channel chat_id messages active (chat_with active messages al)

  unfoldable pub add_usage : Record → AgentLoop W P Callback → AgentLoop W P Callback
  add_usage r al = record al {
    usage_store =
        Usage.add (host.today al.world) (env_now al).now (host.usage_io al.world) r al.usage_store;
  }

  -- The reports of a success: to the failover manager and to the usage store.
  unfoldable pub report :
      String → AgentLoop W P Callback × Called P → AgentLoop W P Callback × Called P
  unfolding add_usage
  report session_key (al, fails e) = (al, fails e)
  report session_key (al, got active response) =
      let al' = record al { failover = on_llm_success (env_now al) active.model al.failover } in
      (
        add_usage
            (usage_record (env_now al').now (host.today al'.world) session_key active.model
              (finish_reason response) response)
            al',
        got active response,
      )

  -- One call of the model as runLLMIteration makes it.
  unfoldable pub call_model :
      String
      → String
      → String
      → List Message
      → AgentLoop W P Callback
      → AgentLoop W P Callback × Called P
  unfolding on_route report
  call_model session_key channel chat_id messages al =
      report session_key (on_route channel chat_id messages (active_route al))
