-- ===== src/Agent/ChatCalls.antt =====
-- How often a turn of pkg/agent/loop.go calls the model.
use picoclaw.Prelude.{
  ℕ, suc, ◌≤◌, String, ◌≡◌, inl, inr, Option, none, some, List, arith, Bool-cases,
}
use picoclaw.Bus.{OutboundMessage}
use picoclaw.Llm.{Fields, Message, ToolCall, ToolDefinition}
use picoclaw.Failover.{Manager, SwitchEvent, LlmError, rate_limited, other_error, enabled}
use picoclaw.Tools.{ToolRegistry, ToolResult, execute_with_context}
use picoclaw.Agent.World.{
  Reply, replied, erred, Host, AgentLoop, Active, Called, got, fails, plain, failed_over,
}
use picoclaw.Agent.Calls.{
  publish, notify_failover_switch, routed, active_route, chat_with, settle_reply, retry,
  after_limit, after_reply, on_route, report, call_model,
}
use picoclaw.Agent.Planner.{ActionStream, ProcessOptions}
use picoclaw.Agent.Turn.{started, completed}

-- `tally` counts the calls of Chat, and the tools and what else the turn reaches leave it alone.
pub record IsTally {W P Callback : Type 0} (host : Host W P Callback) (opts : ProcessOptions W)
    (tools : ToolRegistry W Callback) (tally : W → ℕ) : Type 0 where
  pub by_chat :
      (p : P) (ms : List Message) (ts : List ToolDefinition) (model : String) (options : Fields)
      (w : W)
      → tally (host.chat p ms ts model options w).0 ≡ suc (tally w)
  pub by_publish : (m : OutboundMessage) (w : W) → tally (host.publish m w) ≡ tally w
  pub by_put_file : (path text : String) (w : W) → tally (host.put_file path text w) ≡ tally w
  pub by_tool :
      (name : String) (args : Fields) (w : W)
      → tally
          (execute_with_context host.quote tools name args opts.channel opts.chat_id
            (some host.log_only)
            w).0
        ≡ tally w
  pub by_start :
      (tc : ToolCall) (w : W) → tally (started host opts tc opts.action_stream w).0 ≡ tally w
  pub by_completion :
      (id : String) (tr : ToolResult) (w : W)
      → tally (completed host opts id tr opts.action_stream w) ≡ tally w
  pub by_update :
      (stream : ActionStream W) (w : W)
      → opts.action_stream ≡ some stream
      → tally (stream.force_update w) ≡ tally w

module _ {W P Callback : Type 0} (host : Host W P Callback) (opts : ProcessOptions W)
    (tools : ToolRegistry W Callback) (tally : W → ℕ) (counts : IsTally host opts tools tally) where
  abbrev pub Within : ℕ → AgentLoop W P Callback → Type 0
  Within n al = (al.tools ≡ tools) × (tally al.world ≤ n)

  pub Within-publish :
      (m : OutboundMessage) (n : ℕ) (al : AgentLoop W P Callback)
      → Within n al
      → Within n (publish host m al)
  unfolding publish
  Within-publish m n al (same, h) = (same, omega (arith, h, counts.by_publish m al.world))

  Within-notify :
      (channel chat_id : String) (event : SwitchEvent) (n : ℕ) (al : AgentLoop W P Callback)
      → Within n al
      → Within n (notify_failover_switch host channel chat_id event al)
  unfolding notify_failover_switch publish
  Within-notify channel chat_id event n al (same, h) =
      ground (arith, counts.by_publish (plain channel chat_id (failed_over event)) al.world)

  Within-chat_with :
      (active : Active P) (messages : List Message) (n : ℕ) (al : AgentLoop W P Callback)
      → Within n al
      → Within (suc n) (chat_with host active messages al).0
  unfolding chat_with
  Within-chat_with active messages n al (same, h) = (same, omega (arith, h, counts.by_chat))

  Within-active_route :
      (n : ℕ) (al : AgentLoop W P Callback) → Within n al → Within n (active_route host al).0
  unfolding active_route routed
  Within-active_route n al within = elim (Bool-cases (enabled al.failover)) [
    | inl on ↦ simp on within
    | inr off ↦ simp off within
  ]

  Within-settle_reply :
      (active : Active P) (r : AgentLoop W P Callback × Reply) (n : ℕ)
      → Within n r.0
      → Within n (settle_reply host active r).0
  unfolding settle_reply
  Within-settle_reply active (al, replied response) n within = within
  Within-settle_reply active (al, erred e) n within = within

  Within-retry :
      (messages : List Message) (r : AgentLoop W P Callback × Option (Active P)) (n : ℕ)
      → Within n r.0
      → Within (suc n) (retry host messages r).0
  unfolding retry
  Within-retry messages (al, none) n (same, h) = (same, omega arith)
  Within-retry messages (al, some active) n within =
      Within-settle_reply active (chat_with host active messages al) (suc n)
        (Within-chat_with active messages n al within)

  Within-after_limit :
      (channel chat_id : String) (messages : List Message) (e : LlmError)
      (r : Manager P × SwitchEvent) (n : ℕ) (al : AgentLoop W P Callback)
      → Within n al
      → Within (suc n) (after_limit host channel chat_id messages e r al).0
  unfolding after_limit
  Within-after_limit channel chat_id messages e (m, event) n al (same, h) =
      let al' : AgentLoop W P Callback = record al { failover = m } in
      let al'' = notify_failover_switch host channel chat_id event al' in
      elim (Bool-cases event.switched) [
        | inl switched ↦ simp switched (
            Within-retry messages (active_route host al'') n
              (Within-active_route n al'' (Within-notify channel chat_id event n al' (same, h))))
        | inr not_switched ↦ simp not_switched (same, omega arith)
      ]

  Within-after_reply :
      (channel chat_id : String) (messages : List Message) (active : Active P)
      (r : AgentLoop W P Callback × Reply) (n : ℕ)
      → Within n r.0
      → Within (suc n) (after_reply host channel chat_id messages active r).0
  unfolding after_reply
  Within-after_reply channel chat_id messages active (al, replied response) n (same, h) =
      (same, omega arith)
  Within-after_reply channel chat_id messages active (al, erred (other_error e)) n (same, h) =
      (same, omega arith)
  Within-after_reply channel chat_id messages active (al, erred (rate_limited e)) n (same, h) =
      elim (Bool-cases (enabled al.failover)) [
        | inl on ↦
            simp on (Within-after_limit channel chat_id messages (rate_limited e) _ n al (same, h))
        | inr off ↦ simp off (same, omega arith)
      ]

  Within-on_route :
      (channel chat_id : String) (messages : List Message)
      (r : AgentLoop W P Callback × Option (Active P)) (n : ℕ)
      → Within n r.0
      → Within (suc (suc n)) (on_route host channel chat_id messages r).0
  unfolding on_route
  Within-on_route channel chat_id messages (al, none) n (same, h) = (same, omega arith)
  Within-on_route channel chat_id messages (al, some active) n within =
      Within-after_reply channel chat_id messages active (chat_with host active messages al) (suc n)
        (Within-chat_with active messages n al within)

  Within-report :
      (session_key : String) (r : AgentLoop W P Callback × Called P) (n : ℕ)
      → Within n r.0
      → Within n (report host session_key r).0
  unfolding report
  Within-report session_key (al, fails e) n within = within
  Within-report session_key (al, got active response) n within = within

  -- A rate limit gives a second call.
  pub Within-call_model :
      (session_key channel chat_id : String) (messages : List Message) (n : ℕ)
      (al : AgentLoop W P Callback)
      → Within n al
      → Within (suc (suc n)) (call_model host session_key channel chat_id messages al).0
  unfolding call_model
  Within-call_model session_key channel chat_id messages n al within =
      Within-report session_key (on_route host channel chat_id messages (active_route host al))
        (suc (suc n))
        (Within-on_route channel chat_id messages (active_route host al) n
          (Within-active_route n al within))
