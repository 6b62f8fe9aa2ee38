-- ===== src/Agent/World.antt =====
-- The state of the agent loop of pkg/agent/loop.go, and what lies outside the program: a `Host`.
use picoclaw.Prelude.{
  String, Bool, false, ◌||◌, Option, none, some, List, [], ◌∷◌, str_eq, if◌then◌else◌, is_some,
}
use picoclaw.Prelude.Int.{ℤ, pos, eqb_ℤ, wrap64, ◌+ℤ◌}
use picoclaw.Prelude.Text.{concat, trim_space}
use picoclaw.Prelude.Strings.{contains, to_lower}
use picoclaw.Bus.{OutboundMessage}
use picoclaw.Llm.{number, Fields, no_fields, field, Message, LlmResponse, UsageInfo, ToolDefinition}
use picoclaw.Session.{SessionManager}
use picoclaw.Session.Files.{SaveIo}
use picoclaw.Failover.{Env, Manager, SwitchEvent, Route, LlmError}
use picoclaw.Failover.Ops.{error_text}
use picoclaw.Usage
use picoclaw.Usage.{Record, WriteOutcome}
use picoclaw.Tools.{ToolRegistry}
use picoclaw.Agent.PlanFile.{PlanIo, PlanTexts}

-- The answer of a provider's Chat.
pub data Reply : Type 0 where
  replied : LlmResponse → Reply
  erred : LlmError → Reply

-- What the world `W` answers: the providers `P`, the bus, the clock, the operating system and the
-- encoders. It is read after each effect anew.
pub record Host (W P Callback : Type 0) : Type 0 where
  pub chat : P → List Message → List ToolDefinition → String → Fields → W → W × Reply
  pub create_provider : String → Option P
  pub publish : OutboundMessage → W → W
  pub env : W → Env
  pub save_io : W → SaveIo
  pub usage_io : W → WriteOutcome
  pub plan_io : W → PlanIo
  pub plan_texts : W → PlanTexts
  pub put_file : String → String → W → W
  pub today : W → String
  pub base_name : String → String
  pub quote : String → String
  pub marshal : Fields → String
  pub log_only : Callback

-- NewAgentLoop always sets the failover manager and the usage store; the state manager of the loop is
-- the one that the failover manager holds.
pub record AgentLoop (W P Callback : Type 0) : Type 0 where
  pub provider : P
  pub model : String
  pub workspace : String
  pub context_window : ℤ
  pub max_iterations : ℤ
  pub notify_on_switch : Bool
  pub planner_enabled : Bool
  pub planner_model : String
  pub sessions : SessionManager
  pub failover : Manager P
  pub tools : ToolRegistry W Callback
  pub usage_store : Usage.Store
  pub summarizing : List String
  pub probe_running : Bool
  pub last_notice_by_ep : ℤ
  pub world : W

-- The model and the provider that a turn talks to.
pub record Active (P : Type 0) : Type 0 where
  pub provider : P
  pub model : String

abbrev pub chat_options : Fields
chat_options = field "max_tokens" (number "8192") (field "temperature" (number "0.7") no_fields)

unfoldable pub provider_from_model : String → String
provider_from_model model =
    let m = to_lower (trim_space model) in
    if contains m "claude" || contains m "anthropic"
    then "anthropic"
    else if contains m "gpt" || contains m "openai"
    then "openai"
    else if contains m "gemini" || contains m "google"
    then "google"
    else if contains m "deepseek"
    then "deepseek"
    else "unknown"

abbrev pub no_usage : UsageInfo
no_usage = record { prompt_tokens = pos 0; completion_tokens = pos 0; total_tokens = pos 0 }

counted_usage : Option UsageInfo → UsageInfo
counted_usage none = no_usage
counted_usage (some u) =
    if eqb_ℤ u.total_tokens (pos 0)
    then record u { total_tokens = wrap64 (u.prompt_tokens +ℤ u.completion_tokens) }
    else u

unfoldable pub finish_reason : LlmResponse → String
finish_reason response =
    if str_eq (trim_space response.finish_reason) ""
    then "normal_call"
    else trim_space response.finish_reason

unfoldable pub usage_record : ℤ → String → String → String → String → LlmResponse → Record
unfolding counted_usage
usage_record now day session_key model reason response =
    let u = counted_usage response.usage in
    record {
      timestamp = some now;
      day_key = day;
      session_key = session_key;
      provider = provider_from_model model;
      model = model;
      prompt_tokens = u.prompt_tokens;
      completion_tokens = u.completion_tokens;
      total_tokens = u.total_tokens;
      usage_known = is_some response.usage;
      reason = reason;
    }

-- How a call ends: with a response of an active model, or the error of the turn.
pub data Called (P : Type 0) : Type 0 where
  got : Active P → LlmResponse → Called P
  fails : String → Called P

unfoldable pub failed_over : SwitchEvent → String
failed_over event = concat (
    "Failover active: switched from " ∷ event.from_model ∷ " to " ∷ event.to_model
    ∷ " due to provider rate limits." ∷ [])

unfoldable pub active_of : {P : Type 0} → Option (Route P) → Option (Active P)
active_of none = none
active_of (some r) = some (record { provider = r.provider; model = r.model })

unfoldable pub call_failed : {P : Type 0} → LlmError → Called P
call_failed e = fails (concat ("LLM call failed: " ∷ error_text (some e) ∷ []))

-- A message of the loop itself.
abbrev pub plain : String → String → String → OutboundMessage
plain channel chat_id content = record {
  channel = channel;
  chat_id = chat_id;
  content = content;
  media = [];
  is_progress_update = false;
}
