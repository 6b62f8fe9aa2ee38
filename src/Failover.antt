-- ===== src/Failover.antt =====
-- pkg/failover/manager.go: the state of the circuit breaker that routes model calls. The operations are
-- in the children Chain (construction), Hints, Ops (rate limits and routes), Probe and Switchback; the
-- provider type is a parameter, and the clock's reading, the local format and parse of dates and the
-- outcome of a save come in an `Env`.
pub mod Chain
pub mod Hints
pub mod Ops
pub mod Probe
pub mod Switchback
pub mod Machine
pub mod Sound
pub mod Invariant
pub mod Chains
pub mod Probing
pub mod Latest
pub mod Routing
pub mod Approval
pub mod Prompts
pub mod Restart
mod Examples
use picoclaw.Prelude.{◌*◌, String, Bool, true, Option, List, str_eq, if◌then◌else◌}
use picoclaw.Prelude.Int.{ℤ, pos, wrap64, ◌*ℤ◌, ltb_ℤ}
use picoclaw.Prelude.Dict.{Dict}
use picoclaw.State
use picoclaw.State.{FailoverState, Time, Io, set_failover_state}

abbrev pub mode_normal : String
mode_normal = "normal"

abbrev pub mode_degraded : String
mode_degraded = "degraded"

abbrev pub mode_awaiting_user_switchback : String
mode_awaiting_user_switchback = "awaiting_user_switchback"

-- The part of config.Config that the manager reads: AgentDefaults and AgentFailover.
pub record Config : Type 0 where
  pub model : String
  pub fallback_models : List String
  pub fallback_model : String
  pub enabled : Bool
  pub hold_minutes : ℤ
  pub probe_interval_minutes : ℤ
  pub probe_success_threshold : ℤ
  pub probe_failure_backoff_minutes : ℤ
  pub switchback_requires_approval : Bool

-- providers.RateLimitError; its Headers are read by nothing here.
pub record RateLimitError : Type 0 where
  pub status_code : ℤ
  pub body : String
  pub retry_after : String
  pub rate_limit_requests_reset : String
  pub rate_limit_tokens_reset : String

-- An `error` as the manager tells them apart.
pub data LlmError : Type 0 where
  rate_limited : RateLimitError → LlmError
  other_error : String → LlmError

pub record Env : Type 0 where
  pub now : Time
  pub io : Io
  pub format_time : Time → String
  pub parse_date : String → Option Time

pub record Manager (P : Type 0) : Type 0 where
  pub cfg : Config
  pub state_mgr : State.Manager
  pub fs : FailoverState
  pub primary : String
  pub fallbacks : List String
  pub providers : Dict P

pub record SwitchEvent : Type 0 where
  pub from_model : String
  pub to_model : String
  pub reason : String
  pub switched : Bool

pub record ProbeOutcome : Type 0 where
  pub success : Bool
  pub became_healthy : Bool
  pub next_probe_at : Time

pub record DecisionOutcome : Type 0 where
  pub handled : Bool
  pub reply : String
  pub changed : Bool

pub record Route (P : Type 0) : Type 0 where
  pub model : String
  pub provider : P
  pub is_primary : Bool
  pub mode : String
  pub switch_epoch : ℤ

abbrev pub max_int : ℤ → ℤ → ℤ
max_int a b = if ltb_ℤ b a then a else b

-- time.Duration(maxInt(n, 1)) * time.Minute, in 64-bit nanoseconds.
unfoldable pub minutes : ℤ → ℤ
unfolding ◌*ℤ◌
minutes n = wrap64 (max_int n (pos 1) *ℤ pos 60000000000)

module _ {P : Type 0} where
  -- The error of the save is dropped.
  unfoldable pub persist_locked : Env → Manager P → Manager P
  persist_locked env m = record m {
    state_mgr = (set_failover_state env.io env.now m.fs m.state_mgr).0;
  }

  unfoldable pub enabled : Manager P → Bool
  enabled m = m.cfg.enabled

  unfoldable pub is_using_primary : Manager P → Bool
  is_using_primary m =
      if str_eq m.fs.active_model "" then true else str_eq m.fs.active_model m.primary

  unfoldable pub active_model : Manager P → String
  active_model m = if str_eq m.fs.active_model "" then m.primary else m.fs.active_model
