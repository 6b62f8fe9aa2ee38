-- ===== src/Failover/Ops.antt =====
-- Routes, rate limits and successes of pkg/failover/manager.go.
use picoclaw.Prelude.{
  String, Bool, true, false, ◌&&◌, Option, none, some, List, [], ◌∷◌, str_eq, if◌then◌else◌,
  get_elem?,
}
use picoclaw.Prelude.Int.{ℤ, pos, negsuc, inc64, ltb_ℤ, ◌+ℤ◌}
use picoclaw.Prelude.Dict.{get, put}
use picoclaw.Prelude.Text.{concat, itoa}
use picoclaw.State.{Time}
use picoclaw.Failover.{
  Env, Manager, SwitchEvent, Route, LlmError, rate_limited, other_error, mode_degraded, minutes,
  persist_locked, enabled,
}
use picoclaw.Failover.Hints.{extend_by_hint}

unfoldable pub error_text : Option LlmError → String
error_text none = ""
error_text (some (other_error s)) = s
error_text (some (rate_limited e)) =
    concat ("rate limited (status " ∷ itoa e.status_code ∷ "): " ∷ e.body ∷ [])

-- fallbacks[i] for an index that has been compared with 0 and with the length.
abbrev pub at : List String → ℤ → Option String
at xs (pos i) = get_elem? xs i
at xs (negsuc i) = none

-- The index that follows, an `int` that is raised to 0.
unfoldable pub next_index : ℤ → ℤ
next_index i = let next = inc64 i in if ltb_ℤ next (pos 0) then pos 0 else next

abbrev pub event : String → String → String → Bool → SwitchEvent
event from to reason switched = record {
  from_model = from;
  to_model = to;
  reason = reason;
  switched = switched;
}

module _ {P : Type 0} where
  unfoldable pub create_route : Manager P → String → P → Route P
  create_route m model p = record {
    model = model;
    provider = p;
    is_primary = str_eq model m.primary;
    mode = m.fs.mode;
    switch_epoch = m.fs.switch_epoch;
  }

  -- `create` is providers.CreateProviderForModel; `none` is its error.
  cached : (String → Option P) → Manager P → String → Option P → Manager P × Option P
  cached create m model (some p) = (m, some p)
  cached create m model none = elim (create model) [
    | none ↦ (m, none)
    | some p ↦ (record m { providers = put m.providers model p }, some p)
  ]

  unfoldable pub provider_for_model_locked :
      (String → Option P) → Manager P → String → Manager P × Option P
  unfolding cached
  provider_for_model_locked create m model = cached create m model (get m.providers model)

  routed : String → Manager P × Option P → Manager P × Option (Route P)
  routed model (m, none) = (m, none)
  routed model (m, some p) = (m, some (create_route m model p))

  unfoldable pub resolve_route : (String → Option P) → Manager P → Manager P × Option (Route P)
  unfolding routed
  resolve_route create m =
      let model = if str_eq m.fs.active_model "" then m.primary else m.fs.active_model in
      routed model (provider_for_model_locked create m model)

  unfoldable pub set_provider_for_model : String → Option P → Manager P → Manager P
  set_provider_for_model model none m = m
  set_provider_for_model model (some p) m =
      if str_eq model "" then m else record m { providers = put m.providers model p }

  -- What OnLLMRateLimited writes when it moves to the fallback `to` at `index`.
  unfoldable pub degrade : Env → Time → ℤ → String → Manager P → Manager P
  degrade env hold_until index to m = record m {
    fs = record m.fs {
      fallback_index = index;
      mode = mode_degraded;
      active_model = to;
      primary_model = m.primary;
      degraded_at = env.now;
      hold_until = hold_until;
      next_probe_at = hold_until;
      consecutive_probe_successes = pos 0;
      last_switch_reason = "rate_limited";
      switchback_prompt_sent = false;
      switch_epoch = inc64 m.fs.switch_epoch;
    };
  }

  unfoldable pub refuse : Env → String → String → String → Manager P → Manager P × SwitchEvent
  refuse env from why reason m = (
    persist_locked env (record m { fs = record m.fs { last_switch_reason = why } }),
    event from from reason false,
  )

  -- The fallback at `index`, or the end of the chain.
  unfoldable pub switch_to :
      Env → Time → String → ℤ → Option String → Manager P → Manager P × SwitchEvent
  switch_to env hold_until from index (some to) m =
      (persist_locked env (degrade env hold_until index to m), event from to "rate_limited" true)
  switch_to env hold_until from index none m =
      refuse env from "rate_limited_fallback_exhausted" "fallback_exhausted" m

  unfoldable pub hold_until : Env → Option LlmError → Manager P → Time
  hold_until env err m = extend_by_hint env err (env.now +ℤ minutes m.cfg.hold_minutes)

  unfoldable pub advance : Env → Option LlmError → String → Manager P → Manager P × SwitchEvent
  unfolding switch_to
  advance env err from m =
      let index = if str_eq from m.primary then pos 0 else next_index m.fs.fallback_index in
      switch_to env (hold_until env err m) from index (at m.fallbacks index) m

  abbrev from_model : String → Manager P → String
  from_model model m =
      if str_eq m.fs.active_model ""
      then (if str_eq model "" then m.primary else model)
      else m.fs.active_model

  unfoldable pub choose :
      Env → Option LlmError → String → List String → Manager P → Manager P × SwitchEvent
  choose env err from [] m = refuse env from "rate_limited_no_fallback" "no_fallback_configured" m
  choose env err from (x ∷ xs) m = advance env err from m

  unfoldable pub on_llm_rate_limited :
      Env → String → Option LlmError → Manager P → Manager P × SwitchEvent
  unfolding choose
  on_llm_rate_limited env model err m =
      if enabled m
      then (let m' = record m { fs = record m.fs { last_rate_limit_error = error_text err } } in
          choose env err (from_model model m') m.fallbacks m')
      else (m, event "" "" "" false)

  unfoldable pub on_llm_success : Env → String → Manager P → Manager P
  on_llm_success env model m =
      if enabled m && str_eq m.fs.active_model ""
      then persist_locked env (record m { fs = record m.fs { active_model = model } })
      else m
