-- ===== src/Agent/Visibility.antt =====
-- pkg/agent/visibility.go: the actions of a turn and the summaries of them that are sent while it runs.
-- The callback that sends a summary acts on a world `W`; each operation is given its readings of the clock.
pub mod Commands
pub mod Format
pub mod Updates
mod Examples
use picoclaw.Prelude.{
  ℕ, ◌+◌, ◌-◌, ◌*◌, String, Bool, true, false, not, ◌&&◌, ◌||◌, Option, none, some, List, [], ◌∷◌,
  ◌++◌, str_eq, if◌then◌else◌, length, any,
}
use picoclaw.Prelude.Int.{ℤ, pos, wrap64, ◌+ℤ◌, ◌*ℤ◌, leb_ℤ}
use picoclaw.Prelude.Text.{concat, itoa}
use picoclaw.Llm.{Fields}
use picoclaw.Agent.Visibility.Format.{
  Action, ActionStream, ActionType, action_error, action_running, action_success, classify_action,
  exec_action, file_action, format_summary, internal_action, message_action, subagent_action,
  truncate_result, web_action,
}

module _ {W : Type 0} (update : Option (String → W → W)) where
  called : Option (String → W → W) → String → W → W
  called none summary w = w
  called (some f) summary w = f summary w

  -- time.Time counts nanoseconds here.
  unfoldable pub maybe_update : ℤ → ActionStream × W → ActionStream × W
  unfolding called
  maybe_update now (s, w) =
      if leb_ℤ (s.last_update_time +ℤ wrap64 (s.config.update_interval_ms *ℤ pos 1000000)) now
      then (record s { last_update_time = now }, called update (format_summary s) w)
      else (s, w)

  unfoldable pub force_update : ActionStream → W → W
  unfolding called
  force_update s w = called update (format_summary s) w

started : String → Fields → ActionType → ℤ → ℤ → Action
started tool_name args type stamp now = record {
  id = concat (tool_name ∷ "-" ∷ itoa stamp ∷ []);
  tool_name = tool_name;
  args = args;
  type = type;
  status = action_running;
  start_time = now;
  end_time = pos 0;
  duration = pos 0;
  result = "";
  full_result = "";
  error = "";
}

is_internal : ActionType → Bool
is_internal internal_action = true
is_internal exec_action = false
is_internal web_action = false
is_internal file_action = false
is_internal message_action = false
is_internal subagent_action = false

-- `duration` is EndTime less StartTime.
finished : String → Option String → ℤ → ℤ → Action → Action
finished result (some e) now duration a = record a {
  status = action_error;
  end_time = now;
  duration = duration;
  error = e;
}
finished result none now duration a = record a {
  status = action_success;
  end_time = now;
  duration = duration;
  result = truncate_result result a.type;
  full_result = result;
}

has_id : String → List Action → Bool
has_id id as' = any (λ a. str_eq a.id id) as'

finish_first : String → (Action → Action) → List Action → List Action
finish_first id f [] = []
finish_first id f (a ∷ as') =
    let rest = a ∷ finish_first id f as' in if str_eq a.id id then f a ∷ as' else rest

module _ {W : Type 0} (update : Option (String → W → W)) where
  -- `stamp` is the reading that goes into the identifier, `now` the time of the start and `later` that
  -- of the update. The identifier is empty where the action is not tracked.
  unfoldable pub start_action :
      String → Fields → ℤ → ℤ → ℤ → ActionStream × W → (ActionStream × W) × String
  unfolding started is_internal
  start_action tool_name args stamp now later (s, w) =
      let type = classify_action tool_name in
      let a = started tool_name args type stamp now in
      if not s.config.verbose_mode && is_internal type
      then ((s, w), "")
      else (maybe_update update later (record s { actions = s.actions ++ a ∷ [] }, w), a.id)

  unfoldable pub complete_action :
      String → String → Option String → ℤ → (Action → ℤ) → ℤ → ActionStream × W → ActionStream × W
  unfolding finished has_id finish_first
  complete_action id result err now since later (s, w) =
      let mark = λ (a : Action). finished result err now (since a) a in
      if str_eq id "" || not (has_id id s.actions)
      then (s, w)
      else maybe_update update later (record s { actions = finish_first id mark s.actions }, w)

unfoldable pub get_action_count : ActionStream → ℕ
get_action_count s = length s.actions

unfoldable pub clear : ActionStream → ActionStream
clear s = record s { actions = [] }
