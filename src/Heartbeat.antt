-- ===== src/Heartbeat.antt =====
-- pkg/heartbeat/service.go: the periodic check of HEARTBEAT.md, and the handler that cmd/picoclaw/main.go
-- gives it. The file, the handler and the bus act on a world `W`; the service keeps a state manager of
-- its own, opened when it is made.
pub mod Targets
pub mod Interval
mod Examples
use picoclaw.Prelude.{
  ◌*◌, String, ◌⊎◌, inl, inr, Bool, true, false, not, ◌||◌, Option, none, some, [], ◌∷◌, str_eq,
  if◌then◌else◌, any,
}
use picoclaw.Prelude.Int.{ℤ, pos, wrap64, ◌*ℤ◌, ltb_ℤ, eqb_ℤ}
use picoclaw.Prelude.Text.{concat}
use picoclaw.Prelude.Strings.{cut_first}
use picoclaw.Bus.{OutboundMessage}
use picoclaw.Utils.{is_internal_channel}
use picoclaw.State.{Manager, Disk, Io, new_manager}
use picoclaw.Tools.{ToolResult, silent_result, error_result}

-- `running` says that there is a stop channel, `has_bus` that a bus is set.
pub record HeartbeatService : Type 0 where
  pub state : Manager
  pub interval : ℤ
  pub enabled : Bool
  pub running : Bool
  pub has_bus : Bool

at_least_minimum : ℤ → ℤ
at_least_minimum minutes =
    if eqb_ℤ minutes (pos 0) then pos 30 else if ltb_ℤ minutes (pos 5) then pos 5 else minutes

unfoldable pub new_heartbeat_service : Io → Disk → ℤ → Bool → HeartbeatService
unfolding at_least_minimum
new_heartbeat_service io d minutes enabled = record {
  state = new_manager io d;
  interval = wrap64 (at_least_minimum minutes *ℤ pos 60000000000);
  enabled = enabled;
  running = false;
  has_bus = false;
}

unfoldable pub set_bus : HeartbeatService → HeartbeatService
set_bus hs = record hs { has_bus = true }

-- `true` where Start begins the loop of the ticker, which panics at an interval that is not positive.
unfoldable pub start : HeartbeatService → HeartbeatService × Bool
start hs =
    if hs.running || not hs.enabled then (hs, false) else (record hs { running = true }, true)

unfoldable pub stop : HeartbeatService → HeartbeatService
stop hs = record hs { running = false }

-- os.ReadFile of HEARTBEAT.md.
pub data Prompt : Type 0 where
  missing unreadable : Prompt
  content : String → Prompt

pub record HeartbeatHost (W : Type 0) : Type 0 where
  pub read_prompt : W → Prompt
  pub write_template : W → W
  pub now_text : W → String
  pub publish : OutboundMessage → W → W

platform_of : Option (String × String) → String × String
platform_of none = ("", "")
platform_of (some (platform, user)) =
    if str_eq platform "" || str_eq user ""
    then ("", "")
    else if is_internal_channel platform
    then ("", "")
    else (platform, user)

unfoldable pub parse_last_channel : String → String × String
unfolding platform_of
parse_last_channel last_channel = platform_of (cut_first b':' last_channel)

prompt_text : String → String → String
prompt_text now tasks = concat (
    "# Heartbeat Check\n\nCurrent time: " ∷ now
    ∷ "\n\nYou are a proactive AI assistant. This is a scheduled heartbeat check.\nReview the following tasks and execute any necessary actions using available skills.\nIf there is nothing that requires attention, respond ONLY with: HEARTBEAT_OK\n\n"
    ∷ tasks ∷ "\n" ∷ [])

module _ {W : Type 0} (h : HeartbeatHost W) where
  prompt_from : W → Prompt → W × String
  prompt_from w missing = (h.write_template w, "")
  prompt_from w unreadable = (w, "")
  prompt_from w (content tasks) =
      (w, if str_eq tasks "" then "" else prompt_text (h.now_text w) tasks)

  unfoldable pub build_prompt : W → W × String
  unfolding prompt_from prompt_text
  build_prompt w = prompt_from w (h.read_prompt w)

  unfoldable pub send_response : HeartbeatService → String → W → W
  send_response hs response w =
      let (platform, user) = parse_last_channel hs.state.state.last_channel in
      if not hs.has_bus || str_eq platform "" || str_eq user ""
      then w
      else h.publish
          (record {
            channel = platform;
            chat_id = user;
            content = response;
            media = [];
            is_progress_update = false;
          })
          w

  -- What is done with a result that the handler gives.
  answer : HeartbeatService → W × Option ToolResult → W
  unfolding send_response
  answer hs (w, none) = w
  answer hs (w, some r) =
      if r.is_error || r.async || r.silent
      then w
      else if not (str_eq r.for_user "")
      then send_response hs r.for_user w
      else if not (str_eq r.for_llm "")
      then send_response hs r.for_llm w
      else w

  call :
      Option (String → String → String → W → W × Option ToolResult)
      → HeartbeatService
      → W × String
      → W
  unfolding answer
  call none hs (w, prompt) = w
  call (some handler) hs (w, prompt) =
      let (channel, chat_id) = parse_last_channel hs.state.state.last_channel in
      if str_eq prompt "" then w else answer hs (handler prompt channel chat_id w)

  unfoldable pub execute_heartbeat :
      Option (String → String → String → W → W × Option ToolResult) → HeartbeatService → W → W
  unfolding call
  execute_heartbeat handler hs w =
      if not hs.enabled || not hs.running then w else call handler hs (build_prompt w)

-- The handler of the gateway: `process` is ProcessHeartbeat with its response or error.
module _ {W : Type 0} (process : String → String → String → W → W × (String ⊎ String)) where
  outcome : W × (String ⊎ String) → W × Option ToolResult
  outcome (w, inl e) = (w, some (error_result (concat ("Heartbeat error: " ∷ e ∷ []))))
  outcome (w, inr response) = (
    w,
    some (
        if str_eq response "HEARTBEAT_OK"
        then silent_result "Heartbeat OK"
        else silent_result response),
  )

  unfoldable pub gateway_handler : String → String → String → W → W × Option ToolResult
  unfolding outcome
  gateway_handler prompt channel chat_id w =
      if str_eq channel "" || str_eq chat_id ""
      then outcome (process prompt "cli" "direct" w)
      else outcome (process prompt channel chat_id w)
