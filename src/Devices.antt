-- ===== src/Devices.antt =====
-- pkg/devices/service.go and pkg/devices/events/events.go: devices that come and go, announced to the last
-- channel. A source of events is an argument: what its start and its stop do to a world `W`.
pub mod Targets
mod Examples
use picoclaw.Prelude.{
  String, Bool, true, false, not, ◌&&◌, ◌||◌, Option, none, some, List, [], ◌∷◌, str_eq, ◌==◌,
  if◌then◌else◌, length,
}
use picoclaw.Prelude.Text.{concat}
use picoclaw.Prelude.Strings.{cut_first}
use picoclaw.Bus.{OutboundMessage}
use picoclaw.Utils.{is_internal_channel}
use picoclaw.State.{Manager}

pub record DeviceEvent : Type 0 where
  pub action : String
  pub kind : String
  pub vendor : String
  pub product : String
  pub serial : String
  pub capabilities : String

line_if : String → String → String
line_if what value = if str_eq value "" then "" else concat (what ∷ value ∷ "\n" ∷ [])

unfoldable pub format_message : DeviceEvent → String
unfolding line_if
format_message ev = concat (
    "🔌 Device "
    ∷ (if str_eq ev.action "remove" then "Disconnected" else "Connected")
    ∷ "\n\nType: "
    ∷ ev.kind
    ∷ "\nDevice: "
    ∷ ev.vendor
    ∷ " "
    ∷ ev.product
    ∷ "\n"
    ∷ line_if "Capabilities: " ev.capabilities
    ∷ line_if "Serial: " ev.serial
    ∷ [])

-- A source of events: its start, with `none` for an error, and its stop.
pub record EventSource (W : Type 0) : Type 0 where
  pub start_source : W → W × Bool
  pub stop_source : W → W

-- `active` says that there is a function that cancels the context of the sources.
pub record Service (W : Type 0) : Type 0 where
  pub has_bus : Bool
  pub state : Manager
  pub sources : List (EventSource W)
  pub enabled : Bool
  pub active : Bool

module _ {W : Type 0} where
  unfoldable pub new_service : EventSource W → Bool → Bool → Manager → Service W
  new_service usb enabled monitor_usb state = record {
    has_bus = false;
    state = state;
    sources = if enabled && monitor_usb then usb ∷ [] else [];
    enabled = enabled;
    active = false;
  }

  -- The sources that have started, whose events are handled from then on.
  start_sources : List (EventSource W) → W → W × List (EventSource W)
  start_sources [] w = (w, [])
  start_sources (src ∷ srcs) w =
      let (w', ok) = src.start_source w in
      let (w'', started) = start_sources srcs w' in (w'', if ok then src ∷ started else started)

  unfoldable pub start : Service W → W → Service W × (W × List (EventSource W))
  unfolding start_sources
  start s w =
      if not s.enabled || length s.sources == 0
      then (s, (w, []))
      else (record s { active = true }, start_sources s.sources w)

  stop_sources : List (EventSource W) → W → W
  stop_sources [] w = w
  stop_sources (src ∷ srcs) w = stop_sources srcs (src.stop_source w)

  unfoldable pub stop : Service W → W → Service W × W
  unfolding stop_sources
  stop s w = (record s { active = false }, stop_sources s.sources w)

parts_or_empty : Option (String × String) → String × String
parts_or_empty none = ("", "")
parts_or_empty (some (platform, user)) =
    if str_eq platform "" || str_eq user "" then ("", "") else (platform, user)

unfoldable pub parse_last_channel : String → String × String
unfolding parts_or_empty
parse_last_channel last_channel = parts_or_empty (cut_first b':' last_channel)

module _ {W : Type 0} (publish : OutboundMessage → W → W) where
  unfoldable pub send_notification : Service W → DeviceEvent → W → W
  send_notification s ev w =
      let (platform, user) = parse_last_channel s.state.state.last_channel in
      if not s.has_bus || str_eq platform "" || str_eq user "" || is_internal_channel platform
      then w
      else publish
          (record {
            channel = platform;
            chat_id = user;
            content = format_message ev;
            media = [];
            is_progress_update = false;
          })
          w

  -- The events of one source, where `none` is a nil.
  unfoldable pub handle_events : Service W → List (Option DeviceEvent) → W → W
  handle_events s [] w = w
  handle_events s (none ∷ evs) w = handle_events s evs w
  handle_events s (some ev ∷ evs) w = handle_events s evs (send_notification s ev w)
