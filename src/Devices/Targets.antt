-- ===== src/Devices/Targets.antt =====
-- Where the announcements of pkg/devices/service.go go, beside those of pkg/heartbeat/service.go.
use picoclaw.Prelude.{
  String, ◌≡◌, refl, inl, inr, false, arith, if◌then◌else◌, Bool-cases, Option-cases,
}
use picoclaw.Prelude.Strings.{cut_first}
use picoclaw.Utils.{is_internal_channel}
use picoclaw.Heartbeat
use picoclaw.Heartbeat.{HeartbeatService, HeartbeatHost}
use picoclaw.Devices.{Service, DeviceEvent, parse_last_channel, send_notification, format_message}

internal_empty : is_internal_channel "" ≡ false
unfolding is_internal_channel
internal_empty = refl

parse_last_channel-internal :
    (last : String)
    → Heartbeat.parse_last_channel last ≡ (
        let target = parse_last_channel last in
        if is_internal_channel target.0 then ("", "") else target)
unfolding parse_last_channel Heartbeat.parse_last_channel
parse_last_channel-internal last = elim (Option-cases (cut_first b':' last)) [
  | inl e ↦ rw e (ground (arith, internal_empty))
  | inr ((platform, user), e) ↦ rw e (ground (arith, internal_empty))
]

-- The two services read the last channel alike: a device is announced just where, and just when, a
-- heartbeat's text would be sent, when both have the same last channel and the same bus or none.
pub send_notification-send_response :
    {W : Type 0} (h : HeartbeatHost W) (hs : HeartbeatService) (s : Service W) (ev : DeviceEvent)
    (w : W)
    → s.state.state.last_channel ≡ hs.state.state.last_channel
    → s.has_bus ≡ hs.has_bus
    → send_notification h.publish s ev w ≡ Heartbeat.send_response h hs (format_message ev) w
unfolding send_notification Heartbeat.send_response
send_notification-send_response h hs s ev w same bus =
    let last = hs.state.state.last_channel in
    elim (Bool-cases (is_internal_channel (parse_last_channel last).0)) [
      | inl inside ↦ rw (same, bus, parse_last_channel-internal last, inside) (ground arith)
      | inr outside ↦ rw (same, bus, parse_last_channel-internal last, outside) (ground arith)
    ]
