-- ===== src/Devices/Examples.antt =====
-- The theorem about announcements of devices at a concrete service.
use picoclaw.Prelude.{◌≡◌, refl, true, false, none, List, [], ◌∷◌, ◌++◌}
use picoclaw.Prelude.Int.{pos}
use picoclaw.Bus.{OutboundMessage}
use picoclaw.State.{Manager, zero_state}
use picoclaw.Heartbeat
use picoclaw.Heartbeat.{HeartbeatService, HeartbeatHost, missing}
use picoclaw.Devices.{Service, DeviceEvent, send_notification, format_message}
use picoclaw.Devices.Targets.{send_notification-send_response}

abbrev host : HeartbeatHost (List OutboundMessage)
host = record {
  read_prompt = λ w. missing;
  write_template = λ w. w;
  now_text = λ w. "";
  publish = λ msg w. w ++ msg ∷ [];
}

abbrev manager : Manager
manager = record {
  state = record zero_state { last_channel = "slack:C1" };
  disk = record { state_file = none; temp_file = none; old_state_file = none };
}

abbrev heart : HeartbeatService
heart = record {
  state = manager;
  interval = pos 300000000000;
  enabled = true;
  running = false;
  has_bus = true;
}

abbrev devices : Service (List OutboundMessage)
devices = record { has_bus = true; state = manager; sources = []; enabled = true; active = true }

abbrev stick : DeviceEvent
stick = record {
  action = "add";
  kind = "usb";
  vendor = "SanDisk";
  product = "Cruzer";
  serial = "";
  capabilities = "storage";
}

send_notification-send_response_example :
    send_notification host.publish devices stick []
    ≡ Heartbeat.send_response host heart (format_message stick) []
send_notification-send_response_example =
    send_notification-send_response host heart devices stick [] refl refl
