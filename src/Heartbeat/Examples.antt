-- ===== src/Heartbeat/Examples.antt =====
-- The theorems about heartbeats at concrete services; the world is the list of the messages sent.
use picoclaw.Prelude.{◌≡◌, refl, inr, true, false, none, some, List, [], ◌∷◌, ◌++◌}
use picoclaw.Prelude.Int.{pos}
use picoclaw.Prelude.Text.{concat}
use picoclaw.Bus.{OutboundMessage}
use picoclaw.State.{Manager, Disk, Io, written, zero_state, set_last_channel, save_atomic}
use picoclaw.Utils.{is_internal_channel}
use picoclaw.Prelude.Strings.{cut_first}
use picoclaw.Heartbeat.{
  HeartbeatService, HeartbeatHost, content, new_heartbeat_service, set_bus, send_response,
  execute_heartbeat, build_prompt, parse_last_channel, gateway_handler,
}
use picoclaw.Heartbeat.Targets.{last_channel-send_response, gateway_heartbeat_silent}

abbrev empty_disk : Disk
empty_disk = record { state_file = none; temp_file = none; old_state_file = none }

abbrev manager : Manager
manager = record { state = zero_state; disk = empty_disk }

abbrev good : Io
good = record { marshal_ok = true; write = written; rename_ok = true }

abbrev host : HeartbeatHost (List OutboundMessage)
host = record {
  read_prompt = λ w. content "- water the plants";
  write_template = λ w. w;
  now_text = λ w. "2026-01-01 08:00:00";
  publish = λ msg w. w ++ msg ∷ [];
}

abbrev to_telegram : OutboundMessage
to_telegram = record {
  channel = "telegram";
  chat_id = "42";
  content = "watered";
  media = [];
  is_progress_update = false;
}

last_channel-send_response_example :
    send_response host
      (set_bus (
        new_heartbeat_service good
          (set_last_channel good (pos 7) (concat ("telegram" ∷ ":" ∷ "42" ∷ [])) manager).0.disk
          (pos 30)
          true))
      "watered"
      []
    ≡ to_telegram ∷ []
unfolding set_last_channel save_atomic is_internal_channel
last_channel-send_response_example =
    last_channel-send_response host good good (pos 7) manager (pos 30) "telegram" "42" "watered" []
      refl refl refl refl refl

abbrev ready : HeartbeatService
ready = record {
  state = record manager { state = record zero_state { last_channel = "telegram:42" } };
  interval = pos 300000000000;
  enabled = true;
  running = true;
  has_bus = true;
}

gateway_heartbeat_silent_example :
    execute_heartbeat host
      (some (gateway_handler (λ prompt channel chat_id w. (w, inr "watered"))))
      ready
      []
    ≡ (build_prompt host []).0
unfolding parse_last_channel build_prompt cut_first is_internal_channel concat
gateway_heartbeat_silent_example =
    gateway_heartbeat_silent host (λ prompt channel chat_id w. (w, inr "watered")) ready []
