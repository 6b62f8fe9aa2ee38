-- ===== src/Channels/Manager/Examples.antt =====
-- The theorems about the channel manager at concrete messages; the world is the list of what was sent.
use picoclaw.Prelude.{String, ◌⊎◌, inr, true, false, none, List, [], ◌∷◌, ◌++◌}
use picoclaw.Bus.{OutboundMessage}
use picoclaw.Channels.Manager.{ChannelOps, Manager, Messenger, ChannelsConfig}
use picoclaw.Channels.Manager.Dispatch.{Event, publishes, rounds}

-- A channel is the tag that it puts before what it sends.
abbrev ops : ChannelOps String (List (String × String))
ops = record {
  start_channel = λ c w. (w, none);
  stop_channel = λ c w. (w, none);
  send_message = λ c msg w. (w ++ (c, msg.content) ∷ [], none);
  is_running = λ c w. true;
}

abbrev manager : Manager String
manager = record { channels = ("telegram", "T") ∷ ("slack", "S") ∷ []; dispatching = true }

abbrev text : String → String → OutboundMessage
text channel content = record {
  channel = channel;
  chat_id = "42";
  content = content;
  media = [];
  is_progress_update = false;
}

abbrev events : List Event
events =
    publishes (text "slack" "one")
    ∷ publishes (text "cli" "two")
    ∷ rounds false false false
    ∷ rounds false false true
    ∷ publishes (text "telegram" "three")
    ∷ rounds true true true
    ∷ []

abbrev off : Messenger
off = record { enabled = false; key = "" }

abbrev no_token : Messenger
no_token = record { enabled = true; key = "" }

abbrev config : ChannelsConfig
config = record {
  telegram = record { enabled = true; key = "123:abc" };
  whats_app = off;
  feishu = off;
  discord = no_token;
  maix_cam = off;
  qq = off;
  ding_talk = off;
  slack = off;
  line = off;
  one_bot = off;
}

abbrev make : String → List (String × String) → List (String × String) × (String ⊎ String)
make name w = (w, inr name)
