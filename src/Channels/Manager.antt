-- ===== src/Channels/Manager.antt =====
-- pkg/channels/manager.go: the table of channels, their start and stop, and the dispatcher of outgoing
-- messages. A channel is a value of `C` with operations on a world `W`; what a constructor of a channel
-- gives is an argument. Loops over the table go by its list, whose order Go leaves open.
pub mod Dispatch
pub mod Wanted
mod Examples
use picoclaw.Prelude.{
  String, ◌⊎◌, inl, inr, Bool, true, false, not, ◌&&◌, Option, none, some, List, [], ◌∷◌, str_eq,
  ◌==◌, if◌then◌else◌, length,
}
use picoclaw.Prelude.Text.{concat}
use picoclaw.Prelude.Dict.{Dict, get, put, delete}
use picoclaw.Bus.{MessageBus, OutboundMessage, subscribe_outbound, obtained}
use picoclaw.Utils.{is_internal_channel}

-- The interface Channel of base.go: errors are texts.
pub record ChannelOps (C W : Type 0) : Type 0 where
  pub start_channel : C → W → W × Option String
  pub stop_channel : C → W → W × Option String
  pub send_message : C → OutboundMessage → W → W × Option String
  pub is_running : C → W → Bool

-- `dispatching` says that there is a dispatch task.
pub record Manager (C : Type 0) : Type 0 where
  pub channels : Dict C
  pub dispatching : Bool

-- What initChannels reads of the configuration of a messenger: whether it is enabled, and the setting
-- without which it is left out, a token or an address.
pub record Messenger : Type 0 where
  pub enabled : Bool
  pub key : String

pub record ChannelsConfig : Type 0 where
  pub telegram : Messenger
  pub whats_app : Messenger
  pub feishu : Messenger
  pub discord : Messenger
  pub maix_cam : Messenger
  pub qq : Messenger
  pub ding_talk : Messenger
  pub slack : Messenger
  pub line : Messenger
  pub one_bot : Messenger

abbrev with_key : Messenger → Bool
with_key m = m.enabled && not (str_eq m.key "")

-- The messengers in the order of initChannels, each with the test that it must pass.
attempts : ChannelsConfig → List (String × Bool)
attempts cfg =
    ("telegram", with_key cfg.telegram)
    ∷ ("whatsapp", with_key cfg.whats_app)
    ∷ ("feishu", cfg.feishu.enabled)
    ∷ ("discord", with_key cfg.discord)
    ∷ ("maixcam", cfg.maix_cam.enabled)
    ∷ ("qq", cfg.qq.enabled)
    ∷ ("dingtalk", with_key cfg.ding_talk)
    ∷ ("slack", with_key cfg.slack)
    ∷ ("line", with_key cfg.line)
    ∷ ("onebot", with_key cfg.one_bot)
    ∷ []

module _ {C W : Type 0} where
  added : String → Dict C → W × (String ⊎ C) → W × Dict C
  added name channels (w, inl e) = (w, channels)
  added name channels (w, inr c) = (w, put channels name c)

  -- `make` is the constructor of the messenger of a name.
  unfoldable pub init_from :
      (String → W → W × (String ⊎ C)) → List (String × Bool) → W × Dict C → W × Dict C
  unfolding added
  init_from make [] r = r
  init_from make ((name, wanted) ∷ rest) (w, channels) =
      init_from make rest (if wanted then added name channels (make name w) else (w, channels))

  unfoldable pub init_channels :
      (String → W → W × (String ⊎ C)) → ChannelsConfig → Manager C → W → W × Manager C
  unfolding init_from attempts
  init_channels make cfg m w =
      let (w', channels) = init_from make (attempts cfg) (w, m.channels) in
      (w', record m { channels = channels })

  unfoldable pub new_manager : (String → W → W × (String ⊎ C)) → ChannelsConfig → W → W × Manager C
  unfolding init_channels
  new_manager make cfg w = init_channels make cfg (record { channels = []; dispatching = false }) w

  module _ (ops : ChannelOps C W) where
    start_each : Dict C → W → W
    start_each [] w = w
    start_each ((name, c) ∷ cs) w = start_each cs (ops.start_channel c w).0

    -- `true` where a dispatcher is started; the errors of the channels are only logged.
    unfoldable pub start_all : Manager C → W → (Manager C × Bool) × W
    unfolding start_each
    start_all m w =
        if length m.channels == 0
        then ((m, false), w)
        else ((record m { dispatching = true }, true), start_each m.channels w)

    stop_each : Dict C → W → W
    stop_each [] w = w
    stop_each ((name, c) ∷ cs) w = stop_each cs (ops.stop_channel c w).0

    unfoldable pub stop_all : Manager C → W → Manager C × W
    unfolding stop_each
    stop_all m w = (record m { dispatching = false }, stop_each m.channels w)

    sent_on : Option C → OutboundMessage → W → W
    sent_on none msg w = w
    sent_on (some c) msg w = (ops.send_message c msg w).0

    -- What the dispatcher does with one message.
    unfoldable pub deliver : Manager C → OutboundMessage → W → W
    unfolding sent_on
    deliver m msg w =
        if is_internal_channel msg.channel then w else sent_on (get m.channels msg.channel) msg w

    deliver_obtained : Manager C → Option OutboundMessage → W → W
    deliver_obtained m none w = w
    deliver_obtained m (some msg) w = deliver m msg w

    -- One round of dispatchOutbound. `ended` and `done` say whether the context has ended at the first
    -- `select` and in SubscribeOutbound; the last part of the result is `true` where the loop goes on.
    unfoldable pub dispatch_round :
        {H : Type 0} → Manager C → Bool → Bool → Bool → MessageBus H → W → (MessageBus H × W) × Bool
    unfolding deliver_obtained
    dispatch_round m ended done prefer_done mb w =
        let (mb', r) = subscribe_outbound done prefer_done mb in
        if ended then ((mb, w), false) else ((mb', deliver_obtained m (obtained r) w), true)

    status_of : Dict C → W → Dict Bool
    status_of [] w = []
    status_of ((name, c) ∷ cs) w = (name, ops.is_running c w) ∷ status_of cs w

    unfoldable pub get_status : Manager C → W → Dict Bool
    unfolding status_of
    get_status m w = status_of m.channels w

    sent_to : Option C → String → OutboundMessage → W → W × Option String
    sent_to none name msg w = (w, some (concat ("channel " ∷ name ∷ " not found" ∷ [])))
    sent_to (some c) name msg w = ops.send_message c msg w

    unfoldable pub send_to_channel : Manager C → String → String → String → W → W × Option String
    unfolding sent_to
    send_to_channel m name chat_id content w =
        sent_to (get m.channels name) name
          (record {
            channel = name;
            chat_id = chat_id;
            content = content;
            media = [];
            is_progress_update = false;
          })
          w

unfoldable pub get_channel : {C : Type 0} → String → Manager C → Option C
get_channel name m = get m.channels name

names_of : {C : Type 0} → Dict C → List String
names_of [] = []
names_of ((name, c) ∷ cs) = name ∷ names_of cs

unfoldable pub get_enabled_channels : {C : Type 0} → Manager C → List String
unfolding names_of
get_enabled_channels m = names_of m.channels

unfoldable pub register_channel : {C : Type 0} → String → C → Manager C → Manager C
register_channel name c m = record m { channels = put m.channels name c }

unfoldable pub unregister_channel : {C : Type 0} → String → Manager C → Manager C
unregister_channel name m = record m { channels = delete m.channels name }
