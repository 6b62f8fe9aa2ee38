-- ===== src/Channels/Manager/Dispatch.antt =====
-- The dispatcher of pkg/channels/manager.go beside those who publish on the bus.
use picoclaw.Prelude.{
  ◌≡◌, Bool, true, Option, none, some, List, [], ◌∷◌, ◌++◌, if◌then◌else◌, str_eq, any,
}
use picoclaw.Bus.{
  MessageBus, OutboundMessage, Chan, Sent, sent, waits, panics, publish_outbound,
  subscribe_outbound, obtained,
}
use picoclaw.Prelude.Dict.{get}
use picoclaw.Channels.Manager.{ChannelOps, Manager, dispatch_round}

-- A round of the dispatcher with its flags, or the publication of a message.
pub data Event : Type 0 where
  publishes : OutboundMessage → Event
  rounds : Bool → Bool → Bool → Event

-- `accepted` holds the messages whose publication went through, `delivered` those that the dispatcher took.
pub record Line (H W : Type 0) : Type 0 where
  pub bus : MessageBus H
  pub world : W
  pub running : Bool
  pub accepted : List OutboundMessage
  pub delivered : List OutboundMessage

accepted_by : OutboundMessage → Sent OutboundMessage → List OutboundMessage
accepted_by msg (sent c) = msg ∷ []
accepted_by msg waits = []
accepted_by msg panics = []

taken : Option OutboundMessage → List OutboundMessage
taken none = []
taken (some msg) = msg ∷ []

abbrev chan : List OutboundMessage → Bool → Chan OutboundMessage
chan q closed = record { queue = q; closed = closed }

with_channel : {C : Type 0} → Option C → OutboundMessage → List (C × OutboundMessage)
with_channel none msg = []
with_channel (some c) msg = (c, msg) ∷ []

-- Each message that has a channel in the table, and not one of the internal ones, with that channel.
pub addressed : {C : Type 0} → Manager C → List OutboundMessage → List (C × OutboundMessage)
addressed m [] = []
addressed m (msg ∷ msgs) =
    (if any (str_eq msg.channel) ("cli" ∷ "system" ∷ "subagent" ∷ [])
      then []
      else with_channel (get m.channels msg.channel) msg)
    ++ addressed m msgs

module _ {C W : Type 0} (ops : ChannelOps C W) where
  -- The channels send these messages, one after the other.
  pub send_each : List (C × OutboundMessage) → W → W
  send_each [] w = w
  send_each ((c, msg) ∷ rest) w = send_each rest (ops.send_message c msg w).0

module _ {C H W : Type 0} (ops : ChannelOps C W) (m : Manager C) where
  unfoldable pub step : Event → Line H W → Line H W
  unfolding accepted_by taken
  step (publishes msg) l =
      let (mb, s) = publish_outbound msg l.bus in
      record l { bus = mb; accepted = l.accepted ++ accepted_by msg s }
  step (rounds ended done prefer_done) l =
      let ((mb, w), more) = dispatch_round ops m ended done prefer_done l.bus l.world in
      let (_, r) = subscribe_outbound done prefer_done l.bus in
      if l.running
      then record l {
        bus = mb;
        world = w;
        running = more;
        delivered = l.delivered ++ (if ended then [] else taken (obtained r));
      }
      else l

  unfoldable pub run : List Event → Line H W → Line H W
  unfolding step
  run [] l = l
  run (e ∷ es) l = run es (step e l)

  -- A line is in order when what was waiting or accepted is what was delivered or waits, and the world
  -- is what sending it on its channels makes.
  pub record IsInOrder (q : List OutboundMessage) (w : W) (l : Line H W) : Type 0 where
    pub kept : l.delivered ++ l.bus.outbound.queue ≡ q ++ l.accepted
    pub made : l.world ≡ send_each ops (addressed m l.delivered) w

  abbrev pub opened : MessageBus H → W → Line H W
  opened mb w = record { bus = mb; world = w; running = true; accepted = []; delivered = [] }
