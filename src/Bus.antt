-- ===== src/Bus.antt =====
-- pkg/bus/bus.go and types.go: two bounded channels of messages and a table of handlers.
pub mod Fifo
mod Examples
use picoclaw.Prelude.{
  ℕ, ◌+◌, String, Bool, true, false, not, ◌&&◌, Option, none, some, List, [], ◌∷◌, ◌++◌, ltb,
  if◌then◌else◌, length,
}
use picoclaw.Prelude.Dict.{Dict, get, put}

pub record InboundMessage : Type 0 where
  pub channel : String
  pub sender_id : String
  pub chat_id : String
  pub content : String
  pub media : List String
  pub session_key : String
  pub metadata : Dict String
  pub correlation_id : String

pub record OutboundMessage : Type 0 where
  pub channel : String
  pub chat_id : String
  pub content : String
  pub media : List String
  pub is_progress_update : Bool

-- A buffered Go channel of capacity 100.
pub record Chan (A : Type 0) : Type 0 where
  pub queue : List A
  pub closed : Bool

-- How a send ends: the sender goes on, waits for room, or panics.
pub data Sent (A : Type 0) : Type 0 where
  sent : Chan A → Sent A
  waits : Sent A
  panics : Sent A

-- How a `select` between a channel and the end of a context ends. A closed channel that is empty gives
-- the zero value.
pub data Received (A : Type 0) : Type 0 where
  received : A → Chan A → Received A
  zero_value : Received A
  cancelled : Received A
  blocks : Received A

abbrev pub capacity : ℕ
capacity = 100

module _ {A : Type 0} where
  abbrev pub make_chan : Chan A
  make_chan = record { queue = []; closed = false }

  unfoldable pub send : A → Chan A → Sent A
  send a c =
      if c.closed
      then panics
      else if ltb (length c.queue) capacity
      then sent (record c { queue = c.queue ++ a ∷ [] })
      else waits

  -- `prefer_done` is the choice that the runtime makes when both cases are ready.
  take_from : List A → Bool → Bool → Bool → Received A
  take_from (a ∷ as') closed done prefer_done =
      if done && prefer_done
      then cancelled
      else received a (record { queue = as'; closed = closed })
  take_from [] closed done prefer_done =
      if done
      then (if closed && not prefer_done then zero_value else cancelled)
      else if closed
      then zero_value
      else blocks

  unfoldable pub receive : Bool → Bool → Chan A → Received A
  unfolding take_from
  receive done prefer_done c = take_from c.queue c.closed done prefer_done

pub record MessageBus (H : Type 0) : Type 0 where
  pub inbound : Chan InboundMessage
  pub outbound : Chan OutboundMessage
  pub handlers : Dict H

-- What a send or a receive leaves of the channel; one that waits, fails or is cancelled changes nothing.
unfoldable pub after_send : {A : Type 0} → Chan A → Sent A → Chan A
after_send c (sent c') = c'
after_send c waits = c
after_send c panics = c

unfoldable pub after_receive : {A : Type 0} → Chan A → Received A → Chan A
after_receive c (received a c') = c'
after_receive c zero_value = c
after_receive c cancelled = c
after_receive c blocks = c

unfoldable pub obtained : {A : Type 0} → Received A → Option A
obtained (received a c') = some a
obtained zero_value = none
obtained cancelled = none
obtained blocks = none

module _ {H : Type 0} where
  unfoldable pub new_message_bus : MessageBus H
  new_message_bus = record { inbound = make_chan; outbound = make_chan; handlers = [] }

  unfoldable pub publish_inbound :
      InboundMessage → MessageBus H → MessageBus H × Sent InboundMessage
  unfolding send after_send
  publish_inbound msg mb =
      let s = send msg mb.inbound in (record mb { inbound = after_send mb.inbound s }, s)

  unfoldable pub consume_inbound :
      Bool → Bool → MessageBus H → MessageBus H × Received InboundMessage
  unfolding receive after_receive
  consume_inbound done prefer_done mb =
      let r = receive done prefer_done mb.inbound in
      (record mb { inbound = after_receive mb.inbound r }, r)

  unfoldable pub publish_outbound :
      OutboundMessage → MessageBus H → MessageBus H × Sent OutboundMessage
  unfolding send after_send
  publish_outbound msg mb =
      let s = send msg mb.outbound in (record mb { outbound = after_send mb.outbound s }, s)

  unfoldable pub subscribe_outbound :
      Bool → Bool → MessageBus H → MessageBus H × Received OutboundMessage
  unfolding receive after_receive
  subscribe_outbound done prefer_done mb =
      let r = receive done prefer_done mb.outbound in
      (record mb { outbound = after_receive mb.outbound r }, r)

  unfoldable pub register_handler : String → H → MessageBus H → MessageBus H
  register_handler channel handler mb = record mb { handlers = put mb.handlers channel handler }

  unfoldable pub get_handler : String → MessageBus H → Option H
  get_handler channel mb = get mb.handlers channel

  -- Closing a second time would panic.
  unfoldable pub close : MessageBus H → MessageBus H
  close mb = record mb {
    inbound = record mb.inbound { closed = true };
    outbound = record mb.outbound { closed = true };
  }
