-- ===== src/Bus/Fifo.antt =====
-- The message bus of pkg/bus/bus.go against what it promises: a queue that loses, doubles and reorders
-- nothing, with at most 100 messages waiting.
use picoclaw.Prelude.{◌≤◌, String, ◌≡◌, Bool, List, [], ◌∷◌, ◌++◌, length}
use picoclaw.Bus.{
  InboundMessage, OutboundMessage, Chan, Sent, sent, waits, panics, Received, received, zero_value,
  cancelled, blocks, MessageBus, new_message_bus, publish_inbound, consume_inbound,
  publish_outbound, subscribe_outbound, register_handler, close,
}

-- A call of the bus by one of its users. The flags of a receive are the state of its context and the
-- choice of the runtime.
pub data Call (H : Type 0) : Type 0 where
  publishes_inbound : InboundMessage → Call H
  consumes_inbound : Bool → Bool → Call H
  publishes_outbound : OutboundMessage → Call H
  subscribes_outbound : Bool → Bool → Call H
  registers : String → H → Call H
  closes : Call H

-- What the users have seen of one direction: the messages whose sends went through and those received.
pub record Traffic (A : Type 0) : Type 0 where
  pub accepted : List A
  pub delivered : List A

pub record World (H : Type 0) : Type 0 where
  pub bus : MessageBus H
  pub inward : Traffic InboundMessage
  pub outward : Traffic OutboundMessage

module _ {A : Type 0} where
  note_sent : A → Sent A → Traffic A → Traffic A
  note_sent a (sent c) t = record t { accepted = t.accepted ++ a ∷ [] }
  note_sent a waits t = t
  note_sent a panics t = t

  note_received : Received A → Traffic A → Traffic A
  note_received (received a c) t = record t { delivered = t.delivered ++ a ∷ [] }
  note_received zero_value t = t
  note_received cancelled t = t
  note_received blocks t = t

module _ {H : Type 0} where
  unfoldable pub perform : World H → Call H → World H
  unfolding note_sent note_received
  perform w (publishes_inbound msg) =
      let (bus, s) = publish_inbound msg w.bus in
      record w { bus = bus; inward = note_sent msg s w.inward }
  perform w (consumes_inbound done prefer_done) =
      let (bus, r) = consume_inbound done prefer_done w.bus in
      record w { bus = bus; inward = note_received r w.inward }
  perform w (publishes_outbound msg) =
      let (bus, s) = publish_outbound msg w.bus in
      record w { bus = bus; outward = note_sent msg s w.outward }
  perform w (subscribes_outbound done prefer_done) =
      let (bus, r) = subscribe_outbound done prefer_done w.bus in
      record w { bus = bus; outward = note_received r w.outward }
  perform w (registers channel handler) = record w { bus = register_handler channel handler w.bus }
  perform w closes = record w { bus = close w.bus }

  unfoldable pub perform_all : World H → List (Call H) → World H
  perform_all w [] = w
  perform_all w (c ∷ cs) = perform_all (perform w c) cs

  abbrev pub fresh : World H
  fresh = record {
    bus = new_message_bus;
    inward = record { accepted = []; delivered = [] };
    outward = record { accepted = []; delivered = [] };
  }

-- The messages accepted are those delivered, in the same order, and then those that wait.
pub record IsFifo {A : Type 0} (c : Chan A) (t : Traffic A) : Type 0 where
  pub in_order : t.accepted ≡ t.delivered ++ c.queue
  pub bounded : length c.queue ≤ 100
