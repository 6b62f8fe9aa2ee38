-- ===== src/Bus/Examples.antt =====
-- The theorem about the message bus at a concrete run.
use picoclaw.Prelude.{ℕ, String, true, false, List, [], ◌∷◌}
use picoclaw.Bus.{OutboundMessage}
use picoclaw.Bus.Fifo.{Call, publishes_outbound, subscribes_outbound, closes}

abbrev note : String → OutboundMessage
note text = record {
  channel = "cli";
  chat_id = "1";
  content = text;
  media = [];
  is_progress_update = false;
}

abbrev calls : List (Call ℕ)
calls =
    publishes_outbound (note "a")
    ∷ publishes_outbound (note "b")
    ∷ subscribes_outbound false false
    ∷ closes
    ∷ subscribes_outbound true false
    ∷ []
