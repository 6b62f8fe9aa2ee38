-- ===== src/Agent/Serving.antt =====
-- Run of pkg/agent/loop.go: one message of the bus after the other.
use picoclaw.Prelude.{
  String, Bool, not, ◌&&◌, ◌||◌, List, [], ◌∷◌, str_eq, if◌then◌else◌, is_some, keep, any,
}
use picoclaw.Prelude.Dict.{get}
use picoclaw.Prelude.Text.{concat, trim_space}
use picoclaw.Bus.{InboundMessage}
use picoclaw.Tools.MessageTool.{has_sent_in_round}
use picoclaw.Agent.Calls.{publish}
use picoclaw.Agent.World.{Host, AgentLoop, plain}
use picoclaw.Agent.Context.{Desk, cancel, is_canceled}
use picoclaw.Agent.Loop.{Begun, process_message, maybe_send_switchback_prompt}
use picoclaw.Agent.Notices.{Response, reply, error}

-- The loop with activeCancel, the requests that /stop can cancel, which only Run reads and writes.
pub record Serving (W P Callback : Type 0) : Type 0 where
  pub al : AgentLoop W P Callback
  pub active_cancel : List String

unfoldable pub request_key : InboundMessage → String
request_key msg = concat (msg.channel ∷ ":" ∷ msg.chat_id ∷ [])

unfoldable pub without : String → List String → List String
without key keys = keep (λ k. not (str_eq k key)) keys

module _ {W P Callback : Type 0} (host : Host W P Callback) (desk : Desk W P Callback) where
  -- /stop.
  unfoldable pub stop_request : InboundMessage → Serving W P Callback → Serving W P Callback
  unfolding without
  stop_request msg s =
      if any (str_eq (request_key msg)) s.active_cancel
      then record {
        al = publish host (plain msg.channel msg.chat_id "Stopped.") s.al;
        active_cancel = without (request_key msg) s.active_cancel;
      }
      else record s {
        al = publish host (plain msg.channel msg.chat_id "Nothing running to stop.") s.al;
      }

  unfoldable pub already_sent : AgentLoop W P Callback → Bool
  already_sent al =
      is_some (get al.tools "message") && has_sent_in_round (desk.message_tool al.world)

  unfoldable pub deliver : InboundMessage → String → AgentLoop W P Callback → AgentLoop W P Callback
  unfolding already_sent
  deliver msg response al =
      if str_eq response "" || already_sent al
      then al
      else maybe_send_switchback_prompt host desk msg.channel msg.chat_id
          (publish host (plain msg.channel msg.chat_id response) al)

  -- An error is sent unless Err of the request's context, on which Run has called the CancelFunc by
  -- then, answers context.Canceled.
  unfoldable pub respond :
      InboundMessage → Response → AgentLoop W P Callback → AgentLoop W P Callback
  unfolding deliver cancel is_canceled
  respond msg (reply text) al = deliver msg text al
  respond msg (error e) al =
      if is_canceled (cancel (desk.request_context al.world))
      then al
      else deliver msg (concat ("Error processing message: " ∷ e ∷ [])) al

  -- A message other than /stop. What it has begun beside the loop is the second result.
  unfoldable pub serve_request :
      InboundMessage → Serving W P Callback → Serving W P Callback × Begun
  unfolding respond without
  serve_request msg s =
      let open_requests = request_key msg ∷ without (request_key msg) s.active_cancel in
      let (al, (begun, response)) = process_message host desk msg s.al in
      (
        record {
          al = respond msg response al;
          active_cancel = without (request_key msg) open_requests;
        },
        begun,
      )

  unfoldable pub serve : InboundMessage → Serving W P Callback → Serving W P Callback
  serve msg s =
      if str_eq (trim_space msg.content) "/stop"
      then stop_request msg s
      else (serve_request msg s).0

  unfoldable pub serve_all : List InboundMessage → Serving W P Callback → Serving W P Callback
  serve_all [] s = s
  serve_all (msg ∷ msgs) s = serve_all msgs (serve msg s)
