-- ===== src/Agent/Steps.antt =====
-- What happens to the agent of pkg/agent/loop.go while it serves: messages of the bus, calls by the cron
-- service and the heartbeat, and the ends of what a turn has begun beside the loop.
use picoclaw.Prelude.{String, Option}
use picoclaw.Bus.{InboundMessage}
use picoclaw.Failover.{LlmError}
use picoclaw.Agent.World.{Host, AgentLoop}
use picoclaw.Agent.Summary.{put_summary, end_summary}
use picoclaw.Agent.Context.{Desk}
use picoclaw.Agent.Loop.{process_heartbeat, process_direct_with_channel, end_probe}
use picoclaw.Agent.Serving.{Serving, serve}

module _ {W P Callback : Type 0} (host : Host W P Callback) (desk : Desk W P Callback) where
  abbrev pub with_loop : AgentLoop W P Callback → Serving W P Callback → Serving W P Callback
  with_loop al s = record s { al = al }

  -- A summary may come with any text at any time, and the world moves on by itself.
  pub data Step : Serving W P Callback → Serving W P Callback → Type 0 where
    served : (msg : InboundMessage) (s : Serving W P Callback) → Step s (serve host desk msg s)
    called :
        (content key channel chat_id : String) (s : Serving W P Callback)
        → Step s
            (with_loop (process_direct_with_channel host desk content key channel chat_id s.al).0 s)
    beat :
        (content channel chat_id : String) (s : Serving W P Callback)
        → Step s (with_loop (process_heartbeat host desk content channel chat_id s.al).0 s)
    summarized :
        (key text : String) (s : Serving W P Callback)
        → Step s (with_loop (end_summary host key (put_summary host key text s.al)) s)
    probed :
        (err : Option LlmError) (s : Serving W P Callback)
        → Step s (with_loop (end_probe host desk err s.al) s)
    elapsed : (w : W) (s : Serving W P Callback) → Step s (with_loop (record s.al { world = w }) s)

  -- Any number of steps.
  pub data Reach (s : Serving W P Callback) : Serving W P Callback → Type 0 where
    here : Reach s s
    after : {t u : Serving W P Callback} → Reach s t → Step t u → Reach s u
