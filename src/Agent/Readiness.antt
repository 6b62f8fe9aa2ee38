-- ===== src/Agent/Readiness.antt =====
-- The conversations that the agent of pkg/agent/loop.go sends are fit for a provider, whatever has
-- happened before.
use picoclaw.Prelude.{
  String, ◌≡◌, refl, inl, inr, Bool, false, not, ◌&&◌, ◌||◌, Option, none, some, List, [], arith,
  str_eq, Bool-cases, any,
}
use package.text.Mathlib.Text.{starts_with}
use picoclaw.Prelude.Int.{pos}
use picoclaw.Prelude.Text.{trim_space}
use picoclaw.Llm.{Message, MediaImage}
use picoclaw.Tools.Pairing.{pending, accept, and_then, Paired}
use picoclaw.Bus.{InboundMessage}
use picoclaw.Session.{set_summary}
use picoclaw.Failover.{Manager, DecisionOutcome, enabled}
use picoclaw.Failover.Switchback.{handle_user_switchback_decision}
use picoclaw.Agent.Calls.{env_now, publish}
use picoclaw.Agent.World.{Host, AgentLoop}
use picoclaw.Agent.Planner.{ProcessOptions, text_message}
use picoclaw.Agent.Summary.{put_summary, end_summary}
use picoclaw.Agent.Context.{Desk, cancel, is_canceled, build_messages, drop_orphans}
use picoclaw.Agent.Notices.{Response, reply, error}
use picoclaw.Agent.Loop.{
  turn_messages, run_agent_loop, maybe_run_failover_probe, end_probe, with_probe, converse, decided,
  process_message, process_heartbeat, process_direct_with_channel, prompted,
  maybe_send_switchback_prompt,
}
use picoclaw.Agent.Serving.{
  Serving, request_key, stop_request, already_sent, deliver, respond, serve_request, serve,
}
use picoclaw.Agent.Steps.{
  Step, served, called, beat, summarized, probed, elapsed, Reach, here, after,
}
use picoclaw.Agent.Orphans.{Ready, pending_closed}
use picoclaw.Agent.Histories.{get_history-save, Extends-run_agent_loop}
use picoclaw.Agent.AllReady.{
  AllReady, AllReady-Extends, AllReady-truncate_history, get_history-set_summary,
}

module _ {W P Callback : Type 0} (host : Host W P Callback) (desk : Desk W P Callback) where
  AllReady-put_summary :
      (key text : String) (al : AgentLoop W P Callback)
      → AllReady al.sessions
      → AllReady (put_summary host key text al).sessions
  unfolding put_summary
  AllReady-put_summary key text al ready k = elim (Bool-cases (str_eq text "")) [
    | inl empty ↦ rw empty (ready k)
    | inr made ↦
        let now = (env_now host al).now in
        let noted = set_summary now key text al.sessions in
        rw (made, get_history-save)
          (AllReady-truncate_history now key (pos 4) noted
            (λ k'. rw (get_history-set_summary now key k' text al.sessions) (ready k')) k)
  ]

  AllReady-run_agent_loop :
      (opts : ProcessOptions W) (al : AgentLoop W P Callback)
      → AllReady al.sessions
      → AllReady (run_agent_loop host desk opts al).0.sessions
  AllReady-run_agent_loop opts al ready =
      AllReady-Extends opts.session_key al.sessions (run_agent_loop host desk opts al).0.sessions
        (Extends-run_agent_loop host desk opts al) ready

  sessions-with_probe :
      (probe : Bool) (r : AgentLoop W P Callback × (Bool × Response))
      → (with_probe host desk probe r).0.sessions ≡ r.0.sessions
  unfolding with_probe
  sessions-with_probe probe (al, (summary, r)) = refl

  AllReady-converse :
      (msg : InboundMessage) (r : AgentLoop W P Callback × Bool)
      → AllReady r.0.sessions
      → AllReady (converse host desk msg r).0.sessions
  unfolding converse
  AllReady-converse msg (al, probe) ready =
      rw sessions-with_probe (AllReady-run_agent_loop _ al ready)

  sessions-maybe_run_failover_probe :
      (al : AgentLoop W P Callback)
      → (maybe_run_failover_probe host desk al).0.sessions ≡ al.sessions
  unfolding maybe_run_failover_probe
  sessions-maybe_run_failover_probe al = ground arith

  AllReady-decided :
      (msg : InboundMessage) (r : Manager P × DecisionOutcome) (al : AgentLoop W P Callback)
      → AllReady al.sessions
      → AllReady (decided host desk msg r al).0.sessions
  unfolding decided
  AllReady-decided msg (m, d) al ready = elim (Bool-cases d.handled) [
    | inl handled ↦ simp handled ready
    | inr ordinary ↦
        let al' : AgentLoop W P Callback = record al { failover = m } in
        simp ordinary (
          AllReady-converse msg (maybe_run_failover_probe host desk al')
            (rw sessions-maybe_run_failover_probe ready))
  ]

  AllReady-process_message :
      (msg : InboundMessage) (al : AgentLoop W P Callback)
      → AllReady al.sessions
      → AllReady (process_message host desk msg al).0.sessions
  unfolding process_message
  AllReady-process_message msg al ready = elim (Bool-cases (str_eq msg.channel "system")) [
    | inl system ↦ simp system ready
    | inr chat ↦ elim (Bool-cases (starts_with (trim_space msg.content) "/usage")) [
      | inl usage ↦ simp (chat, usage) ready
      | inr other ↦ elim (Bool-cases (enabled al.failover)) [
        | inl on ↦
            simp (chat, other, on)
              (AllReady-decided msg
                (handle_user_switchback_decision (env_now host al) (trim_space msg.content)
                  al.failover)
                al ready)
        | inr off ↦ simp (chat, other, off) (AllReady-converse msg (al, false) ready)
      ]
    ]
  ]

  sessions-prompted :
      (channel chat_id : String) (r : Manager P × Option String) (al : AgentLoop W P Callback)
      → (prompted host desk channel chat_id r al).sessions ≡ al.sessions
  unfolding prompted publish
  sessions-prompted channel chat_id (m, none) al = refl
  sessions-prompted channel chat_id (m, some prompt) al =
      elim (Bool-cases (str_eq (trim_space prompt) "")) [
        | inl empty ↦ simp empty refl
        | inr shown ↦ simp shown refl
      ]

  sessions-maybe_send_switchback_prompt :
      (channel chat_id : String) (al : AgentLoop W P Callback)
      → (maybe_send_switchback_prompt host desk channel chat_id al).sessions ≡ al.sessions
  unfolding maybe_send_switchback_prompt
  sessions-maybe_send_switchback_prompt channel chat_id al =
      elim (Bool-cases
        (enabled al.failover && not (str_eq channel "") && not (str_eq chat_id ""))) [
          | inl on ↦ rw (on, sessions-prompted) refl
          | inr off ↦ rw off refl
        ]

  sessions-deliver :
      (msg : InboundMessage) (text : String) (al : AgentLoop W P Callback)
      → (deliver host desk msg text al).sessions ≡ al.sessions
  unfolding deliver publish
  sessions-deliver msg text al = elim (Bool-cases (str_eq text "" || already_sent host desk al)) [
    | inl nothing ↦ rw nothing refl
    | inr sends ↦ rw (sends, sessions-maybe_send_switchback_prompt) refl
  ]

  sessions-respond :
      (msg : InboundMessage) (r : Response) (al : AgentLoop W P Callback)
      → (respond host desk msg r al).sessions ≡ al.sessions
  unfolding respond
  sessions-respond msg (reply text) al = sessions-deliver msg text al
  sessions-respond msg (error e) al =
      elim (Bool-cases (is_canceled (cancel (desk.request_context al.world)))) [
        | inl cancelled ↦ rw cancelled refl
        | inr failed ↦ rw (failed, sessions-deliver) refl
      ]

  sessions-stop_request :
      (msg : InboundMessage) (s : Serving W P Callback)
      → (stop_request host desk msg s).al.sessions ≡ s.al.sessions
  unfolding stop_request publish
  sessions-stop_request msg s = elim (Bool-cases (any (str_eq (request_key msg)) s.active_cancel)) [
    | inl running ↦ simp running refl
    | inr idle ↦ simp idle refl
  ]

  sessions-serve_request :
      (msg : InboundMessage) (s : Serving W P Callback)
      → (serve_request host desk msg s).0.al.sessions
        ≡ (process_message host desk msg s.al).0.sessions
  unfolding serve_request
  sessions-serve_request msg s = rw sessions-respond refl

  AllReady-serve :
      (msg : InboundMessage) (s : Serving W P Callback)
      → AllReady s.al.sessions
      → AllReady (serve host desk msg s).al.sessions
  unfolding serve
  AllReady-serve msg s ready = elim (Bool-cases (str_eq (trim_space msg.content) "/stop")) [
    | inl stop ↦ simp (stop, sessions-stop_request) ready
    | inr other ↦ simp (other, sessions-serve_request) (AllReady-process_message msg s.al ready)
  ]

  AllReady-Step :
      {s t : Serving W P Callback}
      → Step host desk s t
      → AllReady s.al.sessions
      → AllReady t.al.sessions
  unfolding process_direct_with_channel process_heartbeat end_summary end_probe
  AllReady-Step (served msg s) ready = AllReady-serve msg s ready
  AllReady-Step (called content key channel chat_id s) ready = AllReady-process_message _ s.al ready
  AllReady-Step (beat content channel chat_id s) ready = AllReady-run_agent_loop _ s.al ready
  AllReady-Step (summarized key text s) ready = AllReady-put_summary key text s.al ready
  AllReady-Step (probed err s) ready = ready
  AllReady-Step (elapsed w s) ready = ready

  AllReady-Reach :
      {s t : Serving W P Callback}
      → Reach host desk s t
      → AllReady s.al.sessions
      → AllReady t.al.sessions
  AllReady-Reach here ready = ready
  AllReady-Reach (after r step) ready = AllReady-Step step (AllReady-Reach r ready)

  Paired-build_messages :
      (prompt : String) (images : List String → List MediaImage) (history : List Message)
      (summary current : String) (media : List String) (channel chat_id : String)
      → Ready history
      → Paired (build_messages prompt images history summary current media channel chat_id)
  unfolding build_messages pending accept and_then text_message
  Paired-build_messages prompt images history summary current media channel chat_id ready =
      pending_closed [] (drop_orphans history) _ refl ready

  -- From sessions whose histories are fit to be sent, whatever sequence of messages, calls by the cron
  -- service, heartbeats, summaries and probes follows, the conversation that the next turn starts from
  -- has every tool call answered, in order, and no result without its call.
  pub turn_messages-Paired :
      (s t : Serving W P Callback) (opts : ProcessOptions W)
      → AllReady s.al.sessions
      → Reach host desk s t
      → Paired (turn_messages host desk opts t.al)
  unfolding turn_messages pending drop_orphans
  turn_messages-Paired s t opts ready reach =
      Paired-build_messages _ desk.images _ _ opts.user_message opts.media opts.channel opts.chat_id
        (elim (Bool-cases opts.no_history) [
          | inl without ↦ rw without refl
          | inr with_history ↦ rw with_history (AllReady-Reach reach ready opts.session_key)
        ])
