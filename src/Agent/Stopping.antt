-- ===== src/Agent/Stopping.antt =====
-- What Run of pkg/agent/loop.go answers to /stop, to /usage and to an error.
use picoclaw.Prelude.{
  String, ◌≡◌, refl, sym, ap, ◌∙◌, inl, inr, true, false, [], str_eq, eq_iff, eq_refl, Bool-cases,
  any,
}
use package.text.Mathlib.Text.{starts_with}
use picoclaw.Prelude.Text.{trim_space}
use picoclaw.Bus.{InboundMessage}
use picoclaw.Tools.Subtask.{SubagentTask, announcement}
use picoclaw.Agent.Calls.{publish}
use picoclaw.Agent.World.{Host, AgentLoop, plain}
use picoclaw.Agent.Context.{Desk, live, cancel, is_canceled}
use picoclaw.Agent.Loop.{process_message}
use picoclaw.Agent.Notices.{reply, error, process_system_message}
use picoclaw.Agent.Serving.{
  Serving, request_key, without, stop_request, already_sent, deliver, respond, serve_request, serve,
}
use picoclaw.Agent.Steps.{served, called, beat, summarized, probed, elapsed, Reach, here, after}

silent-process_system_message :
    (msg : InboundMessage)
    → str_eq msg.channel "system" ≡ true
    → process_system_message msg ≡ reply ""
unfolding process_system_message
silent-process_system_message msg system = rw system refl

module _ {W P Callback : Type 0} (host : Host W P Callback) (desk : Desk W P Callback) where
  idle-stop_request :
      (msg : InboundMessage) (s : Serving W P Callback)
      → s.active_cancel ≡ []
      → stop_request host desk msg s ≡ record s {
        al = publish host (plain msg.channel msg.chat_id "Nothing running to stop.") s.al;
      }
  unfolding stop_request
  idle-stop_request msg s idle =
      let none_open : any (str_eq (request_key msg)) s.active_cancel ≡ false = rw idle refl in
      simp none_open refl

  idle-serve_request :
      (msg : InboundMessage) (s : Serving W P Callback)
      → s.active_cancel ≡ []
      → (serve_request host desk msg s).0.active_cancel ≡ []
  unfolding serve_request without
  idle-serve_request msg s idle = simp (idle, eq_refl) refl

  idle-serve :
      (msg : InboundMessage) (s : Serving W P Callback)
      → s.active_cancel ≡ []
      → (serve host desk msg s).active_cancel ≡ []
  unfolding serve
  idle-serve msg s idle = elim (Bool-cases (str_eq (trim_space msg.content) "/stop")) [
    | inl stop ↦ simp stop (ap (λ t. t.active_cancel) (idle-stop_request msg s idle) ∙ idle)
    | inr other ↦ simp other (idle-serve_request msg s idle)
  ]

  idle-Reach :
      {s t : Serving W P Callback}
      → Reach host desk s t
      → s.active_cancel ≡ []
      → t.active_cancel ≡ []
  idle-Reach here idle = idle
  idle-Reach (after r (served msg t)) idle = idle-serve msg t (idle-Reach r idle)
  idle-Reach (after r (called content key channel chat_id t)) idle = idle-Reach r idle
  idle-Reach (after r (beat content channel chat_id t)) idle = idle-Reach r idle
  idle-Reach (after r (summarized key text t)) idle = idle-Reach r idle
  idle-Reach (after r (probed err t)) idle = idle-Reach r idle
  idle-Reach (after r (elapsed w t)) idle = idle-Reach r idle

  -- /stop never stops anything: whenever Run reads it, no request is open, since Run handles one message
  -- to its end before it reads the next, and the answer is "Nothing running to stop.".
  pub stop_finds_nothing :
      (s t : Serving W P Callback) (msg : InboundMessage)
      → s.active_cancel ≡ []
      → Reach host desk s t
      → str_eq (trim_space msg.content) "/stop" ≡ true
      → serve host desk msg t ≡ record t {
        al = publish host (plain msg.channel msg.chat_id "Nothing running to stop.") t.al;
      }
  unfolding serve
  stop_finds_nothing s t msg idle reach stop =
      simp stop (idle-stop_request msg t (idle-Reach reach idle))

  usage-process_message :
      (msg : InboundMessage) (al : AgentLoop W P Callback)
      → str_eq msg.channel "system" ≡ false
      → starts_with (trim_space msg.content) "/usage" ≡ true
      → let r = process_message host desk msg al in
        (r.0 ≡ al) × (r.1.1 ≡ reply (desk.usage_reply msg (trim_space msg.content) al))
  unfolding process_message
  usage-process_message msg al chat usage = simp (chat, usage) (refl, refl)

  unanswered :
      (msg : InboundMessage) (text : String) (al : AgentLoop W P Callback)
      → already_sent host desk al ≡ true
      → respond host desk msg (reply text) al ≡ al
  unfolding respond deliver
  unanswered msg text al sent = elim (Bool-cases (str_eq text "")) [
    | inl empty ↦ simp empty refl
    | inr said ↦ simp (said, sent) refl
  ]

  no_stop : (text : String) → starts_with text "/usage" ≡ true → str_eq text "/stop" ≡ false
  no_stop text usage = elim (Bool-cases (str_eq text "/stop")) [
    | inl stop ↦
        let impossible : starts_with "/stop" "/usage" ≡ true =
          sym (ap (λ t. starts_with t "/usage") ((eq_iff text "/stop").0 stop)) ∙ usage in
        absurd (cc)
    | inr other ↦ other
  ]

  -- The answer to /usage is lost when the message tool has sent something since its last context was
  -- set, which may have been in the turn of an earlier message: nothing at all is published.
  usage_unanswered :
      (msg : InboundMessage) (s : Serving W P Callback)
      → str_eq msg.channel "system" ≡ false
      → starts_with (trim_space msg.content) "/usage" ≡ true
      → already_sent host desk s.al ≡ true
      → (serve host desk msg s).al ≡ s.al
  unfolding serve serve_request
  usage_unanswered msg s chat usage sent =
      let (same, answer) = usage-process_message msg s.al chat usage in
      simp (no_stop (trim_space msg.content) usage, same, answer)
        (unanswered msg (desk.usage_reply msg (trim_space msg.content) s.al) s.al sent)

  silenced :
      (msg : InboundMessage) (e : String) (al : AgentLoop W P Callback)
      → desk.request_context al.world ≡ live
      → respond host desk msg (error e) al ≡ al
  unfolding respond cancel is_canceled
  silenced msg e al open_context = simp open_context refl

  -- When the processing of a message other than /stop ends in an error, and nothing has cancelled its
  -- context, Run itself adds no message about that: the agent stays as the processing has left it.
  pub error_unreported :
      (msg : InboundMessage) (s : Serving W P Callback) (e : String)
      → str_eq (trim_space msg.content) "/stop" ≡ false
      → (process_message host desk msg s.al).1.1 ≡ error e
      → desk.request_context (process_message host desk msg s.al).0.world ≡ live
      → (serve host desk msg s).al ≡ (process_message host desk msg s.al).0
  unfolding serve serve_request
  error_unreported msg s e other failed open_context =
      simp (other, failed) (silenced msg e (process_message host desk msg s.al).0 open_context)

  silent-process_message :
      (msg : InboundMessage) (al : AgentLoop W P Callback)
      → str_eq msg.channel "system" ≡ true
      → let r = process_message host desk msg al in (r.0 ≡ al) × (r.1.1 ≡ reply "")
  unfolding process_message
  silent-process_message msg al system =
      simp (system, silent-process_system_message msg system) (refl, refl)

  nothing_said :
      (msg : InboundMessage) (al : AgentLoop W P Callback)
      → respond host desk msg (reply "") al ≡ al
  unfolding respond deliver
  nothing_said msg al = refl

  -- A message on the channel "system", which is what tells the agent that a subagent has ended, changes
  -- nothing and is answered with nothing: neither the model nor the user learns of the result.
  announcement_dropped :
      (t : SubagentTask) (s : Serving W P Callback)
      → str_eq (trim_space (announcement t).content) "/stop" ≡ false
      → (serve host desk (announcement t) s).al ≡ s.al
  unfolding serve serve_request announcement
  announcement_dropped t s other =
      let (same, answer) = silent-process_message (announcement t) s.al refl in
      simp (other, same, answer) (nothing_said (announcement t) s.al)
