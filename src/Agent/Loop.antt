-- ===== src/Agent/Loop.antt =====
-- The loop of pkg/agent/loop.go around a turn: its session, the commands, and what is sent back.
use picoclaw.Prelude.{
  String, Bool, true, false, not, ◌&&◌, Option, none, some, List, [], str_eq, if◌then◌else◌,
}
use package.text.Mathlib.Text.{starts_with}
use picoclaw.Prelude.Text.{trim_space}
use picoclaw.Llm.{Message}
use picoclaw.Bus.{InboundMessage}
use picoclaw.Session.{get_history, get_summary, add_message}
use picoclaw.Session.Files.{save}
use picoclaw.Failover.{Manager, DecisionOutcome, LlmError, enabled}
use picoclaw.Failover.Probe.{should_probe, run_probe}
use picoclaw.Failover.Switchback.{consume_switchback_prompt, handle_user_switchback_decision}
use picoclaw.Agent.Calls.{env_now, publish}
use picoclaw.Agent.World.{Host, AgentLoop, plain}
use picoclaw.Agent.Planner.{ProcessOptions}
use picoclaw.Agent.Turn.{TurnEnd, answered, failed, run_llm_iteration}
use picoclaw.Agent.Summary.{maybe_summarize}
use picoclaw.Agent.Context.{
  Desk, build_messages, cleanup_turn_media, note_channel, update_tool_contexts,
}
use picoclaw.Agent.Notices.{Response, error, process_system_message, reply}

-- What a message has begun beside the loop: a summary of its session, a probe.
pub record Begun : Type 0 where
  pub summary : Bool
  pub probe : Bool

module _ {W P Callback : Type 0} (host : Host W P Callback) (desk : Desk W P Callback) where
  unfoldable pub say : String → String → String → AgentLoop W P Callback → AgentLoop W P Callback
  say key role content al = record al {
    sessions = add_message (env_now host al).now key role content al.sessions;
  }

  unfoldable pub save_session : String → AgentLoop W P Callback → AgentLoop W P Callback
  save_session key al = record al { sessions = (save (host.save_io al.world) key al.sessions).0 }

  -- The messages of the turn.
  unfoldable pub turn_messages : ProcessOptions W → AgentLoop W P Callback → List Message
  turn_messages opts al =
      build_messages (desk.system_prompt al.world) desk.images
        (if opts.no_history then [] else get_history opts.session_key al.sessions)
        (if opts.no_history then "" else get_summary opts.session_key al.sessions) opts.user_message
        opts.media opts.channel opts.chat_id

  -- The end of a turn. The second result tells whether a summary of the session is begun.
  unfoldable pub finish_turn :
      ProcessOptions W
      → AgentLoop W P Callback × TurnEnd
      → AgentLoop W P Callback × (Bool × Response)
  finish_turn opts (al, failed e n) = (al, (false, error e))
  finish_turn opts (al, answered content n) =
      let final = if str_eq content "" then opts.default_response else content in
      let kept = save_session opts.session_key (say opts.session_key "assistant" final al) in
      let (al', begun) =
        if opts.enable_summary then maybe_summarize host opts.session_key kept else (kept, false) in
      (
        if opts.send_response
            then publish host (plain opts.channel opts.chat_id final) al'
            else al',
        (begun, reply final),
      )

  unfoldable pub cleaned :
      List String
      → AgentLoop W P Callback × (Bool × Response)
      → AgentLoop W P Callback × (Bool × Response)
  cleaned media (al, r) = (record al { world = cleanup_turn_media host desk media al.world }, r)

  unfoldable pub run_agent_loop :
      ProcessOptions W → AgentLoop W P Callback → AgentLoop W P Callback × (Bool × Response)
  unfolding finish_turn cleaned
  run_agent_loop opts al =
      let ready =
        update_tool_contexts host desk opts.channel opts.chat_id
          (note_channel host desk opts.channel opts.chat_id al) in
      cleaned opts.media (
        finish_turn opts (
          run_llm_iteration host opts (turn_messages opts ready)
            (say opts.session_key "user" opts.user_message ready)))

  -- The loop, and whether a probe is begun beside it.
  unfoldable pub maybe_run_failover_probe : AgentLoop W P Callback → AgentLoop W P Callback × Bool
  maybe_run_failover_probe al =
      if enabled al.failover
        && should_probe (env_now host al).now al.failover
        && not al.probe_running
      then (record al { probe_running = true }, true)
      else (al, false)

  -- The goroutine of a probe, when the provider has answered it.
  unfoldable pub end_probe : Option LlmError → AgentLoop W P Callback → AgentLoop W P Callback
  end_probe err al = record al {
    failover = (run_probe (env_now host al) err al.failover).0;
    probe_running = false;
  }

  unfoldable pub message_options : InboundMessage → ProcessOptions W
  message_options msg = record {
    session_key = msg.session_key;
    channel = msg.channel;
    chat_id = msg.chat_id;
    user_message = msg.content;
    default_response = "I've completed processing but have no response to give.";
    enable_summary = true;
    send_response = false;
    allow_progress_updates = true;
    no_history = false;
    correlation_id = msg.correlation_id;
    action_stream = desk.stream_for msg.channel msg.chat_id;
    media = msg.media;
  }

  unfoldable pub with_probe :
      Bool
      → AgentLoop W P Callback × (Bool × Response)
      → AgentLoop W P Callback × (Begun × Response)
  with_probe probe (al, (summary, r)) = (al, (record { summary = summary; probe = probe }, r))

  -- A message that is no command.
  unfoldable pub converse :
      InboundMessage → AgentLoop W P Callback × Bool → AgentLoop W P Callback × (Begun × Response)
  unfolding with_probe
  converse msg (al, probe) = with_probe probe (run_agent_loop (message_options msg) al)

  unfoldable pub decided :
      InboundMessage
      → Manager P × DecisionOutcome
      → AgentLoop W P Callback
      → AgentLoop W P Callback × (Begun × Response)
  unfolding converse
  decided msg (m, d) al =
      let al' = record al { failover = m } in
      if d.handled
      then (
        al',
        (
          record { summary = false; probe = false },
          reply (if str_eq d.reply "" then "Acknowledged." else d.reply),
        ),
      )
      else converse msg (maybe_run_failover_probe al')

  unfoldable pub process_message :
      InboundMessage → AgentLoop W P Callback → AgentLoop W P Callback × (Begun × Response)
  unfolding decided
  process_message msg al =
      let trimmed = trim_space msg.content in
      if str_eq msg.channel "system"
      then (al, (record { summary = false; probe = false }, process_system_message msg))
      else if starts_with trimmed "/usage"
      then (
        al,
        (record { summary = false; probe = false }, reply (desk.usage_reply msg trimmed al)),
      )
      else if enabled al.failover
      then decided msg (handle_user_switchback_decision (env_now host al) trimmed al.failover) al
      else converse msg (al, false)

  heartbeat_options : String → String → String → ProcessOptions W
  heartbeat_options content channel chat_id = record {
    session_key = "heartbeat";
    channel = channel;
    chat_id = chat_id;
    user_message = content;
    default_response = "I've completed processing but have no response to give.";
    enable_summary = false;
    send_response = false;
    allow_progress_updates = false;
    no_history = true;
    correlation_id = "";
    action_stream = none;
    media = [];
  }

  unfoldable pub process_heartbeat :
      String → String → String → AgentLoop W P Callback → AgentLoop W P Callback × (Bool × Response)
  unfolding heartbeat_options
  process_heartbeat content channel chat_id al =
      run_agent_loop (heartbeat_options content channel chat_id) al

  unfoldable pub process_direct_with_channel :
      String
      → String
      → String
      → String
      → AgentLoop W P Callback
      → AgentLoop W P Callback × (Begun × Response)
  process_direct_with_channel content session_key channel chat_id al =
      process_message
        (record {
          channel = channel;
          sender_id = "cron";
          chat_id = chat_id;
          content = content;
          media = [];
          session_key = session_key;
          metadata = [];
          correlation_id = "";
        })
        al

  unfoldable pub prompted :
      String → String → Manager P × Option String → AgentLoop W P Callback → AgentLoop W P Callback
  prompted channel chat_id (m, none) al = record al { failover = m }
  prompted channel chat_id (m, some prompt) al =
      let al' = record al { failover = m } in
      if str_eq (trim_space prompt) ""
      then al'
      else publish host (plain channel chat_id (trim_space prompt)) al'

  unfoldable pub maybe_send_switchback_prompt :
      String → String → AgentLoop W P Callback → AgentLoop W P Callback
  unfolding prompted
  maybe_send_switchback_prompt channel chat_id al =
      let e = env_now host al in
      if enabled al.failover && not (str_eq channel "") && not (str_eq chat_id "")
      then prompted channel chat_id (consume_switchback_prompt e e.now al.failover) al
      else al
