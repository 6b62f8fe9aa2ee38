-- ===== src/Agent/Fixtures.antt =====
-- A concrete model, tool and conversation, at which the theorems about the agent are applied.
use picoclaw.Prelude.{
  ℕ, String, Bool, true, false, none, some, List, [], ◌∷◌, ◌++◌, str_eq, if◌then◌else◌,
}
use picoclaw.Prelude.Int.{pos}
use picoclaw.Llm.{no_fields, ToolCall, Message, LlmResponse}
use picoclaw.State.{Io, written, zero_state, zero_failover}
use picoclaw.Bus.{InboundMessage, OutboundMessage}
use picoclaw.Session.{SessionManager}
use picoclaw.Session.Files.{SaveIo}
use picoclaw.Failover.{Manager}
use picoclaw.Usage
use picoclaw.Tools.{Tool, ToolRegistry, user_result}
use picoclaw.Tools.MessageTool.{new_message_tool}
use picoclaw.Agent.World.{replied, Host, AgentLoop}
use picoclaw.Agent.Planner.{ProcessOptions}
use picoclaw.Agent.Context.{live, Desk}
use picoclaw.Agent.Loop.{message_options}
use picoclaw.Agent.Serving.{Serving}

-- What has been sent, and whether the message tool has sent something.
pub record World : Type 0 where
  sent : List OutboundMessage
  said : Bool

abbrev pub ask_clock : ToolCall
ask_clock = record {
  id = "call-1";
  type = "";
  function = none;
  name = "clock";
  arguments = no_fields;
}

abbrev pub with_clock : LlmResponse
with_clock = record { content = ""; tool_calls = ask_clock ∷ []; finish_reason = ""; usage = none }

abbrev noon : LlmResponse
noon = record { content = "noon"; tool_calls = []; finish_reason = ""; usage = none }

-- A model that asks for the time after a message of the user.
abbrev answer_to : List Message → LlmResponse
answer_to [] = noon
answer_to (m ∷ ms) = if str_eq m.role "user" then with_clock else noon

unfoldable pub last : List Message → List Message
last [] = []
last (m ∷ []) = m ∷ []
last (m ∷ n ∷ ms) = last (n ∷ ms)

abbrev good_io : Io
good_io = record { marshal_ok = true; write = written; rename_ok = true }

abbrev good_save : SaveIo
good_save = record {
  marshal_ok = true;
  temp_name = some "session-1.tmp";
  write_ok = true;
  chmod_ok = true;
  sync_ok = true;
  close_ok = true;
  rename_ok = true;
}

-- `chatted` is what a call of the model makes of the world.
abbrev pub host_over : {W : Type 0} → (W → W) → (OutboundMessage → W → W) → Host W String ℕ
host_over chatted publish = record {
  chat =
      λ provider messages tools model options w. (chatted w, replied (answer_to (last messages)));
  create_provider = λ model. some model;
  publish = publish;
  env = λ w. record { now = pos 1; io = good_io; format_time = λ u. "now"; parse_date = λ s. none };
  save_io = λ w. good_save;
  usage_io = λ w. Usage.written;
  plan_io = λ w. record { mkdir_ok = true; write_ok = true; rename_ok = true };
  plan_texts = λ w. record { stamp = "0"; rfc3339 = "0"; quote = λ s. s; join_path = λ a b. b };
  put_file = λ path text w. w;
  today = λ w. "2026-01-01";
  base_name = λ p. p;
  quote = λ s. s;
  marshal = λ fs. "{}";
  log_only = 0;
}

abbrev pub host : Host World String ℕ
host = host_over (λ w. w) (λ m w. record w { sent = w.sent ++ m ∷ [] })

abbrev clock : Tool World ℕ
clock = record {
  name = "clock";
  description = "tells the time";
  parameters = no_fields;
  set_context = none;
  set_callback = none;
  execute = λ args w. (w, user_result "noon");
}

abbrev message_tool : Tool World ℕ
message_tool = record {
  name = "message";
  description = "sends a message";
  parameters = no_fields;
  set_context = some (λ channel chat_id w. record w { said = false });
  set_callback = none;
  execute = λ args w. (record w { said = true }, user_result "");
}

abbrev pub desk : Desk World String ℕ
desk = record {
  system_prompt = λ w. "You are picoclaw.";
  images = λ paths. [];
  stream_for = λ channel chat_id. none;
  usage_reply = λ msg text al. "no usage";
  message_tool = λ w. record new_message_tool { sent_in_round = w.said };
  request_context = λ w. live;
  clean = λ p. p;
  rel = λ dir p. none;
  media_dirs = [];
  remove_file = λ p w. w;
}

abbrev pub manager : List Message → SessionManager
manager history = record {
  sessions =
      (
        "cli:1",
        record {
          key = "cli:1";
          messages = history;
          summary = "old";
          created = pos 1;
          updated = pos 1;
        },
      )
      ∷ [];
  storage = "";
  files = [];
}

abbrev failover : Manager String
failover = record {
  cfg = record {
    model = "claude";
    fallback_models = [];
    fallback_model = "";
    enabled = false;
    hold_minutes = pos 300;
    probe_interval_minutes = pos 5;
    probe_success_threshold = pos 2;
    probe_failure_backoff_minutes = pos 10;
    switchback_requires_approval = true;
  };
  state_mgr = record {
    state = zero_state;
    disk = record { state_file = none; temp_file = none; old_state_file = none };
  };
  fs = zero_failover;
  primary = "claude";
  fallbacks = [];
  providers = [];
}

abbrev pub loop_over : {W : Type 0} → ToolRegistry W ℕ → W → List Message → AgentLoop W String ℕ
loop_over tools w history = record {
  provider = "claude";
  model = "claude";
  workspace = "";
  context_window = pos 8192;
  max_iterations = pos 5;
  notify_on_switch = true;
  planner_enabled = false;
  planner_model = "";
  sessions = manager history;
  failover = failover;
  tools = tools;
  usage_store = record { records = []; path = ""; file = none };
  summarizing = [];
  probe_running = false;
  last_notice_by_ep = pos 0;
  world = w;
}

abbrev pub loop : List Message → Bool → AgentLoop World String ℕ
loop history said =
    loop_over (("clock", clock) ∷ ("message", message_tool) ∷ [])
      (record { sent = []; said = said }) history

abbrev pub idle : List Message → Bool → Serving World String ℕ
idle history said = record { al = loop history said; active_cancel = [] }

abbrev pub request : String → InboundMessage
request content = record {
  channel = "cli";
  sender_id = "me";
  chat_id = "1";
  content = content;
  media = [];
  session_key = "cli:1";
  metadata = [];
  correlation_id = "";
}

abbrev pub options : ProcessOptions World
options = message_options host desk (request "time?")

abbrev pub question : Message
question = record {
  role = "user";
  content = "time?";
  tool_calls = [];
  tool_call_id = "";
  media = [];
}
