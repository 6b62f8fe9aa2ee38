-- ===== src/Tools/Examples.antt =====
-- The theorems about tools at concrete tools and models.
use picoclaw.Prelude.{
  true, false, inl, inr, ℕ, suc, String, ◌≡◌, refl, ap, none, some, List, [], ◌∷◌, arith, str_eq,
  if◌then◌else◌,
}
use package.text.Mathlib.Text.{starts_with}
use picoclaw.Tools.Subtask.{SubagentTask}
use picoclaw.Tools.Files.{
  FileHost, FileTool, validate_path, read_file, write_file, list_dir, append_file, edit_file,
}
use picoclaw.Tools.Guards.{with_files, AgreeUnder, file_tools_confined}
use picoclaw.Tools.Paths.{validate_path_sibling}
use picoclaw.Prelude.Int.{pos}
use picoclaw.Prelude.Text.{concat}
use picoclaw.Llm.{field, text, Fields, no_fields, ToolCall, Message}
use picoclaw.Tools.{Tool, user_result}
use picoclaw.Tools.Loop.{Answer, responded, refused, Chat, ToolLoopConfig, run_tool_loop}
use picoclaw.Tools.Pairing.{pending, accept, and_then, Paired, run_tool_loop-Paired}

-- The world counts the tool's runs.
abbrev clock : Tool ℕ ℕ
clock = record {
  name = "clock";
  description = "counts";
  parameters = no_fields;
  set_context = none;
  set_callback = none;
  execute = λ args n. (suc n, user_result "noon");
}

abbrev quoted : String → String
quoted s = concat ("'" ∷ s ∷ "'" ∷ [])

abbrev as_json : Fields → String
as_json args = "{}"

abbrev ask_clock : ToolCall
ask_clock = record {
  id = "call-1";
  type = "";
  function = none;
  name = "clock";
  arguments = no_fields;
}

-- A model that asks for the time first and then repeats the last message.
abbrev reply : List Message → Answer
reply [] = refused "no messages"
reply (m ∷ []) =
    responded
      (record { content = ""; tool_calls = ask_clock ∷ []; finish_reason = ""; usage = none })
reply (m ∷ n ∷ ms) =
    responded (record { content = "noon"; tool_calls = []; finish_reason = ""; usage = none })

abbrev model : Chat ℕ
model ms ts name options w = (w, reply ms)

-- A model that refuses a conversation that begins with an answer to no call.
abbrev careful_reply : List Message → Answer
careful_reply [] = refused "no messages"
careful_reply (m ∷ ms) = if str_eq m.role "tool" then refused "stray answer" else reply (m ∷ ms)

abbrev careful : Chat ℕ
careful ms ts name options w = (w, careful_reply ms)

careful_reply_lem : (ms : List Message) → Paired ms → reply ms ≡ careful_reply ms
unfolding pending accept and_then
careful_reply_lem [] paired = refl
careful_reply_lem (m ∷ ms) paired = ground arith

abbrev config : ToolLoopConfig ℕ ℕ
config = record {
  provider = model;
  model = "gpt";
  tools = some (("clock", clock) ∷ []);
  max_iterations = pos 5;
  llm_options = none;
}

abbrev question : List Message
question =
    record { role = "user"; content = "time?"; tool_calls = []; tool_call_id = ""; media = [] } ∷ []

run_tool_loop-Paired_example :
    run_tool_loop quoted as_json config question "cli" "1" 0
    ≡ run_tool_loop quoted as_json (record config { provider = careful }) question "cli" "1" 0
unfolding pending accept and_then
run_tool_loop-Paired_example =
    run_tool_loop-Paired quoted as_json config careful question "cli" "1" 0
      (λ ms ts name options w paired. ap (λ a. (w, a)) (careful_reply_lem ms paired)) refl

-- A file system that counts what is written.
abbrev files : FileHost ℕ
files = record {
  is_abs = λ p. starts_with p "/";
  abs = λ p. inr p;
  clean = λ p. p;
  join = λ a b. concat (a ∷ "/" ∷ b ∷ []);
  dir = λ p. "/work";
  is_missing = λ p n. false;
  read_file = λ p n. inr "text";
  read_dir = λ p n. inr [];
  mkdir_all = λ p n. (n, none);
  write_file = λ p text n. (suc n, none);
  open_append = λ p n. (n, none);
  write_string = λ p text n. (suc n, none);
}

-- The same under /work, and a file system that can be neither read nor written elsewhere.
abbrev locked : FileHost ℕ
locked = record files {
  read_file = λ p n. if starts_with p "/work" then inr "text" else inl "denied";
  write_file = λ p text n. if starts_with p "/work" then (suc n, none) else (n, some "denied");
}

locked-AgreeUnder : AgreeUnder "/work" files locked
locked-AgreeUnder p under = (
  λ n. refl,
  λ n. rw under refl,
  λ n. refl,
  λ n. refl,
  λ s n. rw under refl,
  λ n. refl,
  λ s n. refl,
)

abbrev confined : FileTool
confined = record { workspace = "/work"; restrict = true }

abbrev edit_args : Fields
edit_args =
    field "path" (text "notes")
      (field "old_text" (text "text") (field "new_text" (text "words") no_fields))

file_tools_confined_example :
    (read_file (with_files files locked) confined edit_args 0
      ≡ read_file files confined edit_args 0)
    × (write_file (with_files files locked) confined edit_args 0
        ≡ write_file files confined edit_args 0)
    × (list_dir (with_files files locked) confined edit_args 0
        ≡ list_dir files confined edit_args 0)
    × (append_file (with_files files locked) confined edit_args 0
        ≡ append_file files confined edit_args 0)
    × (edit_file (with_files files locked) confined edit_args 0
        ≡ edit_file files confined edit_args 0)
file_tools_confined_example =
    file_tools_confined files locked confined "/work" refl refl refl locked-AgreeUnder edit_args 0

validate_path_sibling_example :
    validate_path files "/work-private/key" confined ≡ inr "/work-private/key"
validate_path_sibling_example =
    validate_path_sibling files confined "/work" "-private/key" refl refl refl refl

abbrev begun : SubagentTask
begun = record {
  id = "subagent-1";
  task = "look it up";
  label = "look";
  origin_channel = "cli";
  origin_chat_id = "1";
  status = "running";
  result = "";
  created = pos 1;
}
