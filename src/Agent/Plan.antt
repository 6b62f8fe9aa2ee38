-- ===== src/Agent/Plan.antt =====
-- pkg/agent/plan.go: the plan that the agent announces before it runs tools, as text. `Base` stands for
-- filepath.Base.
use picoclaw.Prelude.{
  ℕ, suc, String, Bool, true, false, ◌||◌, Option, none, some, List, [], ◌∷◌, ◌++◌, str_eq, ◌==◌,
  if◌then◌else◌, length, take,
}
use Prim.Native.Nat.{min}
use package.text.Mathlib.Text.{find?}
use picoclaw.Prelude.Int.{pos}
use picoclaw.Prelude.Text.{concat, itoa, trim_space}
use picoclaw.Prelude.Strings.{fields, join, front}
use picoclaw.Llm.{
  Value, null, boolean, number, text, array, object, Fields, no_fields, field, ToolCall,
  FunctionCall,
}
use picoclaw.Utils.{truncate}

pub record PlanState : Type 0 where
  pub announced : Bool
  pub bullets : List String
  pub allowed : List String

abbrev pub new_execution_plan_state : PlanState
new_execution_plan_state = record { announced = false; bullets = []; allowed = [] }

unfoldable pub listed : String → List String → Bool
listed name [] = false
listed name (x ∷ xs) = let rest = listed name xs in if str_eq x name then true else rest

function_name : Option FunctionCall → String
function_name none = ""
function_name (some f) = trim_space f.name

-- The trimmed name of a call, or else that of its function.
unfoldable pub call_name : ToolCall → String
unfolding function_name
call_name tc =
    if str_eq (trim_space tc.name) "" then function_name tc.function else trim_space tc.name

allow : String → List String → List String
allow name allowed = if str_eq name "" || listed name allowed then allowed else allowed ++ name ∷ []

unfoldable pub absorb_tool_calls : List ToolCall → PlanState → PlanState
unfolding allow
absorb_tool_calls [] s = s
absorb_tool_calls (tc ∷ tcs) s =
    absorb_tool_calls tcs (record s { allowed = allow (call_name tc) s.allowed })

unfoldable pub is_allowed_tool : String → PlanState → Bool
is_allowed_tool name s = listed name s.allowed

-- A value asserted to be a string: the zero value otherwise.
text_of : Value → String
text_of (text s) = s
text_of null = ""
text_of (boolean b) = ""
text_of (number n) = ""
text_of (array items) = ""
text_of (object entries) = ""

-- tc.Arguments[key].(string)
unfoldable pub text_at : String → Fields → String
unfolding text_of
text_at key no_fields = ""
text_at key (field k v rest) =
    let later = text_at key rest in if str_eq k key then text_of v else later

-- The first of the separators that stands after the start cuts the command there.
cut_command : List String → String → String
cut_command [] cmd = cmd
cut_command (seg ∷ segs) cmd =
    let rest = cut_command segs cmd in
    elim (find? cmd seg) [ none ↦ rest | some i ↦ if i == 0 then rest else front i cmd ]

run_of : String → List String → String
run_of what [] = concat ("Run " ∷ what ∷ " command" ∷ [])
run_of what (arg ∷ args) = concat ("Run " ∷ what ∷ " " ∷ arg ∷ [])

first_words : ℕ → List String → List String
first_words n words = take (min n (length words)) words

describe : String → List String → String
unfolding run_of first_words
describe base args =
    if str_eq base "ls" || str_eq base "dir"
    then "Inspect directory contents"
    else if str_eq base "cat" || str_eq base "head" || str_eq base "tail"
    then "Inspect file contents"
    else if str_eq base "rg" || str_eq base "grep" || str_eq base "find"
    then "Search codebase for relevant entries"
    else if str_eq base "go"
    then run_of "go" args
    else if str_eq base "git"
    then run_of "git" args
    else if str_eq base "npm" || str_eq base "pnpm" || str_eq base "yarn"
    then run_of base args
    else if str_eq base "python" || str_eq base "python3"
    then "Run Python script"
    else concat ("Run command: " ∷ truncate (join " " (first_words 3 (base ∷ args))) 48 ∷ [])

describe_words : List String → String
unfolding describe
describe_words [] = "Run shell command"
describe_words (base ∷ args) = describe base args

unfoldable pub summarize_command_for_plan : String → String
unfolding cut_command describe_words
summarize_command_for_plan cmd =
    if str_eq (trim_space cmd) ""
    then "Run shell command"
    else describe_words (fields (cut_command (" && " ∷ " | " ∷ " ; " ∷ []) (trim_space cmd)))

module _ (base : String → String) where
  unfoldable pub shorten_plan_path : String → String
  shorten_plan_path p =
      let clean = trim_space p in
      if str_eq clean ""
      then "target file"
      else if str_eq (base clean) "." || str_eq (base clean) "/"
      then clean
      else base clean

  path_step : String → String → String → String
  path_step verb otherwise p =
      if str_eq p "" then otherwise else concat (verb ∷ " " ∷ shorten_plan_path p ∷ [])

  named_step : String → Fields → String
  unfolding path_step
  named_step name args =
      if str_eq name "exec"
      then summarize_command_for_plan (text_at "command" args)
      else if str_eq name "read_file"
      then path_step "Read" "Read required files" (text_at "path" args)
      else if str_eq name "write_file"
      then path_step "Write" "Write updated files" (text_at "path" args)
      else if str_eq name "list_dir"
      then path_step "List" "List directory contents" (text_at "path" args)
      else if str_eq name "web_search"
      then "Search the web for required context"
      else if str_eq name "web_fetch"
      then "Fetch and inspect referenced content"
      else if str_eq name "spawn" || str_eq name "subagent"
      then "Delegate a focused subtask"
      else concat ("Run " ∷ name ∷ [])

  unfoldable pub summarize_tool_call_for_plan : ToolCall → String
  unfolding named_step
  summarize_tool_call_for_plan tc =
      if str_eq (call_name tc) ""
      then "Execute required operation"
      else named_step (call_name tc) tc.arguments

  -- `seen` holds the steps kept so far.
  collect_bullets : List String → List ToolCall → List String
  collect_bullets seen [] = []
  collect_bullets seen (tc ∷ tcs) =
      let step = summarize_tool_call_for_plan tc in
      let skipped = collect_bullets seen tcs in
      let taken = step ∷ collect_bullets (step ∷ seen) tcs in
      if str_eq step "" || listed step seen then skipped else taken

  unfoldable pub build_execution_plan_bullets : List ToolCall → List String
  unfolding collect_bullets
  build_execution_plan_bullets tcs = collect_bullets [] tcs

-- "1. step", "2. step" and so on.
unfoldable pub numbered : ℕ → List String → List String
numbered i [] = []
numbered i (b ∷ bs) = concat (itoa (pos i) ∷ ". " ∷ b ∷ []) ∷ numbered (suc i) bs

unfoldable pub format_execution_plan_progress_with_artifact : List String → String → String
unfolding numbered
format_execution_plan_progress_with_artifact [] plan_path =
    "Execution plan:\n- (planner returned no steps)"
format_execution_plan_progress_with_artifact (b ∷ bs) plan_path =
    let note = "Note: plan may adapt if a step fails." ∷ [] in
    join "\n" (
      "Execution plan:"
      ∷ (numbered 1 (b ∷ bs)
          ++ (if str_eq plan_path ""
              then note
              else concat ("Plan file: `" ∷ plan_path ∷ "`" ∷ []) ∷ note)))

unfoldable pub format_plan_context_message : List String → String
unfolding numbered
format_plan_context_message bullets =
    join "\n" ("Execution plan locked for this turn:" ∷ numbered 1 bullets)

unfoldable pub format_plan_update_progress : String → String
format_plan_update_progress step = concat ("Plan update:\n- " ∷ step ∷ [])
