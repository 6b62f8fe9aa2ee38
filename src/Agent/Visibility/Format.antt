-- ===== src/Agent/Visibility/Format.antt =====
-- pkg/agent/visibility.go: the actions of a turn and the text of a summary of them.
use picoclaw.Prelude.{
  ℕ, ◌-◌, String, Bool, true, false, not, ◌&&◌, ◌||◌, Option, none, some, List, [], ◌∷◌, ◌++◌,
  str_eq, leb, ◌==◌, if◌then◌else◌, length, keep,
}
use Prim.Native.String.{len}
use picoclaw.Prelude.Int.{ℤ, pos}
use picoclaw.Prelude.Text.{concat, itoa}
use picoclaw.Prelude.Strings.{front, back}
use picoclaw.Llm.{Fields}
use picoclaw.Utils.{truncate}
use picoclaw.Tools.MessageTool.{string_arg}
use picoclaw.Agent.Visibility.Commands.{shorten_path, summarize_command}

pub data ActionStatus : Type 0 where
  action_running action_success action_error action_skipped : ActionStatus

pub data ActionType : Type 0 where
  exec_action web_action file_action message_action subagent_action internal_action : ActionType

pub record Action : Type 0 where
  pub id : String
  pub tool_name : String
  pub args : Fields
  pub type : ActionType
  pub status : ActionStatus
  pub start_time : ℤ
  pub end_time : ℤ
  pub duration : ℤ
  pub result : String
  pub full_result : String
  pub error : String

pub record VisibilityConfig : Type 0 where
  pub verbose_mode : Bool
  pub update_interval_ms : ℤ

pub record ActionStream : Type 0 where
  pub actions : List Action
  pub config : VisibilityConfig
  pub last_update_time : ℤ

-- Both tests for internal operations of the source give the same type.
unfoldable pub classify_action : String → ActionType
classify_action tool_name =
    if str_eq tool_name "exec"
    then exec_action
    else if str_eq tool_name "web_search"
        || str_eq tool_name "brave_search"
        || str_eq tool_name "duckduckgo_search"
    then web_action
    else if str_eq tool_name "read_file"
        || str_eq tool_name "write_file"
        || str_eq tool_name "list_files"
        || str_eq tool_name "delete_file"
    then file_action
    else if str_eq tool_name "message"
    then message_action
    else if str_eq tool_name "spawn"
    then subagent_action
    else internal_action

unfoldable pub new_action_stream : VisibilityConfig → ℤ → ActionStream
new_action_stream config now = record { actions = []; config = config; last_update_time = now }

limit_of : ActionType → ℕ
limit_of exec_action = 800
limit_of file_action = 500
limit_of web_action = 600
limit_of message_action = 400
limit_of subagent_action = 400
limit_of internal_action = 400

is_file : ActionType → Bool
is_file file_action = true
is_file exec_action = false
is_file web_action = false
is_file message_action = false
is_file subagent_action = false
is_file internal_action = false

-- The head and the tail of a file are cut by bytes; a cut inside a character is not modelled apart.
unfoldable pub truncate_result : String → ActionType → String
unfolding limit_of is_file
truncate_result result type =
    if leb (len result) (limit_of type)
    then result
    else if is_file type
    then concat (
        front 250 result
        ∷ "\n... ["
        ∷ itoa (pos (len result - 480))
        ∷ " chars omitted] ...\n"
        ∷ back (len result - 230) result
        ∷ [])
    else truncate result (limit_of type)

named : String → Option String → String → String
named what none other = other
named what (some s) other = concat (what ∷ s ∷ [])

shortened : (String → String) → Option String → Option String
shortened f none = none
shortened f (some s) = some (f s)

unfoldable pub format_action_name : Action → String
unfolding named shortened
format_action_name a =
    if str_eq a.tool_name "exec"
    then summarize_command (string_arg "command" a.args)
    else if str_eq a.tool_name "web_search"
    then named "Searching: " (shortened (λ q. truncate q 30) (string_arg "query" a.args))
        "Searching the web"
    else if str_eq a.tool_name "read_file"
    then named "Reading " (shortened shorten_path (string_arg "path" a.args)) "Reading a file"
    else if str_eq a.tool_name "write_file"
    then named "Writing " (shortened shorten_path (string_arg "path" a.args)) "Writing a file"
    else if str_eq a.tool_name "list_files"
    then named "Listing " (shortened shorten_path (string_arg "path" a.args)) "Listing files"
    else if str_eq a.tool_name "spawn"
    then named "Subagent: " (shortened (λ t. truncate t 30) (string_arg "task" a.args))
        "Running subagent"
    else if str_eq a.tool_name "message"
    then "Sending message"
    else concat ("Running " ∷ a.tool_name ∷ [])

abbrev pub is_running : Action → Bool
is_running a = elim a.status [
  | action_running ↦ true
  | action_success ↦ false
  | action_error ↦ false
  | action_skipped ↦ false
]

abbrev pub is_errored : Action → Bool
is_errored a = elim a.status [
  | action_running ↦ false
  | action_success ↦ false
  | action_error ↦ true
  | action_skipped ↦ false
]

abbrev pub is_completed : Action → Bool
is_completed a = not (is_running a || is_errored a)

error_lines : List Action → List String
error_lines [] = []
error_lines (a ∷ as') =
    concat ("✗ " ∷ format_action_name a ∷ ": " ∷ truncate a.error 60 ∷ "\n" ∷ []) ∷ error_lines as'

running_lines : List Action → List String
running_lines [] = []
running_lines (a ∷ as') = concat ("⏳ " ∷ format_action_name a ∷ "\n" ∷ []) ∷ running_lines as'

plural_s : ℕ → String
plural_s n = if n == 1 then "" else "s"

count_lines : ℕ → List String
unfolding plural_s
count_lines n =
    if n == 0 then [] else concat ("✓ " ∷ itoa (pos n) ∷ " step" ∷ plural_s n ∷ " done\n" ∷ []) ∷ []

unfoldable pub format_summary : ActionStream → String
unfolding count_lines error_lines running_lines
format_summary s =
    let completed = keep is_completed s.actions in
    let errored = keep is_errored s.actions in
    let running = keep is_running s.actions in
    if length s.actions == 0
    then "Thinking... 💭"
    else concat (
        count_lines (length completed)
        ++ (error_lines errored
            ++ (running_lines running
                ++ (if length running == 0 && length errored == 0
                    then "Finishing up... 🔧\n" ∷ []
                    else []))))
