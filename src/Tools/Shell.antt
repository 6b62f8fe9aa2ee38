-- ===== src/Tools/Shell.antt =====
-- pkg/tools/shell.go: the tool that runs shell commands, with its guard. The package regexp, the paths of
-- path/filepath and the operating system are a `ShellHost`.
pub mod Guard
mod Examples
use picoclaw.Prelude.{
  ◌+◌, ◌-◌, ◌/◌, String, Bool, true, false, not, ◌&&◌, ◌||◌, Option, none, some, List, [], ◌∷◌,
  ◌++◌, str_eq, ltb, if◌then◌else◌, is_some, length, any,
}
use Prim.Native.String.{len, ◌++◌ as append}
use picoclaw.Prelude.Int.{ℤ, pos}
use picoclaw.Prelude.Text.{concat, itoa, trim_space}
use picoclaw.Prelude.Strings.{contains, front, to_lower}
use package.text.Mathlib.Text.{starts_with}
use picoclaw.Llm.{Fields}
use picoclaw.Tools.{ToolResult, new_tool_result, error_result}
use picoclaw.Tools.MessageTool.{string_arg}

-- What a command leaves behind: its output, its error and whether the time limit ended it.
pub record Finished : Type 0 where
  pub stdout : String
  pub stderr : String
  pub err : Option String
  pub timed_out : Bool

-- `R` is the type of compiled regular expressions. The path operations give `none` for an error, and
-- `path_matches` is FindAllString of the pattern for absolute paths.
pub record ShellHost (R W : Type 0) : Type 0 where
  pub compile : String → Option R
  pub matches : R → String → Bool
  pub path_matches : String → List String
  pub abs : String → Option String
  pub rel : String → String → Option String
  pub getwd : Option String
  pub duration_text : ℤ → String
  pub run_command : ℤ → String → String → W → W × Finished

-- `timeout` is in nanoseconds.
pub record ExecTool (R : Type 0) : Type 0 where
  pub working_dir : String
  pub timeout : ℤ
  pub deny_patterns : List R
  pub allow_patterns : List R
  pub restrict_to_workspace : Bool

or_default : Option String → String → String
or_default none default = default
or_default (some s) default = if str_eq s "" then default else s

or_found : Option String → String
or_found none = ""
or_found (some s) = s

module _ {R W : Type 0} (h : ShellHost R W) where
  -- The eight patterns are compiled by MustCompile, which panics where `compile` gives an error.
  unfoldable pub new_exec_tool : List R → String → Bool → ExecTool R
  new_exec_tool deny working_dir restrict = record {
    working_dir = working_dir;
    timeout = pos 60000000000;
    deny_patterns = deny;
    allow_patterns = [];
    restrict_to_workspace = restrict;
  }

  matches_any : List R → String → Bool
  matches_any rs s = any (λ r. h.matches r s) rs

  -- One path of a command: an error of Abs or Rel lets it pass.
  unfoldable pub leaves_dir : String → String → Bool
  leaves_dir cwd raw = elim (h.abs raw) [
    | none ↦ false
    | some p ↦ elim (h.rel cwd p) [ none ↦ false | some r ↦ starts_with r ".." ]
  ]

  paths_guard : Option String → String → String
  unfolding leaves_dir
  paths_guard none cmd = ""
  paths_guard (some cwd) cmd =
      if any (leaves_dir cwd) (h.path_matches cmd)
      then "Command blocked by safety guard (path outside working dir)"
      else ""

  -- The reason to refuse a command, or nothing.
  unfoldable pub guard_command : ExecTool R → String → String → String
  unfolding matches_any paths_guard
  guard_command t command cwd =
      let cmd = trim_space command in
      let lower = to_lower cmd in
      if matches_any t.deny_patterns lower
      then "Command blocked by safety guard (dangerous pattern detected)"
      else if ltb 0 (length t.allow_patterns) && not (matches_any t.allow_patterns lower)
      then "Command blocked by safety guard (not in allowlist)"
      else if not t.restrict_to_workspace
      then ""
      else if contains cmd "..\\" || contains cmd "../"
      then "Command blocked by safety guard (path traversal detected)"
      else paths_guard (h.abs cwd) cmd

  with_exit : Option String → String → String
  with_exit none output = output
  with_exit (some e) output = append output (concat ("\nExit code: " ∷ e ∷ []))

  -- A cut at 10,000 bytes. One that falls inside a character is not modelled apart.
  shortened : String → String
  shortened output =
      if ltb 10000 (len output)
      then concat (
          front 10000 output
          ∷ "\n... (truncated, "
          ∷ itoa (pos (len output - 10000))
          ∷ " more chars)"
          ∷ [])
      else output

  shown : String → Bool → ToolResult
  shown text failed = record (new_tool_result text) { for_user = text; is_error = failed }

  unfoldable pub report : ExecTool R → Finished → ToolResult
  unfolding with_exit shortened shown
  report t f =
      let output =
        if ltb 0 (len f.stderr)
        then concat (f.stdout ∷ "\nSTDERR:\n" ∷ f.stderr ∷ [])
        else f.stdout in
      let ended = with_exit f.err output in
      if is_some f.err && f.timed_out
      then shown (concat ("Command timed out after " ∷ h.duration_text t.timeout ∷ [])) true
      else shown (shortened (if str_eq ended "" then "(no output)" else ended)) (is_some f.err)

  unfoldable pub directory : ExecTool R → Fields → String
  unfolding or_default or_found
  directory t args =
      let cwd = or_default (string_arg "working_dir" args) t.working_dir in
      if str_eq cwd "" then or_found h.getwd else cwd

  guarded : ExecTool R → String → String → W → W × ToolResult
  guarded t command cwd w =
      let refusal = guard_command t command cwd in
      let (w', f) = h.run_command t.timeout cwd command w in
      if str_eq refusal "" then (w', report t f) else (w, error_result refusal)

  run_with : ExecTool R → Option String → String → W → W × ToolResult
  unfolding guarded
  run_with t none cwd w = (w, error_result "command is required")
  run_with t (some command) cwd w = guarded t command cwd w

  unfoldable pub execute : ExecTool R → Fields → W → W × ToolResult
  unfolding run_with
  execute t args w = run_with t (string_arg "command" args) (directory t args) w

  compiled : List String → List R → List R × Option String
  compiled [] rs = (rs, none)
  compiled (p ∷ ps) rs = elim (h.compile p) [
    | none ↦ (rs, some p)
    | some r ↦ compiled ps (rs ++ r ∷ [])
  ]

  -- The patterns before one that does not compile are kept; the text of the error is left out.
  unfoldable pub set_allow_patterns : List String → ExecTool R → ExecTool R × Option String
  unfolding compiled
  set_allow_patterns patterns t =
      let (rs, e) = compiled patterns [] in (record t { allow_patterns = rs }, e)

unfoldable pub set_timeout : {R : Type 0} → ℤ → ExecTool R → ExecTool R
set_timeout timeout t = record t { timeout = timeout }

unfoldable pub set_restrict_to_workspace : {R : Type 0} → Bool → ExecTool R → ExecTool R
set_restrict_to_workspace restrict t = record t { restrict_to_workspace = restrict }
