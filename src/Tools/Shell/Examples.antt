-- ===== src/Tools/Shell/Examples.antt =====
-- The theorems about the shell tool at concrete commands. A pattern is a text that a command must not
-- contain, and the world lists the directories and commands that were run.
use picoclaw.Prelude.{String, ◌≡◌, refl, true, false, none, some, List, [], ◌∷◌, ◌++◌}
use picoclaw.Prelude.Int.{pos}
use picoclaw.Prelude.Text.{trim_space}
use picoclaw.Prelude.Strings.{contains, to_lower}
use picoclaw.Llm.{Fields, field, no_fields, text}
use picoclaw.Tools.MessageTool.{string_arg}
use picoclaw.Tools.Shell.{ShellHost, ExecTool, execute}
use picoclaw.Tools.Shell.Guard.{denied, execute-IsForbidden}

abbrev host : ShellHost String (List (String × String))
host = record {
  compile = λ p. some p;
  matches = λ p s. contains s p;
  path_matches = λ s. [];
  abs = λ p. some p;
  rel = λ base p. some p;
  getwd = none;
  duration_text = λ t. "1m0s";
  run_command = λ t dir command w. (
    w ++ (dir, command) ∷ [],
    record { stdout = ""; stderr = ""; err = none; timed_out = false },
  );
}

abbrev tool : ExecTool String
tool = record {
  working_dir = "/home/me/workspace";
  timeout = pos 60000000000;
  deny_patterns = "shutdown" ∷ [];
  allow_patterns = [];
  restrict_to_workspace = true;
}

abbrev halt : Fields
halt = field "command" (text " ShutDown now") no_fields

execute-IsForbidden_example :
    ((execute host tool halt []).0 ≡ []) × ((execute host tool halt []).1.is_error ≡ true)
unfolding string_arg trim_space to_lower
execute-IsForbidden_example =
    execute-IsForbidden host tool halt " ShutDown now" [] refl (denied refl)
