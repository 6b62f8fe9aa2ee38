-- ===== src/Tools/Shell/Guard.antt =====
-- What the guard of pkg/tools/shell.go stops, and what it lets pass.
use picoclaw.Prelude.{
  String, ◌≡◌, refl, ◌⊎◌, inl, inr, Bool, true, false, some, List, ◌∷◌, arith, str_eq,
  if◌then◌else◌, any,
}
use picoclaw.Prelude.Text.{trim_space}
use picoclaw.Prelude.Strings.{contains, to_lower}
use picoclaw.Llm.{Fields, field, no_fields, text}
use picoclaw.Tools.{error_result}
use picoclaw.Tools.MessageTool.{string_arg}
use picoclaw.Tools.Shell.{
  ShellHost, ExecTool, leaves_dir, guard_command, directory, execute, guarded, run_with,
  matches_any, paths_guard,
}

-- The order of the tests of the guard, over their outcomes.
refused :
    (deny off free climb : Bool) (rest : String)
    → (deny ≡ true)
      ⊎ ((off ≡ true) ⊎ ((free ≡ false) × ((climb ≡ true) ⊎ (str_eq rest "" ≡ false))))
    → str_eq
        (if deny
          then "Command blocked by safety guard (dangerous pattern detected)"
          else if off
          then "Command blocked by safety guard (not in allowlist)"
          else if free
          then ""
          else if climb
          then "Command blocked by safety guard (path traversal detected)"
          else rest)
        ""
      ≡ false
refused true off free climb rest h = refl
refused false true free climb rest h = refl
refused false false true climb rest h = ground arith
refused false false false true rest h = refl
refused false false false false rest h = ground arith

-- The arguments of a call that names its directory.
abbrev pub call_in : String → String → Fields
call_in dir command = field "command" (text command) (field "working_dir" (text dir) no_fields)

module _ {R W : Type 0} (h : ShellHost R W) where
  -- A reason to stop a command: a deny pattern, an allow list without it, or, for a restricted tool, a
  -- step to a parent directory or a path that leads out of the directory.
  pub data IsForbidden (t : ExecTool R) (command cwd : String) : Type 0 where
    denied :
        any (λ r. h.matches r (to_lower (trim_space command))) t.deny_patterns ≡ true
        → IsForbidden t command cwd
    not_allowed :
        (r : R) (rs : List R)
        → t.allow_patterns ≡ r ∷ rs
        → any (λ p. h.matches p (to_lower (trim_space command))) t.allow_patterns ≡ false
        → IsForbidden t command cwd
    climbs :
        t.restrict_to_workspace ≡ true
        → contains (trim_space command) "../" ≡ true
        → IsForbidden t command cwd
    leaves :
        (root : String)
        → t.restrict_to_workspace ≡ true
        → h.abs cwd ≡ some root
        → any (leaves_dir h root) (h.path_matches (trim_space command)) ≡ true
        → IsForbidden t command cwd

  guard_command-IsForbidden :
      (t : ExecTool R) (command cwd : String)
      → IsForbidden t command cwd
      → str_eq (guard_command h t command cwd) "" ≡ false
  unfolding guard_command matches_any paths_guard
  guard_command-IsForbidden t command cwd (denied d) =
      refused _ _ _ _ (paths_guard h (h.abs cwd) (trim_space command)) (inl d)
  guard_command-IsForbidden t command cwd (not_allowed r rs e d) =
      refused _ _ _ _ (paths_guard h (h.abs cwd) (trim_space command))
        (inr (inl (rw (d, e) (ground arith))))
  guard_command-IsForbidden t command cwd (climbs r d) =
      refused _ _ _ _ (paths_guard h (h.abs cwd) (trim_space command))
        (inr (inr (rw r refl, inl (rw d (ground arith)))))
  guard_command-IsForbidden t command cwd (leaves root r a d) =
      refused _ _ _ _ (paths_guard h (h.abs cwd) (trim_space command))
        (inr (inr (rw r refl, inr (rw (a, d) refl))))

  -- A command that is forbidden in its directory is not run: the world stays as it is, and the result is
  -- an error.
  pub execute-IsForbidden :
      (t : ExecTool R) (args : Fields) (command : String) (w : W)
      → string_arg "command" args ≡ some command
      → IsForbidden t command (directory h t args)
      → ((execute h t args w).0 ≡ w) × ((execute h t args w).1.is_error ≡ true)
  unfolding execute error_result run_with guarded
  execute-IsForbidden t args command w given bad =
      ground (arith, guard_command-IsForbidden t command (directory h t args) bad)
