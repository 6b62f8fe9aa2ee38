-- ===== src/Agent/Visibility/Commands.antt =====
-- The short description of a shell command: summarizeCommand and shortenPath of pkg/agent/visibility.go.
-- A command under sudo is described by what follows, so the function takes fuel; Commands/Sudo
-- shows how much is enough.
pub mod Sudo
use picoclaw.Prelude.{
  ℕ, zero, suc, ◌-◌, ◌/◌, String, Bool, ◌&&◌, Option, none, some, List, [], ◌∷◌, str_eq, ◌==◌,
  if◌then◌else◌, take, drop, any,
}
use Prim.Native.Char.{Char, code}
use package.text.Mathlib.Text.{starts_with}
use picoclaw.Prelude.Text.{concat, trim_space}
use picoclaw.Prelude.Strings.{fields, join, text_size}
use picoclaw.Utils.{truncate}

-- The text after the last "/", if there is one.
after_last : String → Option String
after_last String.[] = none
after_last (String.◌∷◌ c s) = elim (after_last s) [
  | some t ↦ some t
  | none ↦ if code c == b'/' then some s else none
]

after_slash : Option String → String → String
after_slash none path = path
after_slash (some t) path = if str_eq t "" then path else t

unfoldable pub shorten_path : String → String
unfolding after_last after_slash
shorten_path path = after_slash (after_last path) path

longer : Char → Option String → Option String
longer c none = none
longer c (some s) = some (String.◌∷◌ c s)

-- The text before the first `sep`.
unfoldable pub before : String → String → Option String
unfolding longer
before sep String.[] = none
before sep (String.◌∷◌ c s) =
    let later = longer c (before sep s) in
    if starts_with (String.◌∷◌ c s) sep then some String.[] else later

-- A separator at the very beginning does not count.
cut_or : Option String → String → String
cut_or none other = other
cut_or (some t) other = if str_eq t "" then other else t

unfoldable pub first_part : String → String
unfolding before cut_or
first_part cmd =
    cut_or (before " | " cmd) (cut_or (before " && " cmd) (cut_or (before " ; " cmd) cmd))

with_first : String → List String → String → String
with_first what [] other = other
with_first what (a ∷ args) other = concat (what ∷ a ∷ [])

last_of : String → List String → String
last_of a [] = a
last_of a (b ∷ bs) = last_of b bs

with_last_path : String → List String → String → String
unfolding last_of
with_last_path what [] other = other
with_last_path what (a ∷ args) other = concat (what ∷ shorten_path (last_of a args) ∷ [])

with_path : String → List String → String → String
with_path what [] other = other
with_path what (a ∷ args) other = concat (what ∷ shorten_path a ∷ [])

abbrev is_one_of : String → List String → Bool
is_one_of s names = any (str_eq s) names

-- The description of a command that is not sudo, by its name and its arguments.
describe : String → List String → String
unfolding with_first with_last_path with_path
describe base args =
    if is_one_of base ("ls" ∷ "dir" ∷ [])
    then "Listing directory contents"
    else if str_eq base "cd"
    then with_path "Changing to " args "Changing directory"
    else if is_one_of base ("cat" ∷ "head" ∷ "tail" ∷ "less" ∷ [])
    then with_last_path "Reading " args "Reading file contents"
    else if str_eq base "mkdir"
    then "Creating directory"
    else if str_eq base "rm"
    then "Removing files"
    else if str_eq base "cp"
    then "Copying files"
    else if str_eq base "mv"
    then "Moving files"
    else if str_eq base "git"
    then with_first "Git " args "Running git"
    else if is_one_of base ("pip" ∷ "pip3" ∷ [])
    then with_first "Pip " args "Running pip"
    else if is_one_of base ("npm" ∷ "yarn" ∷ "pnpm" ∷ [])
    then with_first (concat (base ∷ " " ∷ [])) args (concat ("Running " ∷ base ∷ []))
    else if str_eq base "make"
    then with_first "Make " args "Running make"
    else if str_eq base "docker"
    then with_first "Docker " args "Running docker"
    else if is_one_of base ("curl" ∷ "wget" ∷ [])
    then "Fetching URL"
    else if is_one_of base ("grep" ∷ "rg" ∷ "ag" ∷ [])
    then "Searching file contents"
    else if str_eq base "find"
    then "Finding files"
    else if is_one_of base ("python" ∷ "python3" ∷ [])
    then with_path "Running " args "Running Python script"
    else if str_eq base "go"
    then with_first "Go " args "Running go"
    else if is_one_of base ("apt" ∷ "apt-get" ∷ [])
    then with_first "Apt " args "Running apt"
    else concat ("Running: " ∷ truncate (join " " (take 3 (base ∷ args))) 35 ∷ [])

unfoldable pub described : List String → String → String
unfolding describe
described [] deeper = "Running command"
described (base ∷ args) deeper = if str_eq base "sudo" then deeper else describe base args

unfoldable pub summarize : ℕ → Option String → String
unfolding described
summarize zero command = "Running command"
summarize (suc fuel) none = "Running command"
summarize (suc fuel) (some command) =
    let parts = fields (first_part (trim_space command)) in
    let deeper = summarize fuel (some (join " " (drop 1 parts))) in
    if str_eq command "" then "Running command" else described parts deeper

size_of : Option String → ℕ
size_of none = 0
size_of (some s) = text_size s

-- The fuel is one more than the number of characters.
unfoldable pub summarize_command : Option String → String
unfolding summarize size_of
summarize_command command = summarize (suc (size_of command)) command
