-- ===== src/Agent/Parsing.antt =====
-- pkg/agent/plan.go: the steps of a plan that a model has written.
use picoclaw.Prelude.{
  String, ◌≡◌, refl, Bool, true, false, ◌&&◌, ◌||◌, Option, none, some, List, [], ◌∷◌, str_eq, ltb,
  leb, ◌==◌, if◌then◌else◌,
}
use Prim.Native.Char.{Char, code}
use Prim.Native.String.{len}
use picoclaw.Prelude.Text.{is_space, trim_space, trim_left}
use picoclaw.Agent.Plan.{listed}
use picoclaw.Prelude.Strings.{contains, to_lower, lines_of, trim_of, front}

is_digit : Char → Bool
is_digit c = leb b'0' (code c) && leb (code c) b'9'

-- The rest after \s+, when there is at least one white space.
after_spaces : String → Option String
after_spaces String.[] = none
after_spaces (String.◌∷◌ c s) = if is_space c then some (trim_left s) else none

is_mark : Char → Bool
is_mark c = code c == b')' || code c == b'.' || code c == b'-' || code c == b':'

after_mark : String → Option String
unfolding after_spaces is_mark
after_mark String.[] = none
after_mark (String.◌∷◌ c s) = if is_mark c then after_spaces s else none

-- What follows the prefix ^\d+\s*[\).\-\:]\s+, given whether a digit has been read.
after_number : Bool → String → Option String
unfolding is_digit after_mark
after_number seen String.[] = none
after_number seen (String.◌∷◌ c s) =
    let more = after_number true s in
    if is_digit c then more else if seen then after_mark (trim_left (String.◌∷◌ c s)) else none

-- What follows the prefix ^[-*•]\s+.
after_bullet : String → Option String
unfolding after_spaces
after_bullet String.[] = none
after_bullet (String.◌∷◌ c s) =
    if code c == b'-' || code c == b'*' || code c == 8226 then after_spaces s else none

or_bullet : String → Option String → Option String
or_bullet v (some rest) = some rest
or_bullet v none = after_bullet v

is_decoration : Char → Bool
is_decoration c = code c == b'`' || code c == b'*' || code c == b'_'

-- A character that does not fit whole into the 120 bytes is dropped here, where Go keeps its first
-- bytes.
polished : String → String
unfolding is_decoration
polished rest =
    let v = trim_of is_decoration (trim_space rest) in
    if ltb 120 (len v) then trim_space (front 120 v) else v

is_heading : String → Bool
is_heading v =
    contains (to_lower v) "execution plan"
    || contains (to_lower v) "plan file:"
    || contains (to_lower v) "note:"

-- The step that a line holds, if it is one.
unfoldable pub plan_step : String → Option String
unfolding is_heading or_bullet after_number after_bullet polished
plan_step line =
    let v = trim_space line in
    if str_eq v "" || is_heading v then none else elim (or_bullet v (after_number false v)) [
      | none ↦ none
      | some rest ↦ (if str_eq (polished rest) "" then none else some (polished rest))
    ]

parse_lines : List String → List String → List String
parse_lines seen [] = []
parse_lines seen (line ∷ rest) = elim (plan_step line) [
  | none ↦ parse_lines seen rest
  | some v ↦
      (let key = to_lower v in
        let skipped = parse_lines seen rest in
        let taken = v ∷ parse_lines (key ∷ seen) rest in if listed key seen then skipped else taken)
]

unfoldable pub parse_execution_plan_bullets : String → List String
unfolding parse_lines
parse_execution_plan_bullets raw = parse_lines [] (lines_of raw)

parse_test :
    parse_execution_plan_bullets
      "Execution plan:\n1. Read `main.go`\n2) **Run tests**\n- run TESTS\nthen stop\n* Done"
    ≡ "Read `main.go" ∷ "Run tests" ∷ "Done" ∷ []
unfolding parse_execution_plan_bullets lines_of plan_step trim_space to_lower trim_of listed
parse_test = refl
