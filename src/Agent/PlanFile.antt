-- ===== src/Agent/PlanFile.antt =====
-- The file of a plan: slugifyPlanTitle and writeExecutionPlanFile of pkg/agent/plan.go. What the
-- operating system answers to the write is a `PlanIo`.
use picoclaw.Prelude.{
  String, ◌≡◌, refl, Bool, true, false, ◌&&◌, ◌||◌, Option, none, some, List, [], ◌∷◌, ◌++◌, str_eq,
  ltb, leb, ◌==◌, if◌then◌else◌,
}
use Prim.Native.Char.{Char, code}
use Prim.Native.String.{len}
use picoclaw.Prelude.Text.{concat, trim_space}
use picoclaw.Prelude.Strings.{to_lower, join, trim_of, front}
use picoclaw.Agent.Plan.{numbered}

pub record PlanFileMetadata : Type 0 where
  pub session_key : String
  pub correlation_id : String
  pub model : String

is_slug_char : Char → Bool
is_slug_char c = leb b'a' (code c) && leb (code c) b'z' || leb b'0' (code c) && leb (code c) b'9'

is_dash : Char → Bool
is_dash c = code c == b'-'

-- Each run of other characters becomes one dash; `open_run` says that one has just begun.
dashed : Bool → String → String
unfolding is_slug_char
dashed open_run String.[] = String.[]
dashed open_run (String.◌∷◌ c s) =
    let kept = String.◌∷◌ c (dashed false s) in
    let inside = dashed true s in
    if is_slug_char c then kept else if open_run then inside else String.◌∷◌ "-" inside

or_task : String → String
or_task s = if str_eq s "" then "task" else s

unfoldable pub slugify_plan_title : String → String
unfolding dashed is_dash or_task
slugify_plan_title v =
    let s = trim_of is_dash (dashed false (to_lower (trim_space v))) in
    if str_eq s ""
    then "task"
    else or_task (if ltb 48 (len s) then trim_of is_dash (front 48 s) else s)

unfoldable pub first_non_empty_plan_step : List String → String
first_non_empty_plan_step [] = ""
first_non_empty_plan_step (b ∷ bs) =
    let later = first_non_empty_plan_step bs in if str_eq (trim_space b) "" then later else b

-- The clock's two texts of the present, the verb %q and filepath.Join.
pub record PlanTexts : Type 0 where
  pub stamp : String
  pub rfc3339 : String
  pub quote : String → String
  pub join_path : String → String → String

unfoldable pub plan_content : PlanTexts → List String → PlanFileMetadata → String
plan_content t bullets meta = concat (
    join "\n" (
      "---"
      ∷ concat ("session_key: " ∷ t.quote meta.session_key ∷ [])
      ∷ concat ("correlation_id: " ∷ t.quote meta.correlation_id ∷ [])
      ∷ concat ("model: " ∷ t.quote meta.model ∷ [])
      ∷ concat ("created_at_utc: " ∷ t.quote t.rfc3339 ∷ [])
      ∷ "plan_mode: true"
      ∷ "---"
      ∷ ""
      ∷ "# Execution Plan"
      ∷ ""
      ∷ (numbered 1 bullets ++ "" ∷ "_Note: plan may adapt if a step fails._" ∷ []))
    ∷ "\n"
    ∷ [])

unfoldable pub plan_path : PlanTexts → String → List String → String
unfolding or_task
plan_path t workspace bullets =
    let base = trim_space (first_non_empty_plan_step bullets) in
    t.join_path (t.join_path workspace "plans")
      (concat (t.stamp ∷ "_" ∷ slugify_plan_title (or_task base) ∷ ".md" ∷ []))

-- The directory, the temporary file and the rename succeed or not.
pub record PlanIo : Type 0 where
  pub mkdir_ok : Bool
  pub write_ok : Bool
  pub rename_ok : Bool

-- The path and the text of the file that is there afterwards, or the error.
unfoldable pub write_execution_plan_file :
    PlanIo → PlanTexts → String → List String → PlanFileMetadata → Option (String × String)
write_execution_plan_file io t workspace bullets meta =
    if io.mkdir_ok && io.write_ok && io.rename_ok
    then some (plan_path t workspace bullets, plan_content t bullets meta)
    else none

slug_test : slugify_plan_title " Read: the main.go! " ≡ "read-the-main-go"
unfolding slugify_plan_title trim_of to_lower trim_space
slug_test = refl
