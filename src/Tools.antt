-- ===== src/Tools.antt =====
-- pkg/tools/base.go, result.go and registry.go: tools, their results and the registry that runs them. A
-- tool acts on a world `W`, which holds what it and the language model may change, and an asynchronous
-- one is given a callback of the type `Callback`.
pub mod Loop
pub mod Runs
pub mod Pairing
pub mod MessageTool
pub mod Files
pub mod Paths
pub mod Guards
pub mod Subtask
pub mod Subagent
pub mod Subtasks
pub mod Shell
mod Examples
use picoclaw.Prelude.{
  ℕ, ◌-◌, String, Bool, true, false, not, ◌&&◌, Option, none, some, List, [], ◌∷◌, map, str_eq,
  if◌then◌else◌, length,
}
use picoclaw.Prelude.Dict.{Dict, get, put}
use picoclaw.Prelude.Text.{concat}
use picoclaw.Llm.{Fields, ToolDefinition}

pub record ToolResult : Type 0 where
  pub for_llm : String
  pub for_user : String
  pub silent : Bool
  pub is_error : Bool
  pub async : Bool
  pub err : Option String

unfoldable pub new_tool_result : String → ToolResult
new_tool_result for_llm = record {
  for_llm = for_llm;
  for_user = "";
  silent = false;
  is_error = false;
  async = false;
  err = none;
}

unfoldable pub silent_result : String → ToolResult
unfolding new_tool_result
silent_result for_llm = record (new_tool_result for_llm) { silent = true }

unfoldable pub async_result : String → ToolResult
unfolding new_tool_result
async_result for_llm = record (new_tool_result for_llm) { async = true }

unfoldable pub error_result : String → ToolResult
unfolding new_tool_result
error_result message = record (new_tool_result message) { is_error = true }

unfoldable pub user_result : String → ToolResult
unfolding new_tool_result
user_result content = record (new_tool_result content) { for_user = content }

unfoldable pub with_error : Option String → ToolResult → ToolResult
with_error err tr = record tr { err = err }

-- A tool with the optional interfaces ContextualTool and AsyncTool.
pub record Tool (W Callback : Type 0) : Type 0 where
  pub name : String
  pub description : String
  pub parameters : Fields
  pub set_context : Option (String → String → W → W)
  pub set_callback : Option (Callback → W → W)
  pub execute : Fields → W → W × ToolResult

-- The order of the entries of Go's map is open: no theorem depends on it.
abbrev pub ToolRegistry : Type 0 → Type 0 → Type 0
ToolRegistry W Callback = Dict (Tool W Callback)

give_context : {W : Type 0} → Option (String → String → W → W) → String → String → W → W
give_context none channel chat_id w = w
give_context (some set) channel chat_id w =
    if not (str_eq channel "") && not (str_eq chat_id "") then set channel chat_id w else w

module _ {W Callback : Type 0} where
  abbrev pub new_tool_registry : ToolRegistry W Callback
  new_tool_registry = []

  unfoldable pub register : Tool W Callback → ToolRegistry W Callback → ToolRegistry W Callback
  register tool r = put r tool.name tool

  unfoldable pub tool_schema : Tool W Callback → ToolDefinition
  tool_schema tool = record {
    type = "function";
    name = tool.name;
    description = tool.description;
    parameters = tool.parameters;
  }

  unfoldable pub to_provider_defs : ToolRegistry W Callback → List ToolDefinition
  to_provider_defs r = map (λ entry. tool_schema entry.1) r

  unfoldable pub list : ToolRegistry W Callback → List String
  list r = map (λ entry. entry.0) r

  unfoldable pub count : ToolRegistry W Callback → ℕ
  count r = length r

  unfoldable pub get_summaries : ToolRegistry W Callback → List String
  get_summaries r =
      map (λ entry. concat ("- `" ∷ entry.1.name ∷ "` - " ∷ entry.1.description ∷ [])) r

  give_callback : Option (Callback → W → W) → Option Callback → W → W
  give_callback none cb w = w
  give_callback (some set) none w = w
  give_callback (some set) (some cb) w = set cb w

  unfoldable pub run_tool :
      Tool W Callback → Fields → String → String → Option Callback → W → W × ToolResult
  unfolding give_context give_callback
  run_tool tool args channel chat_id cb w =
      tool.execute args
        (give_callback tool.set_callback cb (give_context tool.set_context channel chat_id w))

  -- `quote` is the verb %q.
  unfoldable pub execute_with_context :
      (String → String)
      → ToolRegistry W Callback
      → String
      → Fields
      → String
      → String
      → Option Callback
      → W
      → W × ToolResult
  unfolding run_tool
  execute_with_context quote r name args channel chat_id cb w = elim (get r name) [
    | none ↦ (
      w,
      with_error (some "tool not found")
          (error_result (concat ("tool " ∷ quote name ∷ " not found" ∷ []))),
    )
    | some tool ↦ run_tool tool args channel chat_id cb w
  ]

  unfoldable pub execute :
      (String → String) → ToolRegistry W Callback → String → Fields → W → W × ToolResult
  execute quote r name args w = execute_with_context quote r name args "" "" none w
