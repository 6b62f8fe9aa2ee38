-- ===== src/Tools/Loop.antt =====
-- pkg/tools/toolloop.go: the loop of calls to the language model and to the tools it asks for. `Chat` is
-- the provider, `marshal` is json.Marshal of arguments as a text.
use picoclaw.Prelude.{
  ℕ, zero, suc, String, Option, none, some, List, [], ◌∷◌, ◌++◌, map, str_eq, if◌then◌else◌,
}
use picoclaw.Prelude.Int.{ℤ, pos_part}
use picoclaw.Prelude.Text.{concat}
use picoclaw.Llm.{number, Fields, no_fields, field, ToolCall, Message, LlmResponse, ToolDefinition}
use picoclaw.Tools.{ToolResult, error_result, ToolRegistry, to_provider_defs, execute_with_context}

-- The answer of a provider: a response, or the text of an error.
pub data Answer : Type 0 where
  responded : LlmResponse → Answer
  refused : String → Answer

abbrev pub Chat : Type 0 → Type 0
Chat W = List Message → List ToolDefinition → String → Fields → W → W × Answer

pub record ToolLoopConfig (W Callback : Type 0) : Type 0 where
  pub provider : Chat W
  pub model : String
  pub tools : Option (ToolRegistry W Callback)
  pub max_iterations : ℤ
  pub llm_options : Option Fields

pub record ToolLoopResult : Type 0 where
  pub content : String
  pub iterations : ℕ

abbrev pub default_options : Fields
default_options = field "max_tokens" (number "4096") (field "temperature" (number "0.7") no_fields)

unfoldable pub options_or_default : Option Fields → Fields
options_or_default none = default_options
options_or_default (some options) = options

-- A tool call as the assistant's message repeats it.
unfoldable pub repeated_call : (Fields → String) → ToolCall → ToolCall
repeated_call marshal tc = record {
  id = tc.id;
  type = "function";
  function = some (record { name = tc.name; arguments = marshal tc.arguments });
  name = "";
  arguments = no_fields;
}

unfoldable pub assistant_message : (Fields → String) → LlmResponse → Message
assistant_message marshal response = record {
  role = "assistant";
  content = response.content;
  tool_calls = map (repeated_call marshal) response.tool_calls;
  tool_call_id = "";
  media = [];
}

or_error : Option String → String
or_error none = ""
or_error (some e) = e

unfoldable pub content_for_llm : ToolResult → String
unfolding or_error
content_for_llm tr = if str_eq tr.for_llm "" then or_error tr.err else tr.for_llm

unfoldable pub tool_message : String → ToolResult → Message
tool_message id tr = record {
  role = "tool";
  content = content_for_llm tr;
  tool_calls = [];
  tool_call_id = id;
  media = [];
}

-- How the loop ends: by the provider's error, or with the content and the messages it has come to.
pub data Outcome (W : Type 0) : Type 0 where
  failed : W → String → Outcome W
  finished : W → String → List Message → ℕ → Outcome W

-- What one iteration comes to: an error, the model's last word, or more messages.
pub data Turn (W : Type 0) : Type 0 where
  breaks_off : W → String → Turn W
  answers : W → String → Turn W
  goes_on : W → List Message → Turn W

module _ {W : Type 0} where
  unfoldable pub result_of : Outcome W → W × Option ToolLoopResult
  result_of (failed w e) = (w, none)
  result_of (finished w content messages iteration) =
      (w, some (record { content = content; iterations = iteration }))

  unfoldable pub next_turn : (List Message → W → Outcome W) → List Message → ℕ → Turn W → Outcome W
  next_turn continue messages iteration (breaks_off w e) = failed w e
  next_turn continue messages iteration (answers w content) = finished w content messages iteration
  next_turn continue messages iteration (goes_on w messages') = continue messages' w

module _ {W Callback : Type 0} (quote : String → String) (marshal : Fields → String) where
  unfoldable pub run_call :
      Option (ToolRegistry W Callback) → ToolCall → String → String → W → W × ToolResult
  run_call none tc channel chat_id w = (w, error_result "No tools available")
  run_call (some tools) tc channel chat_id w =
      execute_with_context quote tools tc.name tc.arguments channel chat_id none w

  -- The messages that the tool calls append, in their order.
  unfoldable pub run_calls :
      Option (ToolRegistry W Callback) → List ToolCall → String → String → W → W × List Message
  unfolding run_call
  run_calls tools [] channel chat_id w = (w, [])
  run_calls tools (tc ∷ tcs) channel chat_id w =
      let (w', tr) = run_call tools tc channel chat_id w in
      let (w'', rest) = run_calls tools tcs channel chat_id w' in
      (w'', tool_message tc.id tr ∷ rest)

  unfoldable pub definitions : Option (ToolRegistry W Callback) → List ToolDefinition
  definitions none = []
  definitions (some tools) = to_provider_defs tools

  unfoldable pub has_calls :
      Option (ToolRegistry W Callback)
      → LlmResponse
      → List ToolCall
      → String
      → String
      → List Message
      → W
      → Turn W
  has_calls tools response [] channel chat_id messages w = answers w response.content
  has_calls tools response (tc ∷ tcs) channel chat_id messages w =
      let (w', results) = run_calls tools (tc ∷ tcs) channel chat_id w in
      goes_on w' (messages ++ assistant_message marshal response ∷ results)

  unfoldable pub after_chat :
      Option (ToolRegistry W Callback) → String → String → List Message → W × Answer → Turn W
  unfolding has_calls
  after_chat tools channel chat_id messages (w, refused e) =
      breaks_off w (concat ("LLM call failed: " ∷ e ∷ []))
  after_chat tools channel chat_id messages (w, responded response) =
      has_calls tools response response.tool_calls channel chat_id messages w

  -- The body of the loop.
  unfoldable pub turn : ToolLoopConfig W Callback → String → String → List Message → W → Turn W
  unfolding definitions after_chat
  turn config channel chat_id messages w = after_chat config.tools channel chat_id messages (
      config.provider messages (definitions config.tools) config.model
        (options_or_default config.llm_options) w)

  -- `left` is MaxIterations less the iterations made; the messages are kept for the theorems.
  unfoldable pub tool_loop :
      ToolLoopConfig W Callback → String → String → ℕ → ℕ → List Message → W → Outcome W
  tool_loop config channel chat_id zero iteration messages w = finished w "" messages iteration
  tool_loop config channel chat_id (suc left) iteration messages w =
      next_turn (λ messages' w'. tool_loop config channel chat_id left (suc iteration) messages' w')
        messages (suc iteration) (turn config channel chat_id messages w)

  -- `none` is the error of the provider.
  unfoldable pub run_tool_loop :
      ToolLoopConfig W Callback → List Message → String → String → W → W × Option ToolLoopResult
  run_tool_loop config messages channel chat_id w =
      result_of (tool_loop config channel chat_id (pos_part config.max_iterations) 0 messages w)
