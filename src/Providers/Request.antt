-- ===== src/Providers/Request.antt =====
-- HTTPProvider of pkg/providers/http_provider.go: the requests that Chat sends. The exchange over the network and
-- the decoding of JSON are a `Transport`.
use picoclaw.Prelude.{
  String, ◌⊎◌, ◌&&◌, ◌||◌, Option, none, some, List, [], ◌∷◌, map, str_eq, ltb, ◌==◌, if◌then◌else◌,
  length,
}
use picoclaw.Prelude.Int.{ℤ}
use picoclaw.Prelude.Text.{concat}
use picoclaw.Prelude.Strings.{contains, to_lower, cut_first, trim_right_of}
use Prim.Native.Char.{code}
use picoclaw.Llm.{Fields, ToolCall, FunctionCall, MediaImage, Message, UsageInfo, ToolDefinition}

pub record HttpProvider : Type 0 where
  pub api_key : String
  pub api_base : String
  pub proxy : String

-- A proxy that is not an address is ignored; whether it is one is left to the transport.
unfoldable pub new_http_provider : String → String → String → HttpProvider
new_http_provider api_key api_base proxy = record {
  api_key = api_key;
  api_base = trim_right_of (λ c. code c == b'/') api_base;
  proxy = proxy;
}

-- The content of a message is a text, or a text and the addresses of images.
pub data Content : Type 0 where
  plain : String → Content
  with_images : String → List String → Content

pub record OpenAiMessage : Type 0 where
  pub role : String
  pub content : Content
  pub tool_calls : List ToolCall
  pub tool_call_id : String

pub record ChatBody : Type 0 where
  pub model : String
  pub messages : List OpenAiMessage
  pub tools : List ToolDefinition
  pub token_limit : Option (String × ℤ)
  pub temperature : Option String

pub record HttpRequest : Type 0 where
  pub url : String
  pub authorization : Option String
  pub body : ChatBody

pub record HttpResponse : Type 0 where
  pub status_code : ℤ
  pub body : String
  pub header : String → String

-- A tool call as it stands in the JSON of an answer, and what is read of the answer.
pub record ApiToolCall : Type 0 where
  pub id : String
  pub type : String
  pub function : Option FunctionCall

pub record Choice : Type 0 where
  pub content : String
  pub tool_calls : List ApiToolCall
  pub finish_reason : String

pub record ApiResponse : Type 0 where
  pub choices : List Choice
  pub usage : Option UsageInfo

pub record Transport (W : Type 0) : Type 0 where
  pub do_request : HttpRequest → W → W × (String ⊎ HttpResponse)
  pub decode_response : String → String ⊎ ApiResponse
  pub decode_arguments : String → Option Fields

stripped : String → Option (String × String) → String
stripped model none = model
stripped model (some (prefix, rest)) =
    if str_eq prefix "moonshot" || str_eq prefix "nvidia" then rest else model

unfoldable pub strip_prefix : String → String
unfolding stripped
strip_prefix model = stripped model (cut_first b'/' model)

image_url : MediaImage → String
image_url img = concat ("data:" ∷ img.mime_type ∷ ";base64," ∷ img.base64_data ∷ [])

transform_message : Message → OpenAiMessage
unfolding image_url
transform_message msg = record {
  role = msg.role;
  content =
      if str_eq msg.role "user" && ltb 0 (length msg.media)
      then with_images msg.content (map image_url msg.media)
      else plain msg.content;
  tool_calls = msg.tool_calls;
  tool_call_id = msg.tool_call_id;
}

-- A field that is empty is left out of the JSON.
unfoldable pub transform_messages_for_open_ai : List Message → List OpenAiMessage
unfolding transform_message
transform_messages_for_open_ai messages = map transform_message messages

unfoldable pub token_key : String → String
token_key model =
    let lower = to_lower model in
    if contains lower "glm" || contains lower "o1" || contains lower "gpt"
    then "max_completion_tokens"
    else "max_tokens"

unfoldable pub temperature_for : String → String → String
temperature_for model temperature =
    let lower = to_lower model in
    if (contains lower "kimi" && contains lower "k2") || contains lower "gpt-5-mini"
    then "1"
    else temperature

limit_for : String → Option ℤ → Option (String × ℤ)
limit_for model none = none
limit_for model (some n) = some (token_key model, n)

heat_for : String → Option String → Option String
heat_for model none = none
heat_for model (some t) = some (temperature_for model t)

-- `max_tokens` and `temperature` are the options that have the types that Chat asks for.
unfoldable pub chat_body :
    List Message → List ToolDefinition → String → Option ℤ → Option String → ChatBody
unfolding limit_for heat_for
chat_body messages tools model max_tokens temperature = record {
  model = strip_prefix model;
  messages = transform_messages_for_open_ai messages;
  tools = tools;
  token_limit = limit_for (strip_prefix model) max_tokens;
  temperature = heat_for (strip_prefix model) temperature;
}
