-- ===== src/Tools/MessageTool.antt =====
-- pkg/tools/message.go: the tool that sends a message to a chat, and remembers that it has.
use picoclaw.Prelude.{
  String, Bool, true, false, not, ◌||◌, Option, none, some, [], ◌∷◌, str_eq, if◌then◌else◌,
}
use picoclaw.Prelude.Text.{concat}
use picoclaw.Llm.{Value, null, boolean, number, text, array, object, Fields, no_fields, field}
use picoclaw.Tools.{ToolResult, error_result, silent_result, with_error}

-- The send callback is an argument; `configured` tells whether one has been set.
pub record MessageTool : Type 0 where
  pub configured : Bool
  pub default_channel : String
  pub default_chat_id : String
  pub sent_in_round : Bool

unfoldable pub new_message_tool : MessageTool
new_message_tool = record {
  configured = false;
  default_channel = "";
  default_chat_id = "";
  sent_in_round = false;
}

unfoldable pub set_context : String → String → MessageTool → MessageTool
set_context channel chat_id t = record t {
  default_channel = channel;
  default_chat_id = chat_id;
  sent_in_round = false;
}

abbrev pub has_sent_in_round : MessageTool → Bool
has_sent_in_round t = t.sent_in_round

unfoldable pub set_send_callback : MessageTool → MessageTool
set_send_callback t = record t { configured = true }

string_value : Value → Option String
string_value (text s) = some s
string_value null = none
string_value (boolean b) = none
string_value (number n) = none
string_value (array items) = none
string_value (object entries) = none

-- args[key].(string) with its test
unfoldable pub string_arg : String → Fields → Option String
unfolding string_value
string_arg key no_fields = none
string_arg key (field k v rest) =
    let later = string_arg key rest in if str_eq k key then string_value v else later

or_default : Option String → String → String
or_default none default = default
or_default (some s) default = if str_eq s "" then default else s

-- The message to send with its target, or the result that refuses it.
pub data Request : Type 0 where
  sends : String → String → String → Request
  refuses : String → Request

with_content : MessageTool → Fields → Option String → Request
unfolding or_default
with_content t args none = refuses "content is required"
with_content t args (some content) =
    let channel = or_default (string_arg "channel" args) t.default_channel in
    let chat_id = or_default (string_arg "chat_id" args) t.default_chat_id in
    if str_eq channel "" || str_eq chat_id ""
    then refuses "No target channel/chat specified"
    else if not t.configured
    then refuses "Message sending not configured"
    else sends channel chat_id content

unfoldable pub request : MessageTool → Fields → Request
unfolding with_content
request t args = with_content t args (string_arg "content" args)

sent_result : String → String → Option String → MessageTool → MessageTool × ToolResult
sent_result channel chat_id (some e) t =
    (t, with_error (some e) (error_result (concat ("sending message: " ∷ e ∷ []))))
sent_result channel chat_id none t = (
  record t { sent_in_round = true },
  silent_result (concat ("Message sent to " ∷ channel ∷ ":" ∷ chat_id ∷ [])),
)

answer_request :
    {W : Type 0}
    → (String → String → String → W → W × Option String)
    → Request
    → MessageTool
    → W
    → W × (MessageTool × ToolResult)
unfolding sent_result
answer_request send (refuses why) t w = (w, (t, error_result why))
answer_request send (sends channel chat_id content) t w =
    let (w', err) = send channel chat_id content w in (w', sent_result channel chat_id err t)

-- Execute: `send` is the callback, whose error is its second result.
unfoldable pub execute :
    {W : Type 0}
    → (String → String → String → W → W × Option String)
    → Fields
    → MessageTool
    → W
    → W × (MessageTool × ToolResult)
unfolding answer_request
execute send args t w = answer_request send (request t args) t w
