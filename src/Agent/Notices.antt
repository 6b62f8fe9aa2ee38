-- ===== src/Agent/Notices.antt =====
-- processSystemMessage of pkg/agent/loop.go: the results that subagents announce.
use picoclaw.Prelude.{ℕ, ◌+◌, String, Option, none, some, [], ◌∷◌, str_eq, ◌==◌, if◌then◌else◌}
use package.text.Mathlib.Text.{find?}
use picoclaw.Prelude.Text.{concat}
use picoclaw.Prelude.Strings.{front, back}
use picoclaw.Bus.{InboundMessage}

-- The part of a chat's identifier before the first ":", when something stands there.
origin_channel : String → Option ℕ → String
origin_channel chat_id none = "cli"
origin_channel chat_id (some i) = if i == 0 then "cli" else front i chat_id

result_part : String → Option ℕ → String
result_part content none = content
result_part content (some i) = back (i + 8) content

-- What processSystemMessage works out: the origin and the content of the result. It answers nothing.
unfoldable pub system_notice : InboundMessage → Option (String × String)
unfolding origin_channel result_part
system_notice msg =
    if str_eq msg.channel "system"
    then some (
      origin_channel msg.chat_id (find? msg.chat_id ":"),
      result_part msg.content (find? msg.content "Result:\n"),
    )
    else none

-- A reply of processMessage, or the text of its error.
pub data Response : Type 0 where
  reply : String → Response
  error : String → Response

unfoldable after_notice : String → Option (String × String) → Response
after_notice channel none =
    error (concat ("processSystemMessage called with non-system message channel: " ∷ channel ∷ []))
after_notice channel (some notice) = reply ""

-- processSystemMessage
unfoldable pub process_system_message : InboundMessage → Response
unfolding after_notice system_notice
process_system_message msg = after_notice msg.channel (system_notice msg)
