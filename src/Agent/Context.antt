-- ===== src/Agent/Context.antt =====
-- What a turn of pkg/agent/loop.go starts from: the messages that context.go builds, the channel that is
-- noted, and the contexts of the tools. The prompt, the images and the paths are a `Desk`.
use picoclaw.Prelude.{
  ◌==◌, length, true, String, Bool, false, not, ◌&&◌, ◌||◌, Option, none, some, List, [], ◌∷◌, ◌++◌,
  str_eq, if◌then◌else◌, any,
}
use package.text.Mathlib.Text.{starts_with}
use picoclaw.Prelude.Dict.{get}
use picoclaw.Prelude.Text.{concat}
use picoclaw.Llm.{Message, MediaImage}
use picoclaw.Utils.{is_internal_channel}
use picoclaw.Bus.{InboundMessage}
use picoclaw.State.{set_last_channel}
use picoclaw.Tools.{Tool, ToolRegistry}
use picoclaw.Tools.MessageTool.{MessageTool}
use picoclaw.Agent.Calls.{env_now}
use picoclaw.Agent.World.{Host, AgentLoop}
use picoclaw.Agent.Planner.{ActionStream, text_message}

-- What Err of a request's context answers: nothing, or one of its two errors.
pub data RequestContext : Type 0 where
  live canceled deadline_exceeded : RequestContext

-- A CancelFunc: it sets the error of a context that has none.
unfoldable pub cancel : RequestContext → RequestContext
cancel live = canceled
cancel canceled = canceled
cancel deadline_exceeded = deadline_exceeded

unfoldable pub is_canceled : RequestContext → Bool
is_canceled live = false
is_canceled canceled = true
is_canceled deadline_exceeded = false

-- What else a message needs: the prompt and the images made from files, the stream of actions if it is
-- enabled, the reply to /usage, the state of the message tool, and the paths of files.
pub record Desk (W P Callback : Type 0) : Type 0 where
  pub system_prompt : W → String
  pub images : List String → List MediaImage
  pub stream_for : String → String → Option (ActionStream W)
  pub usage_reply : InboundMessage → String → AgentLoop W P Callback → String
  pub message_tool : W → MessageTool
  pub request_context : W → RequestContext
  pub clean : String → String
  pub rel : String → String → Option String
  pub media_dirs : List String
  pub remove_file : String → W → W

-- The loop of BuildMessages that removes tool messages at the front.
unfoldable pub drop_orphans : List Message → List Message
drop_orphans [] = []
drop_orphans (m ∷ ms) = let rest = drop_orphans ms in if str_eq m.role "tool" then rest else m ∷ ms

with_session : String → String → String → String
with_session prompt channel chat_id =
    if not (str_eq channel "") && not (str_eq chat_id "")
    then concat
        (prompt ∷ "\n\n## Current Session\nChannel: " ∷ channel ∷ "\nChat ID: " ∷ chat_id ∷ [])
    else prompt

with_summary : String → String → String
with_summary prompt summary =
    if str_eq summary ""
    then prompt
    else concat (prompt ∷ "\n\n## Summary of Previous Conversation\n\n" ∷ summary ∷ [])

unfoldable pub build_messages :
    String
    → (List String → List MediaImage)
    → List Message
    → String
    → String
    → List String
    → String
    → String
    → List Message
unfolding with_session with_summary
build_messages system_prompt images history summary current media channel chat_id =
    text_message "system" (with_summary (with_session system_prompt channel chat_id) summary)
    ∷ (drop_orphans history
        ++ record (text_message "user" current) {
          media = if length media == 0 then [] else images media;
        }
          ∷ [])

unfoldable pub is_path_within : (String → String → Option String) → String → String → Bool
is_path_within rel path dir = elim (rel dir path) [
  | none ↦ false
  | some r ↦ str_eq r "." || not (str_eq r "..") && not (starts_with r "../")
]

module _ {W P Callback : Type 0} (host : Host W P Callback) (desk : Desk W P Callback) where
  within_some : String → List String → Bool
  within_some path dirs = any (is_path_within desk.rel path) dirs

  unfoldable pub cleanup_turn_media : List String → W → W
  unfolding within_some
  cleanup_turn_media [] w = w
  cleanup_turn_media (p ∷ ps) w =
      cleanup_turn_media ps (
        if within_some (desk.clean p) desk.media_dirs then desk.remove_file (desk.clean p) w else w)

  -- The error of the save is only logged.
  unfoldable pub record_last_channel : String → AgentLoop W P Callback → AgentLoop W P Callback
  record_last_channel channel al =
      let e = env_now host al in
      record al {
        failover = record al.failover {
          state_mgr = (set_last_channel e.io e.now channel al.failover.state_mgr).0;
        };
      }

  unfoldable pub note_channel : String → String → AgentLoop W P Callback → AgentLoop W P Callback
  note_channel channel chat_id al =
      if not (str_eq channel "") && not (str_eq chat_id "") && not (is_internal_channel channel)
      then record_last_channel (concat (channel ∷ ":" ∷ chat_id ∷ [])) al
      else al

  context_set : String → String → Option (Tool W Callback) → W → W
  context_set channel chat_id none w = w
  context_set channel chat_id (some tool) w = elim tool.set_context [
    | none ↦ w
    | some set ↦ set channel chat_id w
  ]

  set_contexts : List String → String → String → ToolRegistry W Callback → W → W
  unfolding context_set
  set_contexts [] channel chat_id tools w = w
  set_contexts (name ∷ names) channel chat_id tools w =
      set_contexts names channel chat_id tools (context_set channel chat_id (get tools name) w)

  unfoldable pub update_tool_contexts :
      String → String → AgentLoop W P Callback → AgentLoop W P Callback
  unfolding set_contexts
  update_tool_contexts channel chat_id al = record al {
    world =
        set_contexts ("message" ∷ "spawn" ∷ "subagent" ∷ "send_file" ∷ []) channel chat_id al.tools
          al.world;
  }
