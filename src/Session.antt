-- ===== src/Session.antt =====
-- pkg/session/manager.go: conversations by key, and their files. The methods that only touch memory
-- stand here, Save and loadSessions in Session/Files.antt. A clock's reading is an argument.
pub mod Files
pub mod History
pub mod Saving
pub mod Directory
pub mod Reload
pub mod Names
mod Examples
use picoclaw.Prelude.{
  ◌+◌, ◌-◌, String, Option, none, some, List, [], ◌∷◌, ◌++◌, leb, ◌==◌, if◌then◌else◌, length, drop,
}
use picoclaw.Prelude.Int.{ℤ, pos, negsuc}
use picoclaw.Prelude.Dict.{Dict, get, put}
use picoclaw.State.{Time}
use picoclaw.Llm.{Message}

pub record Session : Type 0 where
  pub key : String
  pub messages : List Message
  pub summary : String
  pub created : Time
  pub updated : Time

-- The file of a session holds its JSON, or bytes that do not decode.
pub data Content : Type 0 where
  encoded : Session → Content
  torn : Content

-- An entry of the storage directory.
pub data File : Type 0 where
  regular : Content → File
  directory : File

pub record SessionManager : Type 0 where
  pub sessions : Dict Session
  pub storage : String
  pub files : Dict File

new_session : String → Time → Time → Session
new_session key created updated = record {
  key = key;
  messages = [];
  summary = "";
  created = created;
  updated = updated;
}

abbrev pub or_else {ℓ} : {A : Type ℓ} → A → Option A → A
or_else d none = d
or_else d (some a) = a

set_session : String → Session → SessionManager → SessionManager
set_session key s sm = record sm { sessions = put sm.sessions key s }

got_or_created : String → Time → Option Session → SessionManager → SessionManager × Session
unfolding new_session set_session
got_or_created key now (some s) sm = (sm, s)
got_or_created key now none sm = let s = new_session key now now in (set_session key s sm, s)

unfoldable pub get_or_create : Time → String → SessionManager → SessionManager × Session
unfolding got_or_created
get_or_create now key sm = got_or_created key now (get sm.sessions key) sm

-- A missing session is made first; `Updated` is then set in both cases.
unfoldable pub add_full_message : Time → String → Message → SessionManager → SessionManager
unfolding new_session set_session
add_full_message now key msg sm =
    let s = or_else (new_session key now now) (get sm.sessions key) in
    set_session key (record s { messages = s.messages ++ msg ∷ []; updated = now }) sm

unfoldable pub add_message : Time → String → String → String → SessionManager → SessionManager
unfolding add_full_message
add_message now key role content sm =
    add_full_message now key
      (record { role = role; content = content; tool_calls = []; tool_call_id = ""; media = [] }) sm

history_of : Option Session → List Message
history_of none = []
history_of (some s) = s.messages

unfoldable pub get_history : String → SessionManager → List Message
unfolding history_of
get_history key sm = history_of (get sm.sessions key)

summary_of : Option Session → String
summary_of none = ""
summary_of (some s) = s.summary

unfoldable pub get_summary : String → SessionManager → String
unfolding summary_of
get_summary key sm = summary_of (get sm.sessions key)

pub change_session : (Session → Session) → String → Option Session → SessionManager → SessionManager
unfolding set_session
change_session f key none sm = sm
change_session f key (some s) sm = set_session key (f s) sm

unfoldable pub set_summary : Time → String → String → SessionManager → SessionManager
unfolding change_session
set_summary now key summary sm =
    change_session (λ s. record s { summary = summary; updated = now }) key (get sm.sessions key) sm

-- session.Messages[len-keepLast:], for a list that is longer than keepLast.
pub truncated : Time → ℤ → Session → Session
truncated now (negsuc n) s = record s { messages = []; updated = now }
truncated now (pos n) s =
    if n == 0
    then record s { messages = []; updated = now }
    else if leb (length s.messages) n
    then s
    else record s { messages = drop (length s.messages - n) s.messages; updated = now }

unfoldable pub truncate_history : Time → String → ℤ → SessionManager → SessionManager
unfolding change_session truncated
truncate_history now key keep_last sm =
    change_session (truncated now keep_last) key (get sm.sessions key) sm
