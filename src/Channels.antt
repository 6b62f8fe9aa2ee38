-- ===== src/Channels.antt =====
-- pkg/channels/base.go: who may write to a channel, and the message that
-- reaches the bus. The queue of the bus is the list of the messages waiting in it.
pub mod Access
pub mod Manager
mod Examples
use picoclaw.Prelude.{
  ◌+◌, ◌-◌, String, Bool, true, false, not, ◌&&◌, ◌||◌, Option, none, some, List, [], ◌∷◌, ◌++◌,
  str_eq, ◌==◌, if◌then◌else◌, length, any,
}
use Prim.Native.Char.{code}
use Prim.Native.String.{◌++◌ as append}
use picoclaw.Prelude.Int.{ℤ}
use picoclaw.Prelude.Dict.{Dict}
use picoclaw.Bus.{InboundMessage}
use picoclaw.Prelude.Text.{concat, itoa, is_empty}

pub record BaseChannel : Type 0 where
  pub name : String
  pub running : Bool
  pub allow_list : List String

unfoldable pub new_base_channel : String → List String → BaseChannel
new_base_channel name allow_list = record { name = name; running = false; allow_list = allow_list }

unfoldable pub set_running : Bool → BaseChannel → BaseChannel
set_running running c = record c { running = running }

add_front : String → String × Option String → String × Option String
add_front s (before, after) = (append s before, after)

-- The text before the first "|", and the text after it if there is one.
unfoldable pub cut : String → String × Option String
unfolding add_front
cut String.[] = (String.[], none)
cut (String.◌∷◌ c s) =
    let rest = add_front (String.◌∷◌ c String.[]) (cut s) in
    if code c == b'|' then (String.[], some s) else rest

parts_of : String → String × Option String → String × String
parts_of s (before, none) = (s, "")
parts_of s (before, some after) = if is_empty before then (s, "") else (before, after)

-- "id|user" as its two parts; another text, also one that begins with "|", as itself and nothing.
unfoldable pub parts : String → String × String
unfolding parts_of cut
parts s = parts_of s (cut s)

-- strings.TrimPrefix of "@"
unfoldable pub trim_at : String → String
trim_at String.[] = String.[]
trim_at (String.◌∷◌ c s) = if code c == b'@' then s else String.◌∷◌ c s

-- The test of one entry of the allow list.
unfoldable pub allows : String → String → Bool
allows sender_id allowed =
    let (id_part, user_part) = parts sender_id in
    let trimmed = trim_at allowed in
    let (allowed_id, allowed_user) = parts trimmed in
    str_eq sender_id allowed
    || (str_eq id_part allowed
        || (str_eq sender_id trimmed
            || (str_eq id_part trimmed
                || (str_eq id_part allowed_id
                    || (not (str_eq allowed_user "") && str_eq sender_id allowed_user
                        || not (str_eq user_part "")
                          && (str_eq user_part allowed
                              || (str_eq user_part trimmed || str_eq user_part allowed_user)))))))

unfoldable pub is_allowed : BaseChannel → String → Bool
is_allowed c sender_id =
    if length c.allow_list == 0 then true else any (allows sender_id) c.allow_list

-- `now` is the clock's milliseconds; the message is put at the end of the inbound queue.
unfoldable pub handle_message :
    BaseChannel
    → ℤ
    → String
    → String
    → String
    → List String
    → Dict String
    → List InboundMessage
    → List InboundMessage
handle_message c now sender_id chat_id content media metadata inbound =
    if is_allowed c sender_id
    then inbound
      ++ record {
        channel = c.name;
        sender_id = sender_id;
        chat_id = chat_id;
        content = content;
        media = media;
        session_key = concat (c.name ∷ ":" ∷ chat_id ∷ []);
        metadata = metadata;
        correlation_id = concat (sender_id ∷ "-" ∷ chat_id ∷ "-" ∷ itoa now ∷ []);
      }
        ∷ []
    else inbound
