-- ===== src/Session/Files.antt =====
-- Save and loadSessions of pkg/session/manager.go, on a storage directory of named files. Names are
-- those of a Unix system; a JSON file decodes to the session that was encoded, less the images of its
-- messages, which are not serialized.
use picoclaw.Prelude.{
  String, Bool, not, ◌||◌, Option, none, some, List, [], ◌∷◌, ◌++◌, map, str_eq, ◌==◌,
  if◌then◌else◌,
}
use Prim.Native.Char.{code}
use Prim.Native.String.{◌++◌ as append}
use picoclaw.Prelude.Dict.{Dict, get, put, delete}
use picoclaw.Prelude.Text.{has_suffix, contains_either}
use picoclaw.Llm.{Message}
use picoclaw.Session.{Session, encoded, torn, File, regular, directory, SessionManager}

-- strings.ReplaceAll(key, ":", "_")
unfoldable pub sanitize_filename : String → String
sanitize_filename String.[] = String.[]
sanitize_filename (String.◌∷◌ c s) =
    let rest = sanitize_filename s in
    if code c == b':' then String.◌∷◌ "_" rest else String.◌∷◌ c rest

-- Without a separator, filepath.IsLocal rejects the empty name and "..".
unfoldable pub refused_name : String → Bool
refused_name name =
    str_eq name "." || (str_eq name "" || str_eq name "..") || contains_either b'/' 92 name

-- What the operating system answers to the steps of one save; `temp_name` is the name that
-- os.CreateTemp makes up, none if it fails.
pub record SaveIo : Type 0 where
  pub marshal_ok : Bool
  pub temp_name : Option String
  pub write_ok : Bool
  pub chmod_ok : Bool
  pub sync_ok : Bool
  pub close_ok : Bool
  pub rename_ok : Bool

pub data SaveError : Type 0 where
  invalid marshal_failed create_failed write_failed chmod_failed sync_failed close_failed
        rename_failed :
      SaveError

-- The changes of the directory, each atomic.
pub data FileOp : Type 0 where
  create : String → FileOp
  fill : String → Session → FileOp
  rename : String → String → FileOp
  remove : String → FileOp

unfoldable pub moved : String → String → Option File → Dict File → Dict File
moved from to none d = d
moved from to (some f) d = put (delete d from) to f

unfoldable pub apply_op : FileOp → Dict File → Dict File
unfolding moved
apply_op (create n) d = put d n (regular torn)
apply_op (fill n s) d = put d n (regular (encoded s))
apply_op (rename from to) d = moved from to (get d from) d
apply_op (remove n) d = delete d n

unfoldable pub run_ops : List FileOp → Dict File → Dict File
unfolding apply_op
run_ops [] d = d
run_ops (op ∷ ops) d = run_ops ops (apply_op op d)

abbrev drop_media : Message → Message
drop_media m = record m { media = [] }

-- The snapshot that is encoded: a copy, whose images the encoder leaves out.
unfoldable pub snapshot : Session → Session
snapshot s = record s { messages = map drop_media s.messages }

unfoldable pub session_file : String → String
session_file key = append (sanitize_filename key) ".json"

abbrev pub Steps : Type 0
Steps = List FileOp × Option SaveError

-- After a failed step the deferred function removes the temporary file.
unfoldable pub failed : String → SaveError → List FileOp → Steps
failed temp e done = (done ++ remove temp ∷ [], some e)

unfoldable pub finish : SaveIo → String → String → Session → Steps
unfolding failed
finish io temp target s =
    let made = create temp ∷ fill temp s ∷ [] in
    if not io.write_ok
    then failed temp write_failed (create temp ∷ [])
    else if not io.chmod_ok
    then failed temp chmod_failed made
    else if not io.sync_ok
    then failed temp sync_failed made
    else if not io.close_ok
    then failed temp close_failed made
    else if not io.rename_ok
    then failed temp rename_failed made
    else (create temp ∷ fill temp s ∷ rename temp target ∷ [], none)

unfoldable pub in_temp : SaveIo → Option String → String → Session → Steps
unfolding finish
in_temp io none target s = ([], some create_failed)
in_temp io (some temp) target s = finish io temp target s

unfoldable pub store : SaveIo → String → Option Session → Steps
unfolding in_temp
store io key none = ([], none)
store io key (some s) =
    if io.marshal_ok
    then in_temp io io.temp_name (session_file key) (snapshot s)
    else ([], some marshal_failed)

-- The operations of Save and its error.
unfoldable pub save_steps : SaveIo → String → SessionManager → Steps
unfolding store
save_steps io key sm =
    if str_eq sm.storage ""
    then ([], none)
    else if refused_name (sanitize_filename key)
    then ([], some invalid)
    else store io key (get sm.sessions key)

unfoldable pub save : SaveIo → String → SessionManager → SessionManager × Option SaveError
unfolding save_steps run_ops
save io key sm =
    let steps = save_steps io key sm in (record sm { files = run_ops steps.0 sm.files }, steps.1)

unfoldable pub load_file : String → File → Dict Session → Dict Session
load_file name directory m = m
load_file name (regular torn) m = m
load_file name (regular (encoded s)) m = if has_suffix name ".json" then put m s.key s else m

-- The entries in the order of os.ReadDir; a file that cannot be read or decoded is skipped.
unfoldable pub load_sessions : Dict File → Dict Session → Dict Session
unfolding load_file
load_sessions [] m = m
load_sessions ((name, f) ∷ files) m = load_sessions files (load_file name f m)

unfoldable pub new_session_manager : String → Dict File → SessionManager
unfolding load_sessions
new_session_manager storage files = record {
  sessions = if str_eq storage "" then [] else load_sessions files [];
  storage = storage;
  files = files;
}
