-- ===== src/Session/Examples.antt =====
-- The theorems about sessions at concrete conversations.
use picoclaw.Prelude.{
  ◌-◌, String, ◌≡◌, refl, ◌≢◌, ◌⊎◌, true, none, some, [], ◌∷◌, ◌++◌, arith, eq_iff, length, take,
}
use Prim.Native.Nat.{min}
use picoclaw.Prelude.Int.{pos}
use picoclaw.Prelude.Dict.{get}
use picoclaw.Prelude.Text.{contains_either, has_suffix}
use picoclaw.Llm.{Message}
use picoclaw.Session.{
  Session, regular, encoded, SessionManager, get_history, get_summary, truncate_history,
}
use picoclaw.Session.Files.{
  SaveIo, save, save_steps, run_ops, snapshot, session_file, sanitize_filename, refused_name,
  new_session_manager,
}
use picoclaw.Session.History.{get_history-truncate_history}
use picoclaw.Session.Saving.{session_save_crash_safe}
use picoclaw.Session.Directory.{IsStorage}
use picoclaw.Session.Reload.{get-save-new_session_manager, save_collision_loses_session}

abbrev hello : Message
hello = record { role = "user"; content = "hello"; tool_calls = []; tool_call_id = ""; media = [] }

abbrev chat : String → Session
chat key = record {
  key = key;
  messages = hello ∷ hello ∷ hello ∷ [];
  summary = "greetings";
  created = pos 1;
  updated = pos 2;
}

abbrev good : SaveIo
good = record {
  marshal_ok = true;
  temp_name = some "session-1.tmp";
  write_ok = true;
  chmod_ok = true;
  sync_ok = true;
  close_ok = true;
  rename_ok = true;
}

abbrev manager : SessionManager
manager = record {
  sessions = ("slack:C1", chat "slack:C1") ∷ [];
  storage = "/sessions";
  files = [];
}

empty_IsStorage : IsStorage manager.files
unfolding get
empty_IsStorage = record { unique = tt; named = λ n s h x. absurd (cc) }

storage_set : ◌≢◌ {A = String} "/sessions" ""
storage_set = ground (arith, eq_iff "/sessions" "")

get_history-truncate_history_example :
    let old = get_history "slack:C1" manager in
    let sm' = truncate_history (pos 3) "slack:C1" (pos 2) manager in
    let new = get_history "slack:C1" sm' in
    (take (length old - 2) old ++ new ≡ old)
    × (length new ≡ min 2 (length old))
    × (◌≡◌ {A = String} "cli" "slack:C1" ⊎ (get_history "cli" sm' ≡ get_history "cli" manager))
    × (get_summary "cli" sm' ≡ get_summary "cli" manager)
get_history-truncate_history_example =
    get_history-truncate_history (pos 3) "slack:C1" "cli" (pos 2) manager

tmp≢json : ◌≢◌ {A = String} "session-1.tmp" "slack_C1.json"
tmp≢json = ground (arith, eq_iff "session-1.tmp" "slack_C1.json")

other≢tmp : ◌≢◌ {A = String} "cli.json" "session-1.tmp"
other≢tmp = ground (arith, eq_iff "cli.json" "session-1.tmp")

session_save_crash_safe_example :
    let d = run_ops (take 2 (save_steps good "slack:C1" manager).0) manager.files in
    (get d "cli.json" ≡ get manager.files "cli.json")
    ⊎ (◌≡◌ {A = String} "cli.json" (session_file "slack:C1")
        × (get d "cli.json" ≡ some (regular (encoded (snapshot (chat "slack:C1"))))))
unfolding get
session_save_crash_safe_example =
    session_save_crash_safe good "slack:C1" "session-1.tmp" (chat "slack:C1") manager 2 "cli.json"
      refl refl (unfold session_file sanitize_filename in tmp≢json) other≢tmp

get-save-new_session_manager_example :
    get (new_session_manager "/sessions" (save good "slack:C1" manager).0.files).sessions "slack:C1"
    ≡ some (snapshot (chat "slack:C1"))
unfolding get save refused_name sanitize_filename contains_either has_suffix
get-save-new_session_manager_example =
    get-save-new_session_manager good "session-1.tmp" (chat "slack:C1") manager empty_IsStorage
      storage_set refl refl refl refl

keys_differ : ◌≢◌ {A = String} "slack_C1" "slack:C1"
keys_differ = ground (arith, eq_iff "slack_C1" "slack:C1")

save_collision_loses_session_example :
    get (new_session_manager "/sessions" (save good "slack:C1" manager).0.files).sessions "slack_C1"
    ≡ none
unfolding get save refused_name sanitize_filename contains_either has_suffix session_file
save_collision_loses_session_example =
    save_collision_loses_session good "session-1.tmp" (chat "slack:C1") (chat "slack_C1") manager
      empty_IsStorage storage_set refl refl refl refl refl keys_differ
