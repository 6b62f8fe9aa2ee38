-- ===== src/State.antt =====
-- pkg/state/state.go: the persistent workspace state, the files that it is kept in, and its save by a
-- temporary file and a rename. `Time` counts nanoseconds from Go's zero time, so `IsZero` is a test for 0.
-- What the operating system answers to one save is an `Io`; the clock's reading is an argument.
pub mod Crash
pub mod Updates
mod Examples
use picoclaw.Prelude.{String, Bool, true, false, Option, none, some, List, [], ◌∷◌, if◌then◌else◌}
use picoclaw.Prelude.Int.{ℤ, pos}

abbrev pub Time : Type 0
Time = ℤ

-- time.Time{}
abbrev pub zero_time : Time
zero_time = pos 0

pub record FailoverState : Type 0 where
  pub mode : String
  pub primary_model : String
  pub active_model : String
  pub fallback_index : ℤ
  pub degraded_at : Time
  pub hold_until : Time
  pub next_probe_at : Time
  pub last_probe_at : Time
  pub consecutive_probe_successes : ℤ
  pub last_rate_limit_error : String
  pub last_switch_reason : String
  pub last_switchback_prompt_at : Time
  pub last_switchback_probe : String
  pub switchback_prompt_sent : Bool
  pub switch_epoch : ℤ

pub record State : Type 0 where
  pub last_channel : String
  pub last_chat_id : String
  pub timestamp : Time
  pub failover : FailoverState

-- The zero values of the two structs.
abbrev pub zero_failover : FailoverState
zero_failover = record {
  mode = "";
  primary_model = "";
  active_model = "";
  fallback_index = pos 0;
  degraded_at = zero_time;
  hold_until = zero_time;
  next_probe_at = zero_time;
  last_probe_at = zero_time;
  consecutive_probe_successes = pos 0;
  last_rate_limit_error = "";
  last_switch_reason = "";
  last_switchback_prompt_at = zero_time;
  last_switchback_probe = "";
  switchback_prompt_sent = false;
  switch_epoch = pos 0;
}

abbrev pub zero_state : State
zero_state = record {
  last_channel = "";
  last_chat_id = "";
  timestamp = zero_time;
  failover = zero_failover;
}

-- A file holds the JSON of a state, or bytes that do not decode.
pub data Content : Type 0 where
  encoded : State → Content
  torn : Content

-- state/state.json, state/state.json.tmp and the older state.json of the workspace.
pub record Disk : Type 0 where
  pub state_file : Option Content
  pub temp_file : Option Content
  pub old_state_file : Option Content

pub record Manager : Type 0 where
  pub state : State
  pub disk : Disk

-- What can become of os.WriteFile.
pub data WriteOutcome : Type 0 where
  not_opened stopped_short written : WriteOutcome

pub record Io : Type 0 where
  pub marshal_ok : Bool
  pub write : WriteOutcome
  pub rename_ok : Bool

pub data SaveError : Type 0 where
  marshal_failed write_failed rename_failed : SaveError

-- The changes of the disk that a save consists of, each atomic: a crash falls between two of them.
pub data DiskOp : Type 0 where
  create_temp : DiskOp
  fill_temp : State → DiskOp
  rename_temp remove_temp : DiskOp

abbrev pub rename_onto : Option Content → Disk → Disk
rename_onto none d = d
rename_onto (some c) d = record d { state_file = some c; temp_file = none }

pub apply_op : DiskOp → Disk → Disk
apply_op create_temp d = record d { temp_file = some torn }
apply_op (fill_temp s) d = record d { temp_file = some (encoded s) }
apply_op rename_temp d = rename_onto d.temp_file d
apply_op remove_temp d = record d { temp_file = none }

pub run_ops : List DiskOp → Disk → Disk
unfolding apply_op
run_ops [] d = d
run_ops (op ∷ ops) d = run_ops ops (apply_op op d)

rename_ops : Bool → List DiskOp
rename_ops true = rename_temp ∷ []
rename_ops false = remove_temp ∷ []

write_ops : WriteOutcome → Bool → State → List DiskOp
unfolding rename_ops
write_ops not_opened renamed s = []
write_ops stopped_short renamed s = create_temp ∷ []
write_ops written renamed s = create_temp ∷ fill_temp s ∷ rename_ops renamed

pub save_ops : Io → State → List DiskOp
unfolding write_ops
save_ops io s = if io.marshal_ok then write_ops io.write io.rename_ok s else []

write_result : WriteOutcome → Bool → Option SaveError
write_result not_opened renamed = some write_failed
write_result stopped_short renamed = some write_failed
write_result written renamed = if renamed then none else some rename_failed

pub save_result : Io → Option SaveError
unfolding write_result
save_result io = if io.marshal_ok then write_result io.write io.rename_ok else some marshal_failed

unfoldable pub save_atomic : Io → Manager → Manager × Option SaveError
unfolding save_ops save_result run_ops
save_atomic io m = (record m { disk = run_ops (save_ops io m.state) m.disk }, save_result io)

unfoldable pub set_last_channel : Io → Time → String → Manager → Manager × Option SaveError
set_last_channel io now channel m =
    save_atomic io (record m { state = record m.state { last_channel = channel; timestamp = now } })

unfoldable pub set_last_chat_id : Io → Time → String → Manager → Manager × Option SaveError
set_last_chat_id io now chat_id m =
    save_atomic io (record m { state = record m.state { last_chat_id = chat_id; timestamp = now } })

unfoldable pub set_failover_state : Io → Time → FailoverState → Manager → Manager × Option SaveError
set_failover_state io now fs m =
    save_atomic io (record m { state = record m.state { failover = fs; timestamp = now } })

abbrev pub get_failover_state : Manager → FailoverState
get_failover_state m = m.state.failover

-- json.Unmarshal into a zero state: bytes that do not decode leave it as it is.
decode : Option Content → State
decode (some (encoded s)) = s
decode (some torn) = zero_state
decode none = zero_state

-- The older file is migrated if the new one is not there; every error is ignored.
migrate_old : Io → Option Content → Disk → Manager
migrate_old io (some (encoded s)) d = (save_atomic io (record { state = s; disk = d })).0
migrate_old io (some torn) d = record { state = zero_state; disk = d }
migrate_old io none d = record { state = zero_state; disk = d }

open_manager : Io → Option Content → Disk → Manager
open_manager io none d = migrate_old io d.old_state_file d
open_manager io (some c) d = record { state = decode (some c); disk = d }

unfoldable pub new_manager : Io → Disk → Manager
unfolding open_manager migrate_old decode save_atomic
new_manager io d = open_manager io d.state_file d
