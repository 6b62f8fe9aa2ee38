-- ===== src/State/Examples.antt =====
-- The theorems about the saved state at concrete saves.
use picoclaw.Prelude.{◌≡◌, ◌⊎◌, true, none, some, take}
use picoclaw.State.{State, encoded, Disk, Manager, Io, written, zero_state, run_ops, save_ops}
use picoclaw.State.Crash.{save_crash_safe}

abbrev good : Io
good = record { marshal_ok = true; write = written; rename_ok = true }

abbrev old_state : State
old_state = record zero_state { last_channel = "cli" }

abbrev disk : Disk
disk = record { state_file = some (encoded old_state); temp_file = none; old_state_file = none }

abbrev manager : Manager
manager = record { state = record zero_state { last_channel = "telegram:1" }; disk = disk }

save_crash_safe_example :
    let d = run_ops (take 1 (save_ops good manager.state)) manager.disk in
    (d.state_file ≡ manager.disk.state_file) ⊎ (d.state_file ≡ some (encoded manager.state))
save_crash_safe_example = save_crash_safe good manager 1
