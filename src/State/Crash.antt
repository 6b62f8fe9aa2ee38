-- ===== src/State/Crash.antt =====
-- The save of pkg/state/state.go under a crash, an I/O error and a restart.
use picoclaw.Prelude.{
  ℕ, zero, suc, ◌≡◌, refl, ◌⊎◌, inl, none, some, arith, if◌then◌else◌, is_some, take,
}
use picoclaw.State.{
  State, encoded, Manager, Io, run_ops, save_ops, save_result, save_atomic, new_manager,
}

-- Stop a save after any number of its disk operations, whatever the operating system answers: the
-- state file is what it was before, or holds exactly the state that was being saved.
pub save_crash_safe :
    (io : Io) (m : Manager) (k : ℕ)
    → let d = run_ops (take k (save_ops io m.state)) m.disk in
      (d.state_file ≡ m.disk.state_file) ⊎ (d.state_file ≡ some (encoded m.state))
unfolding run_ops save_ops
save_crash_safe io m zero = inl refl
save_crash_safe io m (suc zero) = ground arith
save_crash_safe io m (suc (suc zero)) = ground arith
save_crash_safe io m (suc (suc (suc zero))) = ground arith
save_crash_safe io m (suc (suc (suc (suc k)))) = ground arith

-- A save leaves the state file as it was if it reports an error, and else the file holds the state; the
-- state in memory and the older file never change.
pub save_atomic_result :
    (io : Io) (m : Manager)
    → let (m', err) = save_atomic io m in
      (m'.disk.state_file ≡ (if is_some err then m.disk.state_file else some (encoded m.state)))
      × (m'.state ≡ m.state)
      × (m'.disk.old_state_file ≡ m.disk.old_state_file)
unfolding save_atomic
save_atomic_result io m = ground arith

-- A manager opened on the disk of a successful save has the state that was saved.
pub new_manager-save_atomic :
    (io io' : Io) (m : Manager)
    → save_result io ≡ none
    → (new_manager io' (save_atomic io m).0.disk).state ≡ m.state
unfolding save_atomic new_manager
new_manager-save_atomic io io' m h = ground arith

-- A manager opened after a crash has the state that the file held before, or the new one.
new_manager_after_crash :
    (io io' : Io) (m : Manager) (old : State) (k : ℕ)
    → m.disk.state_file ≡ some (encoded old)
    → let s = (new_manager io' (run_ops (take k (save_ops io m.state)) m.disk)).state in
      (s ≡ old) ⊎ (s ≡ m.state)
unfolding new_manager
new_manager_after_crash io io' m old k h = ground (arith, save_crash_safe io m k)
