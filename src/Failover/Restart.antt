-- ===== src/Failover/Restart.antt =====
-- A restart of the program: NewManager of pkg/failover/manager.go on the state that
-- pkg/state/state.go has saved.
use picoclaw.Prelude.{String, ◌≡◌, inl, inr, some, List, arith, eq_iff}
use picoclaw.State
use picoclaw.State.{FailoverState, Io, encoded}
use picoclaw.Failover.{Env, Manager, persist_locked}
use picoclaw.Failover.Chain.{fill_defaults, new_manager}
use picoclaw.Failover.Sound.{Sound, at-All}
use picoclaw.Failover.Invariant.{Inv}

fill_defaults-Sound :
    (p : String) (fb : List String) (fs : FailoverState) → Sound p fb fs → fill_defaults p fs ≡ fs
unfolding fill_defaults
fill_defaults-Sound p fb fs h = elim h.on_chain [
  | inl e ↦ ground (
    arith,
    eq_iff fs.mode "",
    eq_iff fs.primary_model "",
    eq_iff fs.active_model "",
    h.mode_set,
    h.primary_model_set,
    h.active_set,
  )
  | inr e ↦ ground (
    arith,
    eq_iff fs.mode "",
    eq_iff fs.primary_model "",
    eq_iff fs.active_model "",
    eq_iff fs.active_model p,
    h.mode_set,
    h.primary_model_set,
    h.active_set,
    (at-All fb fs.fallback_index h.fallbacks_fit e).1,
  )
]

-- If the last save reached the disk, a program that is started again with the same configuration routes
-- exactly as before: the failover state is the same, to the last field.
pub restart_keeps_failover_state :
    {P : Type 0} (env : Env) (io : Io) (m : Manager P)
    → Inv m
    → m.cfg.model ≡ m.primary
    → m.state_mgr.disk.state_file ≡ some (encoded m.state_mgr.state)
    → (new_manager {P = P} env m.cfg (State.new_manager io m.state_mgr.disk)).fs ≡ m.fs
unfolding new_manager State.new_manager persist_locked
restart_keeps_failover_state env io m h c d =
    rw (d, c, h.synced) (fill_defaults-Sound m.primary m.fallbacks m.fs h.sound)
