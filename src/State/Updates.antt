-- ===== src/State/Updates.antt =====
-- What the setters of pkg/state/state.go change, in memory and on disk.
use picoclaw.Prelude.{String, ◌≡◌, refl, ◌∙◌, none, arith}
use picoclaw.State.{
  Manager, Io, Time, FailoverState, save_atomic, set_last_channel, set_last_chat_id,
  set_failover_state, new_manager,
}

module _ (io : Io) (now : Time) (m : Manager) where
  -- Each setter changes its own part of the state and the time stamp, also when the save fails.
  pub state-set_last_channel :
      (v : String)
      → (set_last_channel io now v m).0.state ≡ record m.state { last_channel = v; timestamp = now }
  unfolding set_last_channel save_atomic
  state-set_last_channel v = refl

  pub state-set_last_chat_id :
      (v : String)
      → (set_last_chat_id io now v m).0.state ≡ record m.state { last_chat_id = v; timestamp = now }
  unfolding set_last_chat_id save_atomic
  state-set_last_chat_id v = refl

  pub state-set_failover_state :
      (fs : FailoverState)
      → (set_failover_state io now fs m).0.state ≡ record m.state { failover = fs; timestamp = now }
  unfolding set_failover_state save_atomic
  state-set_failover_state fs = refl

  -- A setter that reports no error has saved the state that it leaves in memory.
  pub saved-set_last_channel :
      (v : String) (io' : Io)
      → (set_last_channel io now v m).1 ≡ none
      → let m' = (set_last_channel io now v m).0 in (new_manager io' m'.disk).state ≡ m'.state
  unfolding set_last_channel save_atomic new_manager
  saved-set_last_channel v io' h = ground arith

  pub saved-set_failover_state :
      (fs : FailoverState) (io' : Io)
      → (set_failover_state io now fs m).1 ≡ none
      → let m' = (set_failover_state io now fs m).0 in (new_manager io' m'.disk).state ≡ m'.state
  unfolding set_failover_state save_atomic new_manager
  saved-set_failover_state fs io' h = ground arith

-- A channel, a chat and a failover state that are set one after the other, by saves of which only the
-- last needs to succeed, are all there when the program is started again.
updates_survive_restart :
    (io1 io2 io3 io4 : Io) (t1 t2 t3 : Time) (channel chat : String) (fs : FailoverState)
    (m : Manager)
    → let m1 = (set_last_channel io1 t1 channel m).0 in
      let m2 = (set_last_chat_id io2 t2 chat m1).0 in
      let m3 = set_failover_state io3 t3 fs m2 in
      m3.1 ≡ none
      → (new_manager io4 m3.0.disk).state ≡ record m.state {
        last_channel = channel;
        last_chat_id = chat;
        timestamp = t3;
        failover = fs;
      }
updates_survive_restart io1 io2 io3 io4 t1 t2 t3 channel chat fs m h =
    let m1 = (set_last_channel io1 t1 channel m).0 in
    let m2 = (set_last_chat_id io2 t2 chat m1).0 in
    saved-set_failover_state io3 t3 m2 fs io4 h
    ∙ state-set_failover_state io3 t3 m2 fs
    ∙ rw (state-set_last_chat_id io2 t2 m1 chat, state-set_last_channel io1 t1 m channel) refl
