-- ===== src/Failover/Probing.antt =====
-- When pkg/failover/manager.go probes the primary model, and how many probes it takes to come back.
use picoclaw.Prelude.{
  ℕ, suc, ◌+◌, ◌*◌, ◌≤◌, ◌<◌, String, ◌≡◌, refl, ap, ◌∙◌, true, false, Option, none, List, [], ◌∷◌,
  ◌++◌, arith, length,
}
use picoclaw.Prelude.Int.{pos, inc64, inc64_lem, ◌+ℤ◌, ◌<ℤ◌, ◌≤ℤ◌}
use picoclaw.State.{Time}
use picoclaw.Failover.{Env, Manager, LlmError, mode_normal, minutes, persist_locked}
use picoclaw.Failover.Ops.{refuse, degrade, advance, hold_until, on_llm_rate_limited}
use picoclaw.Failover.Probe.{threshold, probe_success, record_probe_result, run_probe, should_probe}
use picoclaw.Failover.Latest.{le-extend_by_hint, minutes_lem}

module _ {P : Type 0} where
  switched_hold :
      (env : Env) (model : String) (err : Option LlmError) (m : Manager P)
      → let (m', ev) = on_llm_rate_limited env model err m in
        ev.switched ≡ true → (env.now +ℤ minutes m.cfg.hold_minutes) ≤ℤ m'.fs.hold_until
  unfolding on_llm_rate_limited refuse degrade advance hold_until persist_locked
  switched_hold env model err m h =
      ground (arith, le-extend_by_hint env err (env.now +ℤ minutes m.cfg.hold_minutes))

  not_before_hold : (t : Time) (m : Manager P) → t <ℤ m.fs.hold_until → should_probe t m ≡ false
  unfolding should_probe
  not_before_hold t m h = ground arith

  -- After a switch to a fallback the primary is not probed for the configured minutes (which fit an
  -- int64 of nanoseconds), whatever hints the error carries.
  no_probe_during_hold :
      (env : Env) (model : String) (err : Option LlmError) (m : Manager P) (h : ℕ) (t : Time)
      → m.cfg.hold_minutes ≡ pos h
      → 0 < h
      → h ≤ 153722867
      → (on_llm_rate_limited env model err m).1.switched ≡ true
      → t <ℤ env.now +ℤ pos (h * 60000000000)
      → should_probe t (on_llm_rate_limited env model err m).0 ≡ false
  no_probe_during_hold env model err m h t c p q s lt = not_before_hold t _ (
      let e : minutes m.cfg.hold_minutes ≡ pos (h * 60000000000) = rw c (minutes_lem h p q) in
      let k = switched_hold env model err m s in
      let k' : (env.now +ℤ pos (h * 60000000000))
          ≤ℤ (on_llm_rate_limited env model err m).0.fs.hold_until =
        rw e at k in
      omega arith)

  -- Successful probes at the given times.
  pub probes : List Env → Manager P → Manager P
  probes [] m = m
  probes (env ∷ envs) m = probes envs (run_probe env none m).0

  probe_below :
      (env : Env) (m : Manager P) (n limit : ℕ)
      → threshold m.cfg ≡ pos limit
      → limit < 9223372036854775808
      → m.fs.consecutive_probe_successes ≡ pos n
      → suc n < limit
      → let m' = (run_probe env none m).0 in
        (m'.fs.consecutive_probe_successes ≡ pos (suc n))
        × (m'.fs.active_model ≡ m.fs.active_model)
        × (m'.cfg ≡ m.cfg)
        × (m'.primary ≡ m.primary)
  unfolding run_probe record_probe_result probe_success persist_locked ◌+ℤ◌
  probe_below env m n limit c b e lt =
      let i : inc64 m.fs.consecutive_probe_successes ≡ pos (suc n) =
        rw e (inc64_lem (pos n) (omega arith) (omega arith) ∙ ground arith) in
      ground arith

  probe_at :
      (env : Env) (m : Manager P) (n : ℕ)
      → threshold m.cfg ≡ pos (suc n)
      → suc n < 9223372036854775808
      → m.cfg.switchback_requires_approval ≡ false
      → m.fs.consecutive_probe_successes ≡ pos n
      → let m' = (run_probe env none m).0 in
        (m'.fs.active_model ≡ m.primary) × (m'.fs.mode ≡ mode_normal)
  unfolding run_probe record_probe_result probe_success persist_locked ◌+ℤ◌
  probe_at env m n c b a e =
      let i : inc64 m.fs.consecutive_probe_successes ≡ pos (suc n) =
        rw e (inc64_lem (pos n) (omega arith) (omega arith) ∙ ground arith) in
      ground arith

  probes_below :
      (envs : List Env) (m : Manager P) (n limit : ℕ)
      → threshold m.cfg ≡ pos limit
      → limit < 9223372036854775808
      → m.fs.consecutive_probe_successes ≡ pos n
      → n + length envs < limit
      → let m' = probes envs m in
        (m'.fs.consecutive_probe_successes ≡ pos (n + length envs))
        × (m'.fs.active_model ≡ m.fs.active_model)
        × (m'.cfg ≡ m.cfg)
        × (m'.primary ≡ m.primary)
  unfolding probes
  probes_below [] m n limit c b e lt = (e ∙ ap pos (omega arith), refl, refl, refl)
  probes_below (env ∷ envs) m n limit c b e lt =
      let s = probe_below env m n limit c b e (omega arith) in
      let r =
        probes_below envs (run_probe env none m).0 (suc n) limit (rw (s.2) c) b (s.0)
          (omega arith) in
      (r.0 ∙ ap pos (omega arith), r.1 ∙ s.1, r.2 ∙ s.2, r.3 ∙ s.3)

  probes-append :
      (envs : List Env) (env : Env) (m : Manager P)
      → probes (envs ++ env ∷ []) m ≡ (run_probe env none (probes envs m)).0
  unfolding probes
  probes-append [] env m = refl
  probes-append (e ∷ envs) env m = probes-append envs env (run_probe e none m).0

  -- Without approval, a manager that has counted no success comes back to the primary with exactly as
  -- many successful probes in a row as the threshold says: with one less it uses the same model as
  -- before, and with the last it uses the primary, in normal mode.
  pub probes_to_switch_back :
      (envs : List Env) (env : Env) (m : Manager P)
      → threshold m.cfg ≡ pos (suc (length envs))
      → suc (length envs) < 9223372036854775808
      → m.cfg.switchback_requires_approval ≡ false
      → m.fs.consecutive_probe_successes ≡ pos 0
      → let before = probes envs m in
        let after = probes (envs ++ env ∷ []) m in
        (before.fs.active_model ≡ m.fs.active_model)
        × (after.fs.active_model ≡ m.primary)
        × (after.fs.mode ≡ mode_normal)
  probes_to_switch_back envs env m c b a z =
      let s = probes_below envs m 0 (suc (length envs)) c b z (omega arith) in
      let l =
        probe_at env (probes envs m) (length envs) (rw (s.2) c) b (rw (s.2) a)
          (s.0 ∙ ap pos (omega arith)) in
      (
        s.1,
        ap (λ (x : Manager P). x.fs.active_model) (probes-append envs env m) ∙ l.0 ∙ s.3,
        ap (λ (x : Manager P). x.fs.mode) (probes-append envs env m) ∙ l.1,
      )
