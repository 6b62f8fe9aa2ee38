-- ===== src/Failover/Routing.antt =====
-- The walk along the fallback chain of pkg/failover/manager.go, one rate limit after the other.
use picoclaw.Prelude.{
  ℕ, suc, ◌+◌, ◌<◌, String, ◌≡◌, ap, ◌∙◌, ◌≢◌, inl, inr, true, false, Option, some, List, [], ◌∷◌,
  arith, eq_iff, length, get_elem?, get_elem?-some, get_elem?-lt, get_elem?-none,
}
use picoclaw.Prelude.Int.{pos, inc64, inc64_lem, ◌+ℤ◌}
use picoclaw.Failover.{Env, Manager, LlmError, persist_locked, enabled}
use picoclaw.Failover.Ops.{at, next_index, refuse, degrade, advance, on_llm_rate_limited}
use picoclaw.Failover.Sound.{at-All}
use picoclaw.Failover.Invariant.{Inv, step-Inv}
use picoclaw.Failover.Machine.{step, rate_limit}

pub record Limit : Type 0 where
  pub env : Env
  pub model : String
  pub err : Option LlmError

module _ {P : Type 0} where
  off_primary :
      (m : Manager P) (i : ℕ)
      → Inv m
      → m.fs.fallback_index ≡ pos i
      → (m.fs.active_model ≢ m.primary) × (m.fs.active_model ≢ "")
  off_primary m i h p = elim h.sound.on_chain [
    | inl e ↦ absurd (cc)
    | inr e ↦ ((at-All m.fallbacks _ h.sound.fallbacks_fit e).1, h.sound.active_set)
  ]

  pub limit : Limit → Manager P → Manager P
  limit l m = (on_llm_rate_limited l.env l.model l.err m).0

  -- Rate limits one after the other, with any errors and any models reported.
  pub limits : List Limit → Manager P → Manager P
  limits [] m = m
  limits (l ∷ ls) m = limits ls (limit l m)

  abbrev Place : ℕ → Manager P → Type 0
  Place i m = (m.fs.fallback_index ≡ pos i) × (at m.fallbacks (pos i) ≡ some m.fs.active_model)

  first_limit :
      (l : Limit) (m : Manager P) (f : String)
      → enabled m ≡ true
      → Inv m
      → m.fs.active_model ≡ m.primary
      → get_elem? m.fallbacks 0 ≡ some f
      → let m' = limit l m in
        Place 0 m' × (m'.fallbacks ≡ m.fallbacks) × (m'.cfg ≡ m.cfg) × (m'.primary ≡ m.primary)
  unfolding limit on_llm_rate_limited refuse degrade advance persist_locked
  first_limit l m f on h e g =
      ground
        (arith, eq_iff m.fs.active_model "", h.sound.active_set, eq_iff m.fs.active_model m.primary)

  next_limit :
      (l : Limit) (m : Manager P) (i : ℕ) (f : String)
      → enabled m ≡ true
      → Inv m
      → Place i m
      → suc i < 9223372036854775808
      → get_elem? m.fallbacks (suc i) ≡ some f
      → let m' = limit l m in
        Place (suc i) m'
        × (m'.fallbacks ≡ m.fallbacks)
        × (m'.cfg ≡ m.cfg)
        × (m'.primary ≡ m.primary)
  unfolding limit on_llm_rate_limited refuse degrade advance next_index persist_locked ◌+ℤ◌
  next_limit l m i f on h p b g =
      let n : inc64 m.fs.fallback_index ≡ pos (suc i) =
        rw (p.0) (inc64_lem (pos i) (omega arith) (omega arith) ∙ ground arith) in
      ground (
        arith,
        eq_iff m.fs.active_model "",
        h.sound.active_set,
        (at-All m.fallbacks (pos i) h.sound.fallbacks_fit p.1).1,
        eq_iff m.fs.active_model m.primary,
      )

  limit-Inv : (l : Limit) (m : Manager P) → Inv m → Inv (limit l m)
  unfolding limit step
  limit-Inv l m h = step-Inv m (rate_limit l.env l.model l.err) h

  walk_on :
      (ls : List Limit) (m : Manager P) (i : ℕ) (f : String)
      → enabled m ≡ true
      → Inv m
      → Place i m
      → i + length ls < 9223372036854775808
      → get_elem? m.fallbacks (i + length ls) ≡ some f
      → ((limits ls m).fs.active_model ≡ f)
        × ((limits ls m).fs.fallback_index ≡ pos (i + length ls))
  unfolding limits
  walk_on [] m i f on h p b g =
      let z : i + 0 ≡ i = omega arith in
      let g' : get_elem? m.fallbacks i ≡ some f = rw z at g in (ground arith, ground arith)
  walk_on (l ∷ ls) m i f on h p b g =
      let z : i + suc (length ls) ≡ suc i + length ls = omega arith in
      let g' : get_elem? m.fallbacks (suc i + length ls) ≡ some f = rw z at g in
      let (x, e) =
        get_elem?-some m.fallbacks (suc i)
          (omega (arith, get_elem?-lt m.fallbacks (suc i + length ls) g')) in
      let s = next_limit l m i x on h p (omega arith) e in
      let r =
        walk_on ls (limit l m) (suc i) f (unfold enabled in rw (s.2) on) (limit-Inv l m h) (s.0)
          (omega arith) (rw (s.1) g') in
      (r.0, r.1 ∙ ap pos (omega arith))

  -- From the primary model the (n + 1)st rate limit in a row leads to the fallback number n of the
  -- chain, as long as the chain has one, whatever the errors say and whichever models they are
  -- reported for.
  pub limits_walk_chain :
      (l : Limit) (ls : List Limit) (m : Manager P) (f : String)
      → enabled m ≡ true
      → Inv m
      → m.fs.active_model ≡ m.primary
      → length ls < 9223372036854775808
      → get_elem? m.fallbacks (length ls) ≡ some f
      → let m' = limits (l ∷ ls) m in
        (m'.fs.active_model ≡ f) × (m'.fs.fallback_index ≡ pos (length ls))
  unfolding limits
  limits_walk_chain l ls m f on h e b g =
      let (x, k) =
        get_elem?-some m.fallbacks 0 (omega (arith, get_elem?-lt m.fallbacks (length ls) g)) in
      let s = first_limit l m x on h e k in
      let z : length ls ≡ 0 + length ls = omega arith in
      let r =
        walk_on ls (limit l m) 0 f (unfold enabled in rw (s.2) on) (limit-Inv l m h) (s.0)
          (omega arith) (rw (s.1) (rw z at g)) in
      (r.0, r.1 ∙ ap pos (omega arith))

  -- At the last fallback a further rate limit keeps the model and its index, and says so.
  pub limit_at_chain_end :
      (l : Limit) (m : Manager P) (i : ℕ)
      → enabled m ≡ true
      → Inv m
      → m.fs.fallback_index ≡ pos i
      → length m.fallbacks ≡ suc i
      → suc i < 9223372036854775808
      → let (m', ev) = on_llm_rate_limited l.env l.model l.err m in
        (m'.fs.active_model ≡ m.fs.active_model)
        × (m'.fs.fallback_index ≡ m.fs.fallback_index)
        × (m'.fs.mode ≡ m.fs.mode)
        × (ev.switched ≡ false)
        × (ev.reason ≡ "fallback_exhausted")
  unfolding on_llm_rate_limited refuse degrade advance next_index persist_locked ◌+ℤ◌
  limit_at_chain_end l m i on h p c b =
      let n : inc64 m.fs.fallback_index ≡ pos (suc i) =
        rw (p) (inc64_lem (pos i) (omega arith) (omega arith) ∙ ground arith) in
      let o = off_primary m i h p in
      let q = get_elem?-none m.fallbacks (suc i) (omega arith) in
      ground (arith, eq_iff m.fs.active_model "", eq_iff m.fs.active_model m.primary)
