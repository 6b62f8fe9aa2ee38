-- ===== src/Failover/Sound.antt =====
-- The well-formed states of pkg/failover/manager.go, and the changes that keep them so.
use picoclaw.Prelude.{
  ℕ, zero, suc, String, ◌≡◌, refl, sym, ◌∙◌, ◌≢◌, ◌⊎◌, inl, inr, Option, none, some, List, [], ◌∷◌,
  arith, eq_iff, Bool-cases, get_elem?, All,
}
use picoclaw.Prelude.Int.{ℤ, pos, negsuc, inc64, leb_ℤ}
use picoclaw.State.{FailoverState}
use picoclaw.Failover.{Env, Config, LlmError, rate_limited, other_error, mode_normal}
use picoclaw.Failover.Ops.{at}
use picoclaw.Failover.Probe.{threshold, probe_success, probe_failure}

-- What holds of the state, for a primary model and a chain of fallbacks. The model in use is the
-- primary, at index -1, or the fallback at its index; in normal mode it is the primary.
pub record Sound (primary : String) (fallbacks : List String) (fs : FailoverState) : Type 0 where
  pub on_chain :
      ((fs.active_model ≡ primary) × (fs.fallback_index ≡ negsuc 0))
      ⊎ (at fallbacks fs.fallback_index ≡ some fs.active_model)
  pub normal_primary : fs.mode ≡ mode_normal → fs.active_model ≡ primary
  pub active_set : fs.active_model ≢ ""
  pub primary_set : primary ≢ ""
  pub mode_set : fs.mode ≢ ""
  pub primary_model_set : fs.primary_model ≢ ""
  pub fallbacks_fit : All (λ f. (f ≢ "") × (f ≢ primary)) fallbacks

get_elem?-All :
    {p : String} (xs : List String) (i : ℕ) {x : String}
    → All (λ f. (f ≢ "") × (f ≢ p)) xs
    → get_elem? xs i ≡ some x
    → (x ≢ "") × (x ≢ p)
get_elem?-All [] i h e = cc
get_elem?-All (y ∷ ys) zero h e = (λ q. h.0.0 (cc), λ q. h.0.1 (cc))
get_elem?-All (y ∷ ys) (suc i) h e = get_elem?-All ys i h.1 e

pub at-All :
    {p : String} (xs : List String) (i : ℤ) {x : String}
    → All (λ f. (f ≢ "") × (f ≢ p)) xs
    → at xs i ≡ some x
    → (x ≢ "") × (x ≢ p)
at-All xs (pos i) h e = get_elem?-All xs i h e
at-All xs (negsuc i) h e = cc

-- A mode other than the normal one.
abbrev pub IsAlert : String → Type 0
IsAlert mode = (mode ≢ mode_normal) × (mode ≢ "")

pub degraded-IsAlert : IsAlert "degraded"
degraded-IsAlert =
    (ground (arith, eq_iff "degraded" "normal"), ground (arith, eq_iff "degraded" ""))

pub awaiting-IsAlert : IsAlert "awaiting_user_switchback"
awaiting-IsAlert = (
  ground (arith, eq_iff "awaiting_user_switchback" "normal"),
  ground (arith, eq_iff "awaiting_user_switchback" ""),
)

normal≢empty : ◌≢◌ {A = String} "normal" ""
normal≢empty = ground (arith, eq_iff "normal" "")

module _ (p : String) (fb : List String) where
  -- Changing nothing but notes, times and counts.
  pub Sound-reroute :
      (fs gs : FailoverState)
      → Sound p fb fs
      → gs.active_model ≡ fs.active_model
      → gs.fallback_index ≡ fs.fallback_index
      → gs.mode ≡ fs.mode
      → gs.primary_model ≡ fs.primary_model
      → Sound p fb gs
  Sound-reroute fs gs h a i m q = record {
    on_chain = rw (a, i) h.on_chain;
    normal_primary = λ n. a ∙ h.normal_primary (sym m ∙ n);
    active_set = λ e. h.active_set (sym a ∙ e);
    primary_set = h.primary_set;
    mode_set = λ e. h.mode_set (sym m ∙ e);
    primary_model_set = λ e. h.primary_model_set (sym q ∙ e);
    fallbacks_fit = h.fallbacks_fit;
  }

  pub Sound-abnormal :
      (fs gs : FailoverState)
      → Sound p fb fs
      → gs.active_model ≡ fs.active_model
      → gs.fallback_index ≡ fs.fallback_index
      → IsAlert gs.mode
      → gs.primary_model ≡ fs.primary_model
      → Sound p fb gs
  Sound-abnormal fs gs h a i m q = record {
    on_chain = rw (a, i) h.on_chain;
    normal_primary = λ n. absurd (m.0 n);
    active_set = λ e. h.active_set (sym a ∙ e);
    primary_set = h.primary_set;
    mode_set = m.1;
    primary_model_set = λ e. h.primary_model_set (sym q ∙ e);
    fallbacks_fit = h.fallbacks_fit;
  }

  pub Sound-primary :
      (fs gs : FailoverState)
      → Sound p fb fs
      → gs.active_model ≡ p
      → gs.fallback_index ≡ negsuc 0
      → gs.mode ≡ mode_normal
      → gs.primary_model ≡ fs.primary_model
      → Sound p fb gs
  Sound-primary fs gs h a i m q = record {
    on_chain = inl (a, i);
    normal_primary = λ n. a;
    active_set = λ e. h.primary_set (sym a ∙ e);
    primary_set = h.primary_set;
    mode_set = λ e. normal≢empty (sym m ∙ e);
    primary_model_set = λ e. h.primary_model_set (sym q ∙ e);
    fallbacks_fit = h.fallbacks_fit;
  }

  pub Sound-fallback :
      (fs gs : FailoverState)
      → Sound p fb fs
      → at fb gs.fallback_index ≡ some gs.active_model
      → IsAlert gs.mode
      → gs.primary_model ≡ p
      → Sound p fb gs
  Sound-fallback fs gs h a m q = record {
    on_chain = inr a;
    normal_primary = λ n. absurd (m.0 n);
    active_set = (at-All fb gs.fallback_index h.fallbacks_fit a).0;
    primary_set = h.primary_set;
    mode_set = m.1;
    primary_model_set = λ e. h.primary_set (sym q ∙ e);
    fallbacks_fit = h.fallbacks_fit;
  }

pub probe_success-Sound :
    (env : Env) (cfg : Config) (p : String) (fb : List String) (fs : FailoverState)
    → Sound p fb fs
    → Sound p fb (probe_success env cfg p fs)
unfolding probe_success
probe_success-Sound env cfg p fb fs h =
    elim (Bool-cases (leb_ℤ (threshold cfg) (inc64 fs.consecutive_probe_successes))) [
      | inl healthy ↦ elim (Bool-cases cfg.switchback_requires_approval) [
        | inl ask ↦ rw (healthy, ask) (Sound-abnormal p fb fs _ h refl refl awaiting-IsAlert refl)
        | inr auto ↦ rw (healthy, auto) (Sound-primary p fb fs _ h refl refl refl refl)
      ]
      | inr counting ↦ rw counting (Sound-reroute p fb fs _ h refl refl refl refl)
    ]

pub probe_failure-Sound :
    (env : Env) (cfg : Config) (err : Option LlmError) (p : String) (fb : List String)
    (fs : FailoverState)
    → Sound p fb fs
    → Sound p fb (probe_failure env cfg err fs)
unfolding probe_failure
probe_failure-Sound env cfg none p fb fs h =
    Sound-abnormal p fb fs _ h refl refl degraded-IsAlert refl
probe_failure-Sound env cfg (some (rate_limited rl)) p fb fs h =
    Sound-abnormal p fb fs _ h refl refl degraded-IsAlert refl
probe_failure-Sound env cfg (some (other_error s)) p fb fs h =
    Sound-abnormal p fb fs _ h refl refl degraded-IsAlert refl
