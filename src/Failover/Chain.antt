-- ===== src/Failover/Chain.antt =====
-- NewManager and normalizeFallbackChain of pkg/failover/manager.go.
use picoclaw.Prelude.{String, Bool, true, false, ◌&&◌, ◌||◌, List, [], ◌∷◌, str_eq, if◌then◌else◌}
use picoclaw.Prelude.Int.{pos, negsuc, eqb_ℤ}
use picoclaw.Prelude.Text.{trim_space}
use picoclaw.State
use picoclaw.State.{FailoverState, get_failover_state}
use picoclaw.Failover.{Config, Env, Manager, mode_normal, persist_locked}

unfoldable pub contains : String → List String → Bool
contains a [] = false
contains a (x ∷ xs) = let rest = contains a xs in if str_eq x a then true else rest

-- `seen` holds what has been appended to `result`, so the model keeps one list, in reverse.
unfoldable pub collect : String → List String → List String → List String
unfolding contains
collect primary seen [] = []
collect primary seen (raw ∷ chain) =
    let model = trim_space raw in
    let skipped = collect primary seen chain in
    let taken = model ∷ collect primary (model ∷ seen) chain in
    if str_eq model "" || str_eq model primary || contains model seen then skipped else taken

unfoldable pub use_single : List String → String → List String
use_single [] single = if str_eq (trim_space single) "" then [] else single ∷ []
use_single (x ∷ chain) single = x ∷ chain

unfoldable pub normalize_fallback_chain : String → List String → String → List String
unfolding use_single collect
normalize_fallback_chain primary chain single = collect primary [] (use_single chain single)

abbrev or_default : String → String → String
or_default s default = if str_eq s "" then default else s

fill_mode : FailoverState → FailoverState
fill_mode fs = record fs { mode = or_default fs.mode mode_normal }

fill_models : String → FailoverState → FailoverState
fill_models primary fs = record fs {
  primary_model = or_default fs.primary_model primary;
  active_model = or_default fs.active_model primary;
}

fill_index : String → FailoverState → FailoverState
fill_index primary fs =
    if eqb_ℤ fs.fallback_index (pos 0) && str_eq fs.active_model primary
    then record fs { fallback_index = negsuc 0 }
    else fs

-- The defaults that NewManager fills in, in its order.
unfoldable pub fill_defaults : String → FailoverState → FailoverState
unfolding fill_mode fill_models fill_index
fill_defaults primary fs = fill_index primary (fill_models primary (fill_mode fs))

unfoldable pub new_manager : {P : Type 0} → Env → Config → State.Manager → Manager P
new_manager env cfg sm = persist_locked env (record {
  cfg = cfg;
  state_mgr = sm;
  fs = fill_defaults cfg.model (get_failover_state sm);
  primary = cfg.model;
  fallbacks = normalize_fallback_chain cfg.model cfg.fallback_models cfg.fallback_model;
  providers = [];
})
