-- ===== src/Failover/Chains.antt =====
-- normalizeFallbackChain and NewManager of pkg/failover/manager.go.
use picoclaw.Prelude.{
  String, ◌≡◌, refl, ◌≢◌, inl, inr, true, false, ◌||◌, List, [], ◌∷◌, arith, str_eq, eq_iff,
  eq_refl, Bool-cases, All,
}
use picoclaw.Prelude.Text.{trim_space}
use picoclaw.State
use picoclaw.State.{FailoverState, zero_failover}
use picoclaw.Failover.{Config, Env, mode_normal}
use picoclaw.Failover.Chain.{
  contains, collect, use_single, normalize_fallback_chain, fill_defaults, new_manager,
}
use picoclaw.Failover.Sound.{Sound}
use picoclaw.Failover.Invariant.{Inv, persist-Inv}
use picoclaw.Failover.Machine.{Event, run}
use picoclaw.Failover.Invariant.{run-Inv}

-- A list without repetitions, read by the program's own test.
abbrev pub Distinct : List String → Type 0
Distinct [] = Unit
Distinct (x ∷ xs) = (contains x xs ≡ false) × Distinct xs

-- What may stand in a chain behind the models of `seen`.
abbrev Fits : String → List String → String → Type 0
Fits primary seen x = (x ≢ "") × (x ≢ primary) × (contains x seen ≡ false)

contains-cons :
    (a x : String) (xs : List String) → contains a (x ∷ xs) ≡ false → contains a xs ≡ false
unfolding contains
contains-cons a x xs h = ground arith

All-weaken :
    (primary : String) (a : String) (seen xs : List String)
    → All (Fits primary (a ∷ seen)) xs
    → All (Fits primary seen) xs
All-weaken primary a seen [] h = tt
All-weaken primary a seen (x ∷ xs) h =
    ((h.0.0, h.0.1, contains-cons x a seen h.0.2), All-weaken primary a seen xs h.1)

-- If nothing of a list equals one of the seen, the seen model is not in the list.
not-contains_of_Fits :
    (primary a : String) (seen xs : List String)
    → All (Fits primary (a ∷ seen)) xs
    → contains a xs ≡ false
unfolding contains
not-contains_of_Fits primary a seen [] h = refl
not-contains_of_Fits primary a seen (x ∷ xs) h =
    ground (arith, not-contains_of_Fits primary a seen xs h.1, eq_iff x a, eq_iff a x, h.0.2)

collect_lem :
    (primary : String) (seen chain : List String)
    → All (Fits primary seen) (collect primary seen chain) × Distinct (collect primary seen chain)
unfolding collect
collect_lem primary seen [] = (tt, tt)
collect_lem primary seen (raw ∷ chain) =
    elim (Bool-cases (
      str_eq (trim_space raw) ""
      || str_eq (trim_space raw) primary
      || contains (trim_space raw) seen)) [
        | inl skip ↦ rw skip (collect_lem primary seen chain)
        | inr fresh ↦ rw fresh (
            let ih = collect_lem primary (trim_space raw ∷ seen) chain in
            (
              (
                ground (arith, eq_iff (trim_space raw) "", eq_iff (trim_space raw) primary),
                All-weaken primary (trim_space raw) seen _ ih.0,
              ),
              (not-contains_of_Fits primary (trim_space raw) seen _ ih.0, ih.1),
            ))
      ]

contains-collect :
    (primary : String) (seen chain : List String) (raw : String)
    → contains raw chain ≡ true
    → trim_space raw ≢ ""
    → trim_space raw ≢ primary
    → contains (trim_space raw) seen ≡ false
    → contains (trim_space raw) (collect primary seen chain) ≡ true
unfolding collect contains
contains-collect primary seen [] raw h e p s = cc
contains-collect primary seen (r ∷ chain) raw h e p s = ground (
  arith,
  eq_iff r raw,
  eq_iff (trim_space r) "",
  eq_iff (trim_space r) primary,
  eq_iff (trim_space r) (trim_space raw),
  contains-collect primary seen chain raw,
  contains-collect primary (trim_space r ∷ seen) chain raw,
)

All-Fits-nil :
    (primary : String) (xs : List String)
    → All (Fits primary []) xs
    → All (λ x. (x ≢ "") × (x ≢ primary)) xs
All-Fits-nil primary [] h = tt
All-Fits-nil primary (x ∷ xs) h = ((h.0.0, h.0.1), All-Fits-nil primary xs h.1)

-- The chain that the manager falls back along has no repetition, no empty model and not the primary.
pub normalize_fallback_chain_lem :
    (primary : String) (chain : List String) (single : String)
    → let ms = normalize_fallback_chain primary chain single in
      All (λ x. (x ≢ "") × (x ≢ primary)) ms × Distinct ms
unfolding normalize_fallback_chain
normalize_fallback_chain_lem primary chain single =
    let h = collect_lem primary [] (use_single chain single) in (All-Fits-nil primary _ h.0, h.1)

-- A configured fallback that is not blank and not the primary is in the chain, without its outer spaces.
pub contains-normalize_fallback_chain :
    (primary : String) (chain : List String) (single raw : String)
    → contains raw chain ≡ true
    → trim_space raw ≢ ""
    → trim_space raw ≢ primary
    → contains (trim_space raw) (normalize_fallback_chain primary chain single) ≡ true
unfolding normalize_fallback_chain contains
contains-normalize_fallback_chain primary [] single raw h e p = cc
contains-normalize_fallback_chain primary (x ∷ chain) single raw h e p =
    contains-collect primary [] (x ∷ chain) raw h e p refl

normal_mode_set : ◌≢◌ {A = String} mode_normal ""
normal_mode_set = ground (arith, eq_iff "normal" "")

fill_defaults-zero :
    (primary : String) (fb : List String)
    → primary ≢ ""
    → All (λ x. (x ≢ "") × (x ≢ primary)) fb
    → Sound primary fb (fill_defaults primary zero_failover)
unfolding fill_defaults
fill_defaults-zero primary fb p f = rw eq_refl (record {
  on_chain = inl (refl, refl);
  normal_primary = λ n. refl;
  active_set = p;
  primary_set = p;
  mode_set = normal_mode_set;
  primary_model_set = p;
  fallbacks_fit = f;
})

-- A manager made on a state file without a failover state satisfies the invariant, and so does
-- every manager that operations lead to from there.
pub new_manager-run-Inv :
    {P : Type 0} (env : Env) (cfg : Config) (sm : State.Manager) (es : List (Event P))
    → cfg.model ≢ ""
    → sm.state.failover ≡ zero_failover
    → Inv (run (new_manager env cfg sm) es)
unfolding new_manager
new_manager-run-Inv env cfg sm es p z = run-Inv _ es (
    persist-Inv env _ (
      rw z (
        fill_defaults-zero cfg.model _ p
          (normalize_fallback_chain_lem cfg.model cfg.fallback_models cfg.fallback_model).0)))
