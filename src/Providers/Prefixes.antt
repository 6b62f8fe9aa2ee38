-- ===== src/Providers/Prefixes.antt =====
-- The prefixes of model names in pkg/providers/http_provider.go, and the keys that they ask for.
use picoclaw.Prelude.{
  String, ◌≡◌, refl, ap, inl, inr, Bool, true, false, not, ◌&&◌, [], ◌∷◌, str_eq, Bool-cases,
}
use package.text.Mathlib.Text.{starts_with}
use picoclaw.Prelude.Text.{concat}
use picoclaw.Prelude.Strings.{to_lower}
use picoclaw.Auth.{AuthFile}
use picoclaw.Providers.{
  Config, uses, configured, detected, made, or_detected, create_provider_with_selection,
  create_provider_for_model,
}

and_false : (a : Bool) → (a && false) ≡ false
and_false true = refl
and_false false = refl

detected_router :
    (cfg : Config) (f : AuthFile) (model : String)
    → cfg.moonshot.api_key ≡ ""
    → starts_with model "anthropic/" ≡ true
    → detected cfg f model ≡ uses cfg.open_router "https://openrouter.ai/api/v1" true
unfolding detected
detected_router cfg f model no_moonshot prefix =
    let unkeyed = ap (λ k. not (str_eq k "")) no_moonshot in
    elim (Bool-cases (starts_with model "openrouter/")) [
      | inl e ↦ rw (unkeyed, and_false _, e) refl
      | inr e ↦ rw (unkeyed, and_false _, e, prefix) refl
    ]

-- Without a key for OpenRouter, and without one for Moonshot, failover makes no provider for a model whose
-- name begins with "anthropic/", whatever credentials for Anthropic there are.
pub anthropic_prefix_fails :
    (cfg : Config) (f : AuthFile) (model : String)
    → cfg.open_router.api_key ≡ ""
    → cfg.moonshot.api_key ≡ ""
    → starts_with model "anthropic/" ≡ true
    → starts_with model "bedrock/" ≡ false
    → create_provider_for_model cfg f model
      ≡ inl (concat ("no API key configured for provider (model: " ∷ model ∷ ")" ∷ []))
unfolding create_provider_for_model create_provider_with_selection configured to_lower made
    or_detected
anthropic_prefix_fails cfg f model no_router no_moonshot prefix other =
    let unkeyed = ap (λ k. str_eq k "") no_router in
    rw (detected_router cfg f model no_moonshot prefix) (rw (unkeyed, other) refl)
