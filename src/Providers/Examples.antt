-- ===== src/Providers/Examples.antt =====
-- The theorems about the choice of a provider at concrete configurations.
use picoclaw.Prelude.{◌≡◌, refl, inl, [], ◌∷◌}
use picoclaw.Prelude.Text.{concat}
use picoclaw.Prelude.Strings.{to_lower}
use picoclaw.Auth.{missing}
use picoclaw.Providers.{
  ProviderConfig, Config, or_default, configured, create_provider_with_selection,
  create_provider_for_model,
}
use picoclaw.Providers.Keys.{IsOwn, create_provider_with_selection-IsOwn}
use picoclaw.Providers.Prefixes.{anthropic_prefix_fails}

abbrev unset_provider : ProviderConfig
unset_provider = record {
  api_key = "";
  api_base = "";
  proxy = "";
  auth_method = "";
  connect_mode = "";
}

abbrev config : Config
config = record {
  anthropic = record unset_provider { api_key = "sk-ant" };
  open_ai = unset_provider;
  open_router = unset_provider;
  groq = record unset_provider { api_key = "gsk" };
  zhipu = unset_provider;
  vllm = unset_provider;
  gemini = unset_provider;
  nvidia = unset_provider;
  moonshot = unset_provider;
  sheng_suan_yun = unset_provider;
  deep_seek = unset_provider;
  git_hub_copilot = unset_provider;
  workspace = "";
}

create_provider_with_selection-IsOwn_example :
    IsOwn config "llama-3" "gsk" "https://api.groq.com/openai/v1" ""
unfolding create_provider_with_selection configured to_lower or_default
create_provider_with_selection-IsOwn_example =
    create_provider_with_selection-IsOwn config missing "llama-3" "Groq" "gsk"
      "https://api.groq.com/openai/v1" "" refl

anthropic_prefix_fails_example :
    create_provider_for_model config missing "anthropic/claude-opus-4"
    ≡ inl (
        concat
          ("no API key configured for provider (model: " ∷ "anthropic/claude-opus-4" ∷ ")" ∷ []))
anthropic_prefix_fails_example =
    anthropic_prefix_fails config missing "anthropic/claude-opus-4" refl refl refl refl
