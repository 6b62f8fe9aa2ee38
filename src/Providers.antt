-- ===== src/Providers.antt =====
-- The choice of a provider by pkg/providers/http_provider.go. What each constructor is given makes a
-- `Provider`; the constructor of the GitHub Copilot provider may itself fail, which is left to it.
pub mod Request
pub mod Chat
pub mod Keys
pub mod Prefixes
mod Examples
use picoclaw.Prelude.{
  ◌-◌, ◌/◌, String, ◌⊎◌, inl, inr, Bool, true, false, not, ◌&&◌, ◌||◌, Option, none, some, List, [],
  ◌∷◌, str_eq, if◌then◌else◌, any,
}
use package.text.Mathlib.Text.{starts_with}
use picoclaw.Prelude.Text.{concat}
use picoclaw.Prelude.Strings.{contains, to_lower}
use picoclaw.Auth.{AuthCredential, AuthFile, AuthError, get_credential}

pub record ProviderConfig : Type 0 where
  pub api_key : String
  pub api_base : String
  pub proxy : String
  pub auth_method : String
  pub connect_mode : String

-- The parts of the configuration that are read: its providers and the workspace of the agent.
pub record Config : Type 0 where
  pub anthropic : ProviderConfig
  pub open_ai : ProviderConfig
  pub open_router : ProviderConfig
  pub groq : ProviderConfig
  pub zhipu : ProviderConfig
  pub vllm : ProviderConfig
  pub gemini : ProviderConfig
  pub nvidia : ProviderConfig
  pub moonshot : ProviderConfig
  pub sheng_suan_yun : ProviderConfig
  pub deep_seek : ProviderConfig
  pub git_hub_copilot : ProviderConfig
  pub workspace : String

pub data Provider : Type 0 where
  http_provider : String → String → String → Provider
  claude_provider : Bool → String → Provider
  codex_provider : String → String → Provider
  claude_cli_provider : String → Provider
  copilot_provider : String → String → String → Provider

-- `uses p base proxied`: the key of `p`, its base or else `base`, and its proxy if `proxied`; `unset`
-- leaves both the key and the base empty.
pub data Selection : Type 0 where
  uses : ProviderConfig → String → Bool → Selection
  ready : String ⊎ Provider → Selection
  unset : Selection

unfoldable pub or_default : String → String → String
or_default s default = if str_eq s "" then default else s

by_credential :
    String → (AuthCredential → Provider) → AuthError ⊎ Option AuthCredential → String ⊎ Provider
by_credential name make (inl e) = inl "loading auth credentials"
by_credential name make (inr none) =
    inl
      (concat ("no credentials for " ∷ name ∷ ". Run: picoclaw auth login --provider " ∷ name ∷ []))
by_credential name make (inr (some c)) = inr (make c)

-- The text of an error of the file of credentials is left out.
unfoldable pub create_claude_auth_provider : AuthFile → String ⊎ Provider
unfolding by_credential
create_claude_auth_provider f =
    by_credential "anthropic"
      (λ c.
        claude_provider (str_eq c.auth_method "oauth" || str_eq c.auth_method "setup-token")
          c.access_token)
      (get_credential "anthropic" f)

unfoldable pub create_codex_auth_provider : AuthFile → String ⊎ Provider
unfolding by_credential
create_codex_auth_provider f =
    by_credential "openai" (λ c. codex_provider c.access_token c.account_id)
      (get_credential "openai" f)

abbrev is_one_of : String → List String → Bool
is_one_of s names = any (str_eq s) names

abbrev has_access : ProviderConfig → Bool
has_access p = not (str_eq p.api_key "") || not (str_eq p.auth_method "")

abbrev if_keyed : ProviderConfig → String → Selection
if_keyed p base = if not (str_eq p.api_key "") then uses p base false else unset

module _ (cfg : Config) (f : AuthFile) where
  openai_access : Bool → Selection
  openai_access proxied =
      if is_one_of cfg.open_ai.auth_method ("oauth" ∷ "token" ∷ [])
      then ready (create_codex_auth_provider f)
      else uses cfg.open_ai "https://api.openai.com/v1" proxied

  anthropic_access : Bool → Selection
  anthropic_access proxied =
      if is_one_of cfg.anthropic.auth_method ("oauth" ∷ "token" ∷ "setup-token" ∷ [])
      then ready (create_claude_auth_provider f)
      else uses cfg.anthropic "https://api.anthropic.com/v1" proxied

  -- The provider that is configured by name. The new name that deepseek gives to a model is read by
  -- nothing afterwards.
  unfoldable pub configured : String → String → Selection
  unfolding openai_access anthropic_access
  configured model name =
      if str_eq name "groq"
      then if_keyed cfg.groq "https://api.groq.com/openai/v1"
      else if is_one_of name ("openai" ∷ "gpt" ∷ [])
      then (if has_access cfg.open_ai then openai_access false else unset)
      else if is_one_of name ("anthropic" ∷ "claude" ∷ [])
      then (if has_access cfg.anthropic then anthropic_access false else unset)
      else if str_eq name "openrouter"
      then if_keyed cfg.open_router "https://openrouter.ai/api/v1"
      else if is_one_of name ("zhipu" ∷ "glm" ∷ [])
      then if_keyed cfg.zhipu "https://open.bigmodel.cn/api/paas/v4"
      else if is_one_of name ("gemini" ∷ "google" ∷ [])
      then if_keyed cfg.gemini "https://generativelanguage.googleapis.com/v1beta"
      else if str_eq name "vllm"
      then (if not (str_eq cfg.vllm.api_base "") then uses cfg.vllm "" false else unset)
      else if str_eq name "shengsuanyun"
      then if_keyed cfg.sheng_suan_yun "https://router.shengsuanyun.com/api/v1"
      else if is_one_of name ("claude-cli" ∷ "claudecode" ∷ "claude-code" ∷ [])
      then ready (inr (claude_cli_provider (or_default cfg.workspace ".")))
      else if str_eq name "deepseek"
      then if_keyed cfg.deep_seek "https://api.deepseek.com/v1"
      else if is_one_of name ("github_copilot" ∷ "copilot" ∷ [])
      then ready (
          inr (
            copilot_provider (or_default cfg.git_hub_copilot.api_base "localhost:4321")
              cfg.git_hub_copilot.connect_mode model))
      else unset

  keyed : ProviderConfig → Bool
  keyed p = not (str_eq p.api_key "")

  -- The provider that the name of a model gives.
  unfoldable pub detected : String → Selection
  unfolding openai_access anthropic_access keyed
  detected model =
      let lower = to_lower model in
      if (contains lower "kimi" || contains lower "moonshot" || starts_with model "moonshot/")
        && keyed cfg.moonshot
      then uses cfg.moonshot "https://api.moonshot.cn/v1" true
      else if any (starts_with model)
          ("openrouter/" ∷ "anthropic/" ∷ "openai/" ∷ "meta-llama/" ∷ "deepseek/" ∷ "google/" ∷ [])
      then uses cfg.open_router "https://openrouter.ai/api/v1" true
      else if (contains lower "claude" || starts_with model "anthropic/")
          && has_access cfg.anthropic
      then anthropic_access true
      else if (contains lower "gpt" || starts_with model "openai/") && has_access cfg.open_ai
      then openai_access true
      else if (contains lower "gemini" || starts_with model "google/") && keyed cfg.gemini
      then uses cfg.gemini "https://generativelanguage.googleapis.com/v1beta" true
      else if (contains lower "glm" || contains lower "zhipu" || contains lower "zai")
          && keyed cfg.zhipu
      then uses cfg.zhipu "https://open.bigmodel.cn/api/paas/v4" true
      else if (contains lower "groq" || starts_with model "groq/") && keyed cfg.groq
      then uses cfg.groq "https://api.groq.com/openai/v1" true
      else if (contains lower "nvidia" || starts_with model "nvidia/") && keyed cfg.nvidia
      then uses cfg.nvidia "https://integrate.api.nvidia.com/v1" true
      else if not (str_eq cfg.vllm.api_base "")
      then uses cfg.vllm "" true
      else if keyed cfg.open_router
      then uses cfg.open_router "https://openrouter.ai/api/v1" true
      else ready (inl (concat ("no API key configured for model: " ∷ model ∷ [])))

  made : String → Selection → String ⊎ Provider
  made model unset = inl (concat ("no API key configured for model: " ∷ model ∷ []))
  made model (ready r) = r
  made model (uses p base proxied) =
      if str_eq p.api_key "" && not (starts_with model "bedrock/")
      then inl (concat ("no API key configured for provider (model: " ∷ model ∷ ")" ∷ []))
      else if str_eq (or_default p.api_base base) ""
      then inl (concat ("no API base configured for provider (model: " ∷ model ∷ ")" ∷ []))
      else inr
          (http_provider p.api_key (or_default p.api_base base) (if proxied then p.proxy else ""))

  or_detected : String → Selection → Selection
  or_detected model unset = detected model
  or_detected model (ready r) = ready r
  or_detected model (uses p base proxied) = uses p base proxied

  unfoldable pub create_provider_with_selection : String → String → String ⊎ Provider
  unfolding made or_detected
  create_provider_with_selection model provider =
      made model (or_detected model (configured model (to_lower provider)))

  -- CreateProviderForModel, by which failover makes the providers of its models.
  unfoldable pub create_provider_for_model : String → String ⊎ Provider
  create_provider_for_model model = create_provider_with_selection model ""
