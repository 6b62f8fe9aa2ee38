-- ===== src/Providers/Keys.antt =====
-- Which keys the providers of pkg/providers/http_provider.go are made with.
use picoclaw.Prelude.{
  ℕ, String, ◌≡◌, refl, ◌⊎◌, inl, inr, Bool, true, false, not, ◌&&◌, Option, none, some, List, [],
  ◌∷◌, arith, str_eq, if◌then◌else◌, get_elem?,
}
use package.text.Mathlib.Text.{starts_with}
use picoclaw.Prelude.Strings.{to_lower}
use picoclaw.Auth.{AuthFile, AuthError, AuthCredential, get_credential}
use picoclaw.Providers.{
  ProviderConfig, Config, Provider, http_provider, claude_provider, codex_provider,
  claude_cli_provider, copilot_provider, Selection, uses, ready, unset, or_default, by_credential,
  create_claude_auth_provider, create_codex_auth_provider, openai_access, anthropic_access,
  configured, detected, made, or_detected, create_provider_with_selection,
}

-- The providers that speak HTTP, each with the address that it has by default.
abbrev pub known : Config → List (ProviderConfig × String)
known cfg =
    (cfg.open_ai, "https://api.openai.com/v1")
    ∷ (cfg.anthropic, "https://api.anthropic.com/v1")
    ∷ (cfg.groq, "https://api.groq.com/openai/v1")
    ∷ (cfg.open_router, "https://openrouter.ai/api/v1")
    ∷ (cfg.zhipu, "https://open.bigmodel.cn/api/paas/v4")
    ∷ (cfg.gemini, "https://generativelanguage.googleapis.com/v1beta")
    ∷ (cfg.vllm, "")
    ∷ (cfg.sheng_suan_yun, "https://router.shengsuanyun.com/api/v1")
    ∷ (cfg.deep_seek, "https://api.deepseek.com/v1")
    ∷ (cfg.moonshot, "https://api.moonshot.cn/v1")
    ∷ (cfg.nvidia, "https://integrate.api.nvidia.com/v1")
    ∷ []

-- A key goes to the address of its own provider, configured or by default, and through its own proxy or
-- none; without a key, only a model of bedrock is served.
pub record IsOwn (cfg : Config) (model key base proxy : String) : Type 0 where
  pub place : ℕ
  pub owner : ProviderConfig
  pub default : String
  pub is_known : get_elem? (known cfg) place ≡ some (owner, default)
  pub own_key : key ≡ owner.api_key
  pub own_base : base ≡ or_default owner.api_base default
  pub own_proxy : (proxy ≡ "") ⊎ (proxy ≡ owner.proxy)
  pub has_base : str_eq base "" ≡ false
  pub has_key : (str_eq key "" && not (starts_with model "bedrock/")) ≡ false

abbrev is_http : String ⊎ Provider → Bool
is_http (inl e) = false
is_http (inr (http_provider key base proxy)) = true
is_http (inr (claude_provider bearer token)) = false
is_http (inr (codex_provider token account)) = false
is_http (inr (claude_cli_provider workspace)) = false
is_http (inr (copilot_provider base mode model)) = false

data IsFair (cfg : Config) : Selection → Type 0 where
  fair_uses :
      (i : ℕ) {p : ProviderConfig} {base : String} {proxied : Bool}
      → get_elem? (known cfg) i ≡ some (p, base)
      → IsFair cfg (uses p base proxied)
  fair_ready : {r : String ⊎ Provider} → is_http r ≡ false → IsFair cfg (ready r)
  fair_unset : IsFair cfg unset

either : (P : Selection → Type 0) (b : Bool) {x y : Selection} → P x → P y → P (if b then x else y)
either P true p q = p
either P false p q = q

is_http-by_credential :
    (name : String) (make : AuthCredential → Provider) (r : AuthError ⊎ Option AuthCredential)
    → ((c : AuthCredential) → is_http (inr (make c)) ≡ false)
    → is_http (by_credential name make r) ≡ false
unfolding by_credential
is_http-by_credential name make (inl e) h = refl
is_http-by_credential name make (inr none) h = refl
is_http-by_credential name make (inr (some c)) h = h c

module _ (cfg : Config) (f : AuthFile) where
  openai_access-IsFair : (proxied : Bool) → IsFair cfg (openai_access cfg f proxied)
  unfolding openai_access create_codex_auth_provider
  openai_access-IsFair proxied =
      either (IsFair cfg) _
        (fair_ready (is_http-by_credential _ _ (get_credential "openai" f) (λ c. refl)))
        (fair_uses 0 refl)

  anthropic_access-IsFair : (proxied : Bool) → IsFair cfg (anthropic_access cfg f proxied)
  unfolding anthropic_access create_claude_auth_provider
  anthropic_access-IsFair proxied =
      either (IsFair cfg) _
        (fair_ready (is_http-by_credential _ _ (get_credential "anthropic" f) (λ c. refl)))
        (fair_uses 1 refl)

  open_ai-IsFair :
      (proxied : Bool) → IsFair cfg (uses cfg.open_ai "https://api.openai.com/v1" proxied)
  open_ai-IsFair proxied = fair_uses 0 refl

  anthropic-IsFair :
      (proxied : Bool) → IsFair cfg (uses cfg.anthropic "https://api.anthropic.com/v1" proxied)
  anthropic-IsFair proxied = fair_uses 1 refl

  groq-IsFair :
      (proxied : Bool) → IsFair cfg (uses cfg.groq "https://api.groq.com/openai/v1" proxied)
  groq-IsFair proxied = fair_uses 2 refl

  open_router-IsFair :
      (proxied : Bool) → IsFair cfg (uses cfg.open_router "https://openrouter.ai/api/v1" proxied)
  open_router-IsFair proxied = fair_uses 3 refl

  zhipu-IsFair :
      (proxied : Bool) → IsFair cfg (uses cfg.zhipu "https://open.bigmodel.cn/api/paas/v4" proxied)
  zhipu-IsFair proxied = fair_uses 4 refl

  gemini-IsFair :
      (proxied : Bool)
      → IsFair cfg (uses cfg.gemini "https://generativelanguage.googleapis.com/v1beta" proxied)
  gemini-IsFair proxied = fair_uses 5 refl

  vllm-IsFair : (proxied : Bool) → IsFair cfg (uses cfg.vllm "" proxied)
  vllm-IsFair proxied = fair_uses 6 refl

  sheng_suan_yun-IsFair :
      (proxied : Bool)
      → IsFair cfg (uses cfg.sheng_suan_yun "https://router.shengsuanyun.com/api/v1" proxied)
  sheng_suan_yun-IsFair proxied = fair_uses 7 refl

  deep_seek-IsFair :
      (proxied : Bool) → IsFair cfg (uses cfg.deep_seek "https://api.deepseek.com/v1" proxied)
  deep_seek-IsFair proxied = fair_uses 8 refl

  moonshot-IsFair :
      (proxied : Bool) → IsFair cfg (uses cfg.moonshot "https://api.moonshot.cn/v1" proxied)
  moonshot-IsFair proxied = fair_uses 9 refl

  nvidia-IsFair :
      (proxied : Bool) → IsFair cfg (uses cfg.nvidia "https://integrate.api.nvidia.com/v1" proxied)
  nvidia-IsFair proxied = fair_uses 10 refl

  error-IsFair : (e : String) → IsFair cfg (ready (inl e))
  error-IsFair e = fair_ready refl

  cli-IsFair : (w : String) → IsFair cfg (ready (inr (claude_cli_provider w)))
  cli-IsFair w = fair_ready refl

  copilot-IsFair : (a b c : String) → IsFair cfg (ready (inr (copilot_provider a b c)))
  copilot-IsFair a b c = fair_ready refl

  if-IsFair :
      (b : Bool) {x y : Selection} → IsFair cfg x → IsFair cfg y → IsFair cfg (if b then x else y)
  if-IsFair true p q = p
  if-IsFair false p q = q

  configured-IsFair : (model name : String) → IsFair cfg (configured cfg f model name)
  unfolding configured
  configured-IsFair model name =
      search
        (
          if-IsFair, groq-IsFair, openai_access-IsFair, anthropic_access-IsFair, open_router-IsFair,
          zhipu-IsFair, gemini-IsFair, vllm-IsFair, sheng_suan_yun-IsFair, deep_seek-IsFair,
          cli-IsFair, copilot-IsFair, fair_unset,
        )
        depth 16

  detected-IsFair : (model : String) → IsFair cfg (detected cfg f model)
  unfolding detected
  detected-IsFair model =
      search
        (
          if-IsFair, moonshot-IsFair, open_router-IsFair, anthropic_access-IsFair,
          openai_access-IsFair, gemini-IsFair, zhipu-IsFair, groq-IsFair, nvidia-IsFair,
          vllm-IsFair, error-IsFair,
        )
        depth 16

  or_detected-IsFair :
      (model : String) {s : Selection} → IsFair cfg s → IsFair cfg (or_detected cfg f model s)
  unfolding or_detected
  or_detected-IsFair model (fair_uses i h) = fair_uses i h
  or_detected-IsFair model (fair_ready h) = fair_ready h
  or_detected-IsFair model fair_unset = detected-IsFair model

  made-fields :
      (model key base proxy : String) (p : ProviderConfig) (d : String) (proxied : Bool)
      → made cfg f model (uses p d proxied) ≡ inr (http_provider key base proxy)
      → (key ≡ p.api_key)
        × (base ≡ or_default p.api_base d)
        × ((proxy ≡ "") ⊎ (proxy ≡ p.proxy))
        × (str_eq base "" ≡ false)
        × ((str_eq key "" && not (starts_with model "bedrock/")) ≡ false)
  unfolding made
  made-fields model key base proxy p d proxied e = ground arith

  made-IsOwn :
      (model key base proxy : String) {s : Selection}
      → IsFair cfg s
      → made cfg f model s ≡ inr (http_provider key base proxy)
      → IsOwn cfg model key base proxy
  unfolding made
  made-IsOwn model key base proxy fair_unset e = absurd (cc)
  made-IsOwn model key base proxy (fair_ready h) e = absurd (cc)
  made-IsOwn model key base proxy (fair_uses i {p} {base = d} {proxied} h) e =
      let found = made-fields model key base proxy p d proxied e in
      record {
        place = i;
        owner = p;
        default = d;
        is_known = h;
        own_key = found.0;
        own_base = found.1;
        own_proxy = found.2;
        has_base = found.3;
        has_key = found.4;
      }

-- An HTTP provider is made with the key, the address and the proxy of one and the same provider of the
-- configuration, the address and the proxy possibly the default ones; the address is not empty, and the
-- key only for a model of bedrock.
pub create_provider_with_selection-IsOwn :
    (cfg : Config) (f : AuthFile) (model provider key base proxy : String)
    → create_provider_with_selection cfg f model provider ≡ inr (http_provider key base proxy)
    → IsOwn cfg model key base proxy
unfolding create_provider_with_selection
create_provider_with_selection-IsOwn cfg f model provider key base proxy e =
    made-IsOwn cfg f model key base proxy
      (or_detected-IsFair cfg f model (configured-IsFair cfg f model (to_lower provider))) e
