-- ===== src/Limits/Provider.antt =====
-- `extractProviderFromUrlOrConfig` of outbound-rate-limiter.ts. The platform's URL parser is a
-- parameter: it gives the host name, or throws.
use forge_gate.Base.{String, Option, none, some, ◌=ₛ◌, ℕ, if◌then◌else◌}
use forge_gate.Js.Text.{or_text?, trim, to_lower}

pub record RateLimitQuota : Type 0 where
  pub limit : ℕ
  pub window_seconds : ℕ

-- The fields of a step's configuration that the limiters read.
pub record StepConfig : Type 0 where
  pub provider : Option String
  pub url : Option String
  pub outbound_concurrency : Option ℕ
  pub outbound_rate_limit : Option RateLimitQuota
  pub rate_limit : Option RateLimitQuota

-- What both limiters are called with.
pub record CheckParams : Type 0 where
  pub tenant_id : String
  pub provider : Option String
  pub url : Option String
  pub workflow_id : Option String
  pub step_id : Option String
  pub step_config : Option StepConfig

module _ (hostname : String → Option String) where
  provider_of_url : Option String → String
  provider_of_url none = "generic"
  provider_of_url (some url) =
      if url =ₛ ""
      then "generic"
      else elim (hostname url) [ none ↦ "generic" | some host ↦ to_lower host ]

  unfoldable pub extract_provider : (provider url : Option String) → String
  unfolding provider_of_url
  extract_provider provider url =
      let stated = trim (or_text? provider "") in
      if stated =ₛ "" then provider_of_url url else to_lower stated

  -- The provider of a call: that of the step's configuration, if there is one.
  unfoldable pub provider_of : CheckParams → String
  provider_of params = elim params.step_config [
    | none ↦ extract_provider params.provider params.url
    | some config ↦ extract_provider config.provider config.url
  ]
