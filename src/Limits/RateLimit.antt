-- ===== src/Limits/RateLimit.antt =====
-- outbound-rate-limiter.ts. Limits and windows are whole numbers; the fields of a quota are there.
pub mod Balance
use forge_gate.Base.{
  ℕ, zero, suc, String, ◌<>◌, Bool, true, false, ◌&&◌, Option, none, some, List, [], ◌∷◌, ◌++◌, ltb,
  leb, ◌==◌, ◌=ₛ◌, if◌then◌else◌,
}
use forge_gate.Base.Int.{ℤ, pos, negsuc, ◌-ℤ◌, ltb_ℤ}
use forge_gate.Js.Text.{or_text, or_text?}
use forge_gate.Limits.Redis.{Redis}
use forge_gate.Limits.Provider.{RateLimitQuota, StepConfig, CheckParams, provider_of}
use forge_gate.Limits.Concurrency.{decr_all}

pub data RateScope : Type 0 where
  global provider tenant_provider step : RateScope

pub record OutboundRateLimitConfig : Type 0 where
  pub global_limit : Option RateLimitQuota
  pub provider_limits : String → Option RateLimitQuota
  pub tenant_provider_limits : String → String → Option RateLimitQuota
  pub step_limits : String → Option RateLimitQuota

pub record QuotaToCheck : Type 0 where
  pub scope : RateScope
  pub key : String
  pub quota : RateLimitQuota

pub data OutboundRateLimitCheckResult : Type 0 where
  allowed : OutboundRateLimitCheckResult
  limited :
      (exceeded_scope : RateScope) (retry_after_seconds : ℕ) (current_count : ℤ) (limit : ℕ)
      → OutboundRateLimitCheckResult

-- `if (quota && quota.limit > 0 && quota.windowSeconds > 0) scopesToCheck.push(…)`
unfoldable pub push_quota :
    RateScope → String → Option RateLimitQuota → List QuotaToCheck → List QuotaToCheck
push_quota scope key none rest = rest
push_quota scope key (some q) rest =
    if ltb 0 q.limit && ltb 0 q.window_seconds
    then record { scope = scope; key = key; quota = q } ∷ rest
    else rest

-- `stepConfig.outboundRateLimit || stepConfig.rateLimit`
own_quota : Option StepConfig → Option RateLimitQuota
own_quota none = none
own_quota (some config) = elim config.outbound_rate_limit [
  | none ↦ config.rate_limit
  | some q ↦ some q
]

-- The configured quota of a step, where the step's own configuration has none.
step_quota :
    Option RateLimitQuota → (String → Option RateLimitQuota) → Option String → Option RateLimitQuota
step_quota (some q) limits id = some q
step_quota none limits none = none
step_quota none limits (some id) = if id =ₛ "" then none else limits id

abbrev step_rate_key : String → Option String → Option String → String
step_rate_key t workflow_id step_id =
    "outbound:rate:step:" <> t <> ":" <> or_text? workflow_id "wf" <> ":" <> or_text? step_id "step"

unfoldable pub quotas_to_check :
    (String → Option String) → OutboundRateLimitConfig → CheckParams → List QuotaToCheck
unfolding own_quota step_quota
quotas_to_check hostname config params =
    let p = provider_of hostname params in
    let t = or_text params.tenant_id "default" in
    let own = step_quota (own_quota params.step_config) config.step_limits params.step_id in
    push_quota step (step_rate_key t params.workflow_id params.step_id) own (
      push_quota tenant_provider ("outbound:rate:tenant_provider:" <> t <> ":" <> p)
        (config.tenant_provider_limits t p)
        (push_quota provider ("outbound:rate:provider:" <> p) (config.provider_limits p)
          (push_quota global "outbound:rate:global" config.global_limit [])))

-- `if (ttl <= 0) ttl = quota.windowSeconds`
wait_seconds : ℤ → ℕ → ℕ
wait_seconds (pos zero) window = window
wait_seconds (pos (suc n)) window = suc n
wait_seconds (negsuc n) window = window

-- `count === 1`
abbrev pub is_one : ℤ → Bool
is_one (pos n) = n == 1
is_one (negsuc n) = false

module _ (r : Redis) where
  -- EXPIRE at the first use of a key; whether nothing was thrown.
  unfoldable pub expire_first : String → ℕ → ℤ → r.Store → Bool × r.Store
  expire_first key window count s = elim (is_one count) [
    | false ↦ (true, s)
    | true ↦ elim (r.expire key window s).0 [
      | none ↦ (false, (r.expire key window s).1)
      | some there ↦ (true, (r.expire key window s).1)
    ]
  ]

  -- The loop of `checkAndConsume`. A command that throws leaves the scope out.
  unfoldable pub consume :
      List QuotaToCheck → List String → r.Store → OutboundRateLimitCheckResult × r.Store
  unfolding wait_seconds
  consume [] keys s = (allowed, s)
  consume (item ∷ rest) keys s =
      let s1 = (r.incr item.key s).1 in
      elim (r.incr item.key s).0 [
        | none ↦ consume rest keys s1
        | some count ↦
            let window = item.quota.window_seconds in
            let s2 = (expire_first item.key window count s1).1 in
            elim (expire_first item.key window count s1).0 [
              | false ↦ consume rest keys s2
              | true ↦ elim (ltb_ℤ (pos item.quota.limit) count) [
                | false ↦ consume rest (keys ++ (item.key ∷ [])) s2
                | true ↦
                    let s3 = (decr_all r (item.key ∷ keys) s2).1 in
                    elim (decr_all r (item.key ∷ keys) s2).0 [
                      | false ↦ consume rest keys s3
                      | true ↦ elim (r.ttl item.key s3).0 [
                        | none ↦ consume rest keys (r.ttl item.key s3).1
                        | some t ↦ (
                          limited item.scope (wait_seconds t window) (count -ℤ pos 1)
                              item.quota.limit,
                          (r.ttl item.key s3).1,
                        )
                      ]
                    ]
              ]
            ]
      ]

  unfoldable pub check_and_consume :
      (String → Option String)
      → OutboundRateLimitConfig
      → CheckParams
      → r.Store
      → OutboundRateLimitCheckResult × r.Store
  check_and_consume hostname config params s = consume (quotas_to_check hostname config params) [] s
