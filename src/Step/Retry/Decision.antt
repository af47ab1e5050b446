-- ===== src/Step/Retry/Decision.antt =====
-- When a failed step is tried again, and how long it waits.
use forge_gate.Base.{
  ℕ, ◌+◌, ◌*◌, ◌≤◌, ◌<◌, min, ◌≡◌, ◌↔◌, ◌⊎◌, true, false, Option, some, none, arith, or_default,
  if◌then◌else◌,
}
use forge_gate.Step.Retry.{
  Thrown, http, other, RetryPolicyConfig, RetryDecision, calculate_exponential_backoff,
  is_permanent, is_rate_limited_or_overloaded, deferral_delay, retry_after,
  calculate_retry_decision,
}

backoff-le :
    (attempt : ℕ) (config : RetryPolicyConfig) (random : ℕ)
    → calculate_exponential_backoff attempt config random ≤ or_default config.max_delay_ms 60000
unfolding calculate_exponential_backoff
backoff-le attempt config random = omega arith

deferral_delay-le :
    (wait : Option ℕ) (attempt : ℕ) (config : RetryPolicyConfig) (random : ℕ)
    → deferral_delay wait attempt config random ≤ or_default config.max_delay_ms 60000
unfolding deferral_delay
deferral_delay-le none attempt config random = backoff-le attempt config random
deferral_delay-le (some seconds) attempt config random = omega arith

deferral_delay_asked :
    (seconds attempt : ℕ) (config : RetryPolicyConfig) (random : ℕ)
    → let most = or_default config.max_delay_ms 60000 in
      let delay = deferral_delay (some seconds) attempt config random in
      (min most (seconds * 1000) ≤ delay)
      × (min most (or_default config.initial_delay_ms 1000) ≤ delay)
unfolding deferral_delay
deferral_delay_asked seconds attempt config random = omega arith

is_rate_limited_of_retry_after :
    (error : Thrown) {seconds : ℕ}
    → retry_after error ≡ some seconds
    → is_rate_limited_or_overloaded error ≡ true
unfolding is_rate_limited_or_overloaded
is_rate_limited_of_retry_after (http e) h = ground arith
is_rate_limited_of_retry_after (other m) h = cc

module _ (error : Thrown) (attempt deferrals created_at : ℕ) (config : RetryPolicyConfig)
    (now random : ℕ) where
  abbrev decision : RetryDecision
  decision = calculate_retry_decision error attempt deferrals created_at config now random

  -- A failure is tried again exactly when the execution is within its lifetime, the failure is not
  -- permanent, and the budget that it draws on is not used up.
  pub should_retry_iff : (decision.should_retry ≡ true) ↔ (
      (now < created_at + or_default config.max_execution_lifetime_ms 3600000)
      × (is_permanent error ≡ false)
      × (((is_rate_limited_or_overloaded error ≡ true)
            × (deferrals < or_default config.max_rate_limit_deferrals 5))
          ⊎ ((is_rate_limited_or_overloaded error ≡ false)
              × (attempt < or_default config.max_normal_retries 3))))
  unfolding calculate_retry_decision
  should_retry_iff = ground arith

  -- A retry waits no longer than the longest delay, and a refusal sets no wait.
  pub delay_ms-le :
      decision.delay_ms
      ≤ (if decision.should_retry then or_default config.max_delay_ms 60000 else 0)
  unfolding calculate_retry_decision
  delay_ms-le = ground (
    arith,
    backoff-le attempt config random,
    deferral_delay-le (retry_after error) attempt config random,
  )

  -- A server's `Retry-After` within the deferral budget: the step waits at least as long as the
  -- server asks and at least the initial delay, up to the longest delay, and no attempt is used up.
  pub retry_after_respected :
      (seconds : ℕ)
      → decision.should_retry ≡ true
      → retry_after error ≡ some seconds
      → (min (or_default config.max_delay_ms 60000) (seconds * 1000) ≤ decision.delay_ms)
        × (min (or_default config.max_delay_ms 60000) (or_default config.initial_delay_ms 1000)
            ≤ decision.delay_ms)
        × (decision.new_normal_attempt_count ≡ attempt)
        × (decision.new_rate_limit_deferrals_count ≡ deferrals + 1)
  unfolding calculate_retry_decision
  retry_after_respected seconds again asked =
      let limited = is_rate_limited_of_retry_after error asked in
      let (long, first) = deferral_delay_asked seconds attempt config random in
      (ground arith, ground arith, ground arith, ground arith)
