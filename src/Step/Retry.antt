-- ===== src/Step/Retry.antt =====
-- http-retry-scheduler.ts. Times are milliseconds, delays and limits whole numbers. The clock is an
-- argument, and so is the outcome of `Math.random()`, in units of 2^-53. A missing entry of the
-- configuration is `none`.
pub mod Decision
pub mod Budget
use forge_gate.Base.{
  ℕ, suc, ◌+◌, ◌-◌, ◌*◌, ◌/◌, ◌^◌, min, max, String, Bool, true, false, not, ◌||◌, Option, none,
  some, is_some, or_default, leb, ◌==◌, if◌then◌else◌,
}
use forge_gate.Step.Classifier.{HttpStepCategory, rate_limited, HttpStepError}

-- What a step throws: an `HttpStepError`, or another error with its message.
pub data Thrown : Type 0 where
  http : HttpStepError → Thrown
  other : String → Thrown

pub record RetryPolicyConfig : Type 0 where
  pub max_normal_retries : Option ℕ
  pub max_rate_limit_deferrals : Option ℕ
  pub max_execution_lifetime_ms : Option ℕ
  pub initial_delay_ms : Option ℕ
  pub max_delay_ms : Option ℕ
  pub jitter_ms : Option ℕ

abbrev pub no_config : RetryPolicyConfig
no_config = record {
  max_normal_retries = none;
  max_rate_limit_deferrals = none;
  max_execution_lifetime_ms = none;
  initial_delay_ms = none;
  max_delay_ms = none;
  jitter_ms = none;
}

pub record RetryDecision : Type 0 where
  pub should_retry : Bool
  pub delay_ms : ℕ
  pub reason : String
  pub is_rate_limit_deferral : Bool
  pub new_rate_limit_deferrals_count : ℕ
  pub new_normal_attempt_count : ℕ

-- `Math.floor(Math.random() * m)`
abbrev pub floor_random : ℕ → ℕ → ℕ
floor_random random m = random * m / 2 ^ 53

-- `-` stops at 0, as `Math.max(0, attempt - 1)` does.
unfoldable pub calculate_exponential_backoff : ℕ → RetryPolicyConfig → ℕ → ℕ
calculate_exponential_backoff attempt config random =
    let initial = or_default config.initial_delay_ms 1000 in
    let max_delay = or_default config.max_delay_ms 60000 in
    let jitter_max = or_default config.jitter_ms 200 in
    let base_delay = initial * 2 ^ (attempt - 1) in
    min max_delay (base_delay + floor_random random jitter_max)

abbrev is_rate_limited : HttpStepCategory → Bool
is_rate_limited rate_limited = true
is_rate_limited _ = false

abbrev is_status : Option ℕ → ℕ → Bool
is_status none n = false
is_status (some s) n = s == n

abbrev pub retry_after : Thrown → Option ℕ
retry_after (http e) = e.retry_after_seconds
retry_after (other _) = none

-- `error instanceof HttpStepError && !error.isRetryable`
unfoldable pub is_permanent : Thrown → Bool
is_permanent (http e) = not e.is_retryable
is_permanent (other _) = false

unfoldable pub is_rate_limited_or_overloaded : Thrown → Bool
is_rate_limited_or_overloaded (http e) =
    is_rate_limited e.category || is_some e.retry_after_seconds || is_status e.status_code 529
is_rate_limited_or_overloaded (other _) = false

-- The wait of a deferral: the server's, between the initial delay and the longest, or the backoff.
unfoldable pub deferral_delay : Option ℕ → ℕ → RetryPolicyConfig → ℕ → ℕ
deferral_delay none attempt config random = calculate_exponential_backoff attempt config random
deferral_delay (some seconds) attempt config random =
    let target_delay_ms = seconds * 1000 in
    let safe_delay = max (or_default config.initial_delay_ms 1000) target_delay_ms in
    min (or_default config.max_delay_ms 60000) safe_delay

-- The elapsed time is at least the lifetime just where `now` is at least their sum.
unfoldable pub calculate_retry_decision :
    Thrown
    → (attempt deferrals created_at : ℕ) → RetryPolicyConfig
    → (now random : ℕ) → RetryDecision
unfolding is_permanent is_rate_limited_or_overloaded deferral_delay
calculate_retry_decision error attempt deferrals created_at config now random =
    let max_lifetime_ms = or_default config.max_execution_lifetime_ms 3600000 in
    let max_deferrals = or_default config.max_rate_limit_deferrals 5 in
    let max_normal_retries = or_default config.max_normal_retries 3 in
    if leb (created_at + max_lifetime_ms) now
    then record {
      should_retry = false;
      delay_ms = 0;
      reason = "max_lifetime_exceeded";
      is_rate_limit_deferral = false;
      new_rate_limit_deferrals_count = deferrals;
      new_normal_attempt_count = attempt;
    }
    else if is_permanent error
    then record {
      should_retry = false;
      delay_ms = 0;
      reason = "permanent_failure";
      is_rate_limit_deferral = false;
      new_rate_limit_deferrals_count = deferrals;
      new_normal_attempt_count = attempt;
    }
    else if is_rate_limited_or_overloaded error
    then if leb max_deferrals deferrals
      then record {
        should_retry = false;
        delay_ms = 0;
        reason = "max_rate_limit_deferrals_exceeded";
        is_rate_limit_deferral = true;
        new_rate_limit_deferrals_count = deferrals;
        new_normal_attempt_count = attempt;
      }
      else record {
        should_retry = true;
        delay_ms = deferral_delay (retry_after error) attempt config random;
        reason = "rate_limited_deferred";
        is_rate_limit_deferral = true;
        new_rate_limit_deferrals_count = deferrals + 1;
        new_normal_attempt_count = attempt;
      }
    else if leb max_normal_retries attempt
    then record {
      should_retry = false;
      delay_ms = 0;
      reason = "max_normal_retries_exceeded";
      is_rate_limit_deferral = false;
      new_rate_limit_deferrals_count = deferrals;
      new_normal_attempt_count = attempt;
    }
    else record {
      should_retry = true;
      delay_ms = calculate_exponential_backoff attempt config random;
      reason = "transient_backoff_retry";
      is_rate_limit_deferral = false;
      new_rate_limit_deferrals_count = deferrals;
      new_normal_attempt_count = attempt + 1;
    }
