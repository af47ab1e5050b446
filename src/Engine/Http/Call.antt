-- ===== src/Engine/Http/Call.antt =====
-- The HTTP branch of `executeStep` with its limiters, and the other branches.
use forge_gate.Base.{
  ℕ, String, ◌<>◌, Bool, true, false, Option, none, some, ◌==◌, ◌=ₛ◌, if◌then◌else◌,
}
use forge_gate.Base.Int.{ℤ, pos}
use forge_gate.Js.Decimal.{show, show_ℤ}
use forge_gate.Js.Json.{
  or_json, Json, undefined, null, boolean, number, text, object, Fields, no_fields, field,
  object_fields, get_field,
}
use forge_gate.Step.Classifier.{
  HttpStepCategory, permanent_failure, rate_limited, http_step_error, classify_http_error,
}
use forge_gate.Step.Retry.{Thrown, http}
use forge_gate.Step.Timeout.{Configured, resolve_http_timeout}
use forge_gate.Limits.Redis.{Redis}
use forge_gate.Limits.Concurrency
use forge_gate.Limits.Concurrency.{
  Scope, OutboundConcurrencyConfig, OutboundConcurrencyResult, acquired, rejected, ConcurrencyLease,
  Metrics, acquire, release,
}
use forge_gate.Limits.RateLimit
use forge_gate.Limits.RateLimit.{
  RateScope, OutboundRateLimitConfig, OutboundRateLimitCheckResult, allowed, limited,
  check_and_consume,
}
use forge_gate.Engine.Database.{Step}
use forge_gate.Engine.Run.{StepResult, step_done, step_threw}
use forge_gate.Engine.Http.{
  StepContext, HttpRequest, HttpAnswer, answered, call_failed, url_of, method_of, timeout_of,
  request_of, params_of,
}

abbrev scope_name : Scope → String
scope_name Concurrency.global = "global"
scope_name Concurrency.tenant = "tenant"
scope_name Concurrency.provider = "provider"
scope_name Concurrency.tenant_provider = "tenant_provider"
scope_name Concurrency.step = "step"

abbrev rate_scope_name : RateScope → String
rate_scope_name RateLimit.global = "global"
rate_scope_name RateLimit.provider = "provider"
rate_scope_name RateLimit.tenant_provider = "tenant_provider"
rate_scope_name RateLimit.step = "step"

-- A value in a template literal; an array stands like an object.
value_text : Json → String
value_text undefined = "undefined"
value_text null = "null"
value_text (boolean true) = "true"
value_text (boolean false) = "false"
value_text (number z) = show_ℤ z
value_text (text s) = s
value_text _ = "[object Object]"

-- `n || d`
abbrev or_number : ℕ → ℕ → ℕ
or_number n d = if n == 0 then d else n

-- The errors that `executeStep` throws itself.
own_error : HttpStepCategory → Bool → String → Option ℕ → String → Fields → Thrown
own_error category is_retryable sub_reason wait message config = http (
    http_step_error (record {
      category = category;
      is_retryable = is_retryable;
      status_code = none;
      sub_reason = some sub_reason;
      retry_after_seconds = wait;
      message = message;
      url = some (url_of config);
      method = some (method_of config);
    }))

unfoldable pub bad_timeout : Fields → Thrown
unfolding own_error value_text
bad_timeout config =
    own_error permanent_failure false "invalid_timeout_configuration" none
      ("Invalid timeoutMs configuration: "
        <> value_text (get_field "timeoutMs" config)
        <> ". Must be a positive number.")
      config

unfoldable pub rate_limit_error : RateScope → ℕ → Fields → Thrown
unfolding own_error
rate_limit_error scope wait config =
    own_error rate_limited true "outbound_rate_limit_exceeded" (some (or_number wait 60))
      ("Outbound rate limit exceeded for scope '"
        <> rate_scope_name scope
        <> "'. Retry after "
        <> show wait
        <> " seconds.")
      config

unfoldable pub concurrency_error : Scope → ℕ → Fields → Thrown
unfolding own_error
concurrency_error scope wait config =
    own_error rate_limited true "outbound_concurrency_limit_exceeded" (some (or_number wait 2))
      ("Outbound concurrency limit exceeded for scope '" <> scope_name scope <> "'.") config

-- What the platform does: `new URL(…).hostname`, `Date.parse`, and `Number` of a text.
pub record Platform : Type 0 where
  pub hostname : String → Option String
  pub date_parse : String → Option ℤ
  pub number_of : String → Configured

-- The limiters that the engine is built with.
pub record Limiters : Type 0 where
  pub rate : Option OutboundRateLimitConfig
  pub concurrency : Option OutboundConcurrencyConfig

-- `{ statusCode: response.status, data: response.data }`
http_result : ℕ → Json → Json
http_result status body =
    object (field "statusCode" (number (pos status)) (field "data" body no_fields))

module _ (r : Redis) (Net : Type 0) (axios : HttpRequest → Net → HttpAnswer × Net)
    (platform : Platform) (limiters : Limiters) (lease_id : String) (now : ℕ) where
  -- What Redis holds, the counters of the concurrency limiter, and the network.
  pub record Outside : Type 0 where
    pub redis : r.Store
    pub metrics : Metrics
    pub net : Net

  -- What is made of the client's answer.
  unfoldable pub result_of : Fields → HttpAnswer → StepResult
  unfolding http_result
  result_of config (answered status body) = step_done (http_result status body)
  result_of config (call_failed e) = step_threw (
      http (
        classify_http_error platform.date_parse now (some (url_of config)) (some (method_of config))
          e))

  unfoldable pub call_http : StepContext → Fields → Json → ℕ → Outside → StepResult × Outside
  call_http context config input timeout_ms out =
      let (answer, net) = axios (request_of context config input timeout_ms) out.net in
      (result_of config answer, record out { net = net })

  -- `finally`: the lease is released.
  unfoldable pub release_after : ConcurrencyLease → StepResult × Outside → StepResult × Outside
  release_after lease (result, out) =
      let (metrics, redis) = release r (some lease) out.metrics out.redis in
      (result, record out { metrics = metrics; redis = redis })

  -- What follows `acquire`, by its result.
  unfoldable pub call_leased :
      StepContext → Fields → Json → ℕ → OutboundConcurrencyResult → Outside → StepResult × Outside
  call_leased context config input timeout_ms (rejected scope wait count limit) out =
      (step_threw (concurrency_error scope wait config), out)
  call_leased context config input timeout_ms (acquired lease) out =
      release_after lease (call_http context config input timeout_ms out)

  -- From the concurrency limiter on.
  unfoldable pub call_with_slot : StepContext → Fields → Json → ℕ → Outside → StepResult × Outside
  call_with_slot context config input timeout_ms out = elim limiters.concurrency [
    | none ↦ call_http context config input timeout_ms out
    | some limits ↦
        let taken =
          acquire r platform.hostname limits (params_of context config) lease_id out.metrics
            out.redis in
        call_leased context config input timeout_ms taken.0
          (record out { metrics = taken.1; redis = taken.2 })
  ]

  -- What follows `checkAndConsume`, by its result.
  unfoldable pub call_allowed :
      StepContext
      → Fields
      → Json
      → ℕ
      → OutboundRateLimitCheckResult
      → Outside
      → StepResult × Outside
  call_allowed context config input timeout_ms (limited scope wait count limit) out =
      (step_threw (rate_limit_error scope wait config), out)
  call_allowed context config input timeout_ms allowed out =
      call_with_slot context config input timeout_ms out

  -- From the rate limiter on.
  unfoldable pub call_within_rate : StepContext → Fields → Json → ℕ → Outside → StepResult × Outside
  call_within_rate context config input timeout_ms out = elim limiters.rate [
    | none ↦ call_with_slot context config input timeout_ms out
    | some quotas ↦
        let checked =
          check_and_consume r platform.hostname quotas (params_of context config) out.redis in
        call_allowed context config input timeout_ms checked.0 (record out { redis = checked.1 })
  ]

  unfoldable pub execute_http : StepContext → Fields → Json → Outside → StepResult × Outside
  execute_http context config input out =
      elim (resolve_http_timeout (timeout_of platform.number_of (get_field "timeoutMs" config))) [
        | none ↦ (step_threw (bad_timeout config), out)
        | some timeout_ms ↦ call_within_rate context config input timeout_ms out
      ]

  -- The result of a notification, with the time as a text.
  email_result : String → Fields → Json
  email_result at config = object (
      field "queuedNotification" (boolean true) (
        field "recipient" (or_json (get_field "recipient" config) (text "user@example.com")) (
          field "subject" (or_json (get_field "subject" config) (text "Workflow Notification"))
            (field "sentAt" (text at) no_fields))))

  -- `executeStep`; `at` is `new Date().toISOString()`.
  unfoldable pub execute_step : StepContext → String → Step → Json → Outside → StepResult × Outside
  unfolding email_result
  execute_step context at step input out =
      let config = object_fields step.config in
      if step.action_type =ₛ "http_request"
      then execute_http context config input out
      else if step.action_type =ₛ "data_transform"
      then (
        step_done (
            object (
              field "transformed" (boolean true)
                (field "output" (object (object_fields (get_field "mapping" config))) no_fields))),
        out,
      )
      else if step.action_type =ₛ "email_notification"
      then (step_done (email_result at config), out)
      else (
        step_done (
            object (
              field "executed" (boolean true) (
                field "stepType" (text step.action_type) (field "timestamp" (text at) no_fields)))),
        out,
      )
