-- ===== src/Engine/Http.antt =====
-- `executeStep` of workflow-engine.service.ts. The HTTP client is a parameter, with the network as
-- its state; so are the URL parser, `Date.parse` and `Number` of a text. A limiter that the engine
-- is not built with is `none`. Texts in a configuration are texts, and its numbers are whole.
pub mod Call
pub mod Slots
mod Tests
use forge_gate.Base.{
  ℕ, zero, String, ◌<>◌, Bool, true, false, ◌||◌, Option, none, some, or_default, ◌==◌, ◌=ₛ◌,
  if◌then◌else◌,
}
use forge_gate.Base.Int.{ℤ, pos, negsuc}
use forge_gate.Js.Text.{or_text, or_text?, to_upper}
use forge_gate.Js.Decimal.{show}
use forge_gate.Js.Json.{
  or_json, Json, undefined, null, boolean, number, text, array, object, Fields, no_fields, field,
  set_field, object_fields, get_field, text_of,
}
use forge_gate.Step.Classifier.{RequestError}
use forge_gate.Step.Timeout.{Configured, absent, not_a_number, negative, fraction}
use forge_gate.Step.IdempotencyKey.{generate_step_idempotency_key}
use forge_gate.Limits.Provider.{RateLimitQuota, StepConfig, CheckParams}

-- The context that `executeStep` is called with.
pub record StepContext : Type 0 where
  pub tenant_id : String
  pub execution_id : String
  pub step_id : String
  pub correlation_id : String

pub record HttpRequest : Type 0 where
  pub url : String
  pub method : String
  pub headers : Fields
  pub body : Option Json
  pub timeout_ms : ℕ

-- What the HTTP client gives, or throws.
pub data HttpAnswer : Type 0 where
  answered : (status : ℕ) → Json → HttpAnswer
  call_failed : RequestError → HttpAnswer

-- `Boolean(v)` of a text.
abbrev is_there : Option String → Bool
is_there none = false
is_there (some s) = if s =ₛ "" then false else true

abbrev is_true : Json → Bool
is_true (boolean b) = b
is_true _ = false

positive : Json → Option ℕ
positive (number (pos n)) = some n
positive _ = none

quota_of : Json → Option RateLimitQuota
unfolding positive
quota_of (object fs) = some (record {
  limit = or_default (positive (get_field "limit" fs)) 0;
  window_seconds = or_default (positive (get_field "windowSeconds" fs)) 0;
})
quota_of _ = none

-- The fields of the configuration that the limiters read.
unfoldable pub limits_of : Fields → StepConfig
unfolding positive quota_of
limits_of config = record {
  provider = text_of (get_field "provider" config);
  url = text_of (get_field "url" config);
  outbound_concurrency = positive (get_field "outboundConcurrency" config);
  outbound_rate_limit = quota_of (get_field "outboundRateLimit" config);
  rate_limit = quota_of (get_field "rateLimit" config);
}

-- The URL and the method of a request.
unfoldable pub url_of : Fields → String
url_of config = or_text? (text_of (get_field "url" config)) "https://httpbin.org/get"

unfoldable pub method_of : Fields → String
method_of config = to_upper (or_text? (text_of (get_field "method" config)) "GET")

abbrev idempotency_of : Fields → Fields
idempotency_of config = object_fields (get_field "idempotency" config)

is_idempotent : Fields → Bool
is_idempotent config =
    is_true (get_field "enabled" (idempotency_of config))
    || is_there (text_of (get_field "idempotencyKeyHeader" config))

idempotency_header : Fields → String
idempotency_header config =
    or_text? (text_of (get_field "headerName" (idempotency_of config)))
      (or_text? (text_of (get_field "idempotencyKeyHeader" config)) "Idempotency-Key")

-- The headers: those of the configuration, the correlation id and the idempotency key.
unfoldable pub headers_of : StepContext → Fields → Fields
unfolding is_idempotent idempotency_header
headers_of context config =
    let own = object_fields (get_field "headers" config) in
    let traced =
      if context.correlation_id =ₛ ""
      then own
      else set_field "x-correlation-id" (text context.correlation_id) own in
    let key =
      generate_step_idempotency_key context.tenant_id context.execution_id context.step_id in
    if is_idempotent config then set_field (idempotency_header config) (text key) traced else traced

module _ (number_of : String → Configured) where
  -- `Number(config.timeoutMs)`, and the values that stand for the default.
  unfoldable pub timeout_of : Json → Configured
  timeout_of undefined = absent
  timeout_of null = absent
  timeout_of (text s) = if s =ₛ "" then absent else number_of s
  timeout_of (number (pos n)) = fraction n 0
  timeout_of (number (negsuc n)) = negative
  timeout_of (boolean true) = fraction 1 0
  timeout_of (boolean false) = fraction 0 0
  timeout_of _ = not_a_number

-- `data: method !== 'GET' ? body : undefined`
body_of : Fields → Json → Option Json
body_of config input =
    if method_of config =ₛ "GET" then none else some (or_json (get_field "body" config) input)

unfoldable pub request_of : StepContext → Fields → Json → ℕ → HttpRequest
unfolding body_of
request_of context config input timeout_ms = record {
  url = url_of config;
  method = method_of config;
  headers = headers_of context config;
  body = body_of config input;
  timeout_ms = timeout_ms;
}

unfoldable pub params_of : StepContext → Fields → CheckParams
params_of context config = record {
  tenant_id = or_text context.tenant_id "default";
  provider = none;
  url = none;
  workflow_id = some context.execution_id;
  step_id = some context.step_id;
  step_config = some (limits_of config);
}
