-- ===== src/Gateway.antt =====
-- apps/api-gateway/src/proxy (the proxy to the services) and health/health.controller.ts. The HTTP
-- client is a parameter; the headers that it adds of its own are left out. The names of headers are
-- in small letters, as the platform gives them.
pub mod Forwarded
pub mod Health
mod Tests
use Prim.Native.Char.{code}
use Prim.Native.String as Chars
use forge_gate.Base.{
  ℕ, String, ◌<>◌, Bool, true, false, Option, none, some, List, [], ◌∷◌, or_default, includes, ◌==◌,
  ◌=ₛ◌, if◌then◌else◌,
}
use forge_gate.Js.Text.{or_text, or_text?, to_upper}
use forge_gate.Js.Json.{or_json, Json, undefined, text, object, no_fields, field}
use forge_gate.Filter.{HttpException}

pub data Service : Type 0 where
  auth workflow notification : Service

-- The URLs of the services in the environment; the empty text where one is missing.
pub record ServiceUrls : Type 0 where
  pub auth_url : String
  pub workflow_url : String
  pub notification_url : String

-- `getServiceUrl`
unfoldable pub get_service_url : ServiceUrls → Service → String
get_service_url urls auth = or_text urls.auth_url "http://localhost:3001"
get_service_url urls workflow = or_text urls.workflow_url "http://localhost:3002"
get_service_url urls notification = or_text urls.notification_url "http://localhost:3003"

-- The rest of a text behind another.
strip : String → String → Option String
strip Chars.[] s = some s
strip (Chars.◌∷◌ c p) Chars.[] = none
strip (Chars.◌∷◌ c p) (Chars.◌∷◌ d s) =
    let rest = strip p s in if code c == code d then rest else none

-- `req.path.replace(/^\/api\/v1\//, '')`
unfoldable pub proxy_path : String → String
unfolding strip
proxy_path path = or_default (strip "/api/v1/" path) path

pub record ProxyConfig : Type 0 where
  pub url : String
  pub method : String
  pub body : Json
  pub params : Json
  pub headers : String → Option String
  pub timeout_ms : ℕ

unfoldable pub correlation_of : (headers : String → Option String) → (generated : String) → String
correlation_of headers generated =
    or_text? (headers "x-correlation-id") (or_text? (headers "x-request-id") generated)

-- The headers of the request to the service.
unfoldable pub forwarded_headers :
    (headers : String → Option String) → (generated : String) → String → Option String
unfolding correlation_of
forwarded_headers headers generated name =
    if name =ₛ "content-type"
    then some (or_text? (headers "content-type") "application/json")
    else if name =ₛ "authorization"
    then some (or_text? (headers "authorization") "")
    else if name =ₛ "x-tenant-id"
    then some (or_text? (headers "x-tenant-id") "")
    else if name =ₛ "x-correlation-id"
    then some (correlation_of headers generated)
    else none

unfoldable pub sends_body : (method : String) → Bool
sends_body method = includes ("POST" ∷ "PUT" ∷ "PATCH" ∷ []) (to_upper method)

-- What the HTTP client gives: data, or an error with the response that it holds, if any.
pub data Upstream : Type 0 where
  replied : Json → Upstream
  broke : Option HttpException → Upstream

pub data ProxyResult : Type 0 where
  passed : Json → ProxyResult
  thrown : HttpException → ProxyResult

abbrev unavailable_body : Json
unavailable_body = object (
    field "message" (text "Upstream service unavailable. Please try again later.")
      (field "code" (text "SERVICE_UNAVAILABLE") no_fields))

abbrev or_status : ℕ → ℕ → ℕ
or_status status default = if status == 0 then default else status

unfoldable pub result_of_upstream : Upstream → ProxyResult
result_of_upstream (replied data_) = passed data_
result_of_upstream (broke none) = thrown (record { status = 502; response = unavailable_body })
result_of_upstream (broke (some r)) =
    thrown
      (record { status = or_status r.status 502; response = or_json r.response unavailable_body })

-- What the proxy was called with.
pub record Incoming : Type 0 where
  pub service : Service
  pub path : String
  pub method : String
  pub body : Json
  pub headers : String → Option String
  pub query : Json

unfoldable pub config_of : ServiceUrls → Incoming → (generated : String) → ProxyConfig
unfolding get_service_url sends_body forwarded_headers
config_of urls i generated = record {
  url = get_service_url urls i.service <> "/" <> i.path;
  method = i.method;
  body = if sends_body i.method then i.body else undefined;
  params = i.query;
  headers = forwarded_headers i.headers generated;
  timeout_ms = 10000;
}

-- `forwardRequest`
unfoldable pub forward_request :
    (axios : ProxyConfig → Upstream) → ServiceUrls → Incoming → (generated : String) → ProxyResult
unfolding result_of_upstream config_of
forward_request axios urls i generated = result_of_upstream (axios (config_of urls i generated))
