-- ===== src/Gateway/Tests.antt =====
-- Requests through the proxy, and the health of services in memory.
use forge_gate.Base.{String, Option, none, some, ◌≡◌, refl, ◌=ₛ◌, if◌then◌else◌}
use forge_gate.Js.Json.{undefined}
use forge_gate.Idempotency.Redis.{answered}
use forge_gate.Auth.Guards.{unauthorized, denied, throws, jwt_can_activate}
use forge_gate.Gateway.{
  workflow, ServiceUrls, Incoming, get_service_url, proxy_path, forwarded_headers,
}
use forge_gate.Gateway.Forwarded.{received, jwt_can_activate-received}
use forge_gate.Gateway.Health.{Probe, with_status, with_error, get_health}

abbrev urls : ServiceUrls
urls = record { auth_url = "http://auth"; workflow_url = ""; notification_url = "http://mail" }

-- A request that states an identity and an idempotency key, and has no token.
abbrev stated_headers : String → Option String
stated_headers name =
    if name =ₛ "x-user-id"
    then some "root"
    else if name =ₛ "x-tenant-id"
    then some "t1"
    else if name =ₛ "idempotency-key"
    then some "k1"
    else none

abbrev trigger : Incoming
trigger = record {
  service = workflow;
  path = "workflows/w1/trigger";
  method = "POST";
  body = undefined;
  headers = stated_headers;
  query = undefined;
}

jwt_can_activate-received_example :
    jwt_can_activate (λ _. throws) (received urls trigger "corr-1")
    ≡ denied (unauthorized "Missing authorization token")
jwt_can_activate-received_example =
    jwt_can_activate-received (λ _. throws) urls trigger "corr-1" refl

path_of_request : proxy_path "/api/v1/auth/login" ≡ "auth/login"
unfolding proxy_path
path_of_request = refl

-- The key of the client does not reach the service.
key_is_dropped : forwarded_headers stated_headers "corr-1" "idempotency-key" ≡ none
unfolding forwarded_headers
key_is_dropped = refl

abbrev probe : String → Probe
probe url = if url =ₛ "http://auth/auth/health" then with_status 200 else with_error "refused"

one_service_up : (get_health (answered "PONG") probe urls).status ≡ "degraded"
unfolding get_health get_service_url
one_service_up = refl
