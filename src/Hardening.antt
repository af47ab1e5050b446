-- ===== src/Hardening.antt =====
-- packages/common/src/http-hardening.ts: the origins that may ask, the security headers, the filter of
-- methods and the limits. The environment is an argument; what is registered with the framework is
-- the data that it is given.
pub mod Origins
mod Tests
use forge_gate.Base.{
  ℕ, String, ◌<>◌, Bool, true, false, not, ◌&&◌, ◌||◌, Option, none, some, List, [], ◌∷◌, ◌++◌,
  includes, ◌==◌, ◌=ₛ◌, if◌then◌else◌,
}
use forge_gate.Base.Int.{ℤ, pos}
use forge_gate.Js.Text.{or_text, or_text?, to_upper, trim}
use forge_gate.Js.Split.{split}
use forge_gate.Js.Decimal.{show_ℤ, parse_int}

abbrev local_origins : List String
local_origins =
    "http://localhost:3000" ∷ "http://localhost:5173" ∷ "http://localhost:8080"
    ∷ "http://127.0.0.1:3000" ∷ "http://127.0.0.1:5173" ∷ []

-- `.map((o) => o.trim()).filter(Boolean)`
unfoldable pub trimmed_origins : List String → List String
trimmed_origins [] = []
trimmed_origins (o ∷ rest) =
    let after = trimmed_origins rest in let own = trim o in if own =ₛ "" then after else own ∷ after

-- The origins that `buildCorsOptions` allows, for `CORS_ALLOWED_ORIGINS` and `NODE_ENV`.
unfoldable pub allowed_origins : Option String → (node_env : String) → List String
unfolding trimmed_origins
allowed_origins setting node_env =
    let stated = or_text? setting "" in
    if trim stated =ₛ ""
    then if node_env =ₛ "production" then [] else local_origins
    else trimmed_origins (split 44 stated)

-- The callback `origin`: a request without an origin is let through.
unfoldable pub is_origin_allowed : List String → Option String → Bool
is_origin_allowed origins origin =
    let asked = or_text? origin "" in
    if asked =ₛ "" then true else includes origins "*" || includes origins asked

pub record Header : Type 0 where
  pub name : String
  pub value : String

abbrev plain_headers : List Header
plain_headers =
    record { name = "X-Content-Type-Options"; value = "nosniff" }
    ∷ record { name = "X-Frame-Options"; value = "SAMEORIGIN" }
    ∷ record { name = "X-XSS-Protection"; value = "1; mode=block" }
    ∷ record { name = "Referrer-Policy"; value = "strict-origin-when-cross-origin" }
    ∷ record { name = "Permissions-Policy"; value = "geolocation=(), microphone=(), camera=()" }
    ∷ []

abbrev content_policy : Header
content_policy = record {
  name = "Content-Security-Policy";
  value =
      "default-src 'self'; script-src 'self' 'unsafe-inline' 'unsafe-eval'; style-src 'self' 'unsafe-inline' https:; img-src 'self' data: https:; font-src 'self' https: data:; connect-src 'self' ws: wss: http: https:;";
}

abbrev transport_security : Header
transport_security = record {
  name = "Strict-Transport-Security";
  value = "max-age=31536000; includeSubDomains";
}

-- The headers that are set on each response, in their order.
unfoldable pub security_headers : (node_env enable_hsts : String) → List Header
security_headers node_env enable_hsts =
    plain_headers
    ++ (if node_env =ₛ "production" || enable_hsts =ₛ "true"
        then transport_security ∷ content_policy ∷ []
        else content_policy ∷ [])

pub record Rejection : Type 0 where
  pub status : ℕ
  pub error : String
  pub message : String

abbrev allowed_methods : List String
allowed_methods = "GET" ∷ "POST" ∷ "PUT" ∷ "PATCH" ∷ "DELETE" ∷ "OPTIONS" ∷ "HEAD" ∷ []

-- The filter of methods: `none` where the request goes on.
unfoldable pub check_method : (method : String) → Option Rejection
check_method method =
    if not (method =ₛ "") && not (includes allowed_methods (to_upper method))
    then some (record {
      status = 405;
      error = "Method Not Allowed";
      message = "HTTP method " <> method <> " is not permitted";
    })
    else none

unfoldable pub body_limit : (option setting : String) → String
body_limit option setting = or_text option (or_text setting "1mb")

-- The timeout of a request; `none` is `NaN`.
unfoldable pub request_timeout_ms : ℕ → (setting : String) → Option ℤ
request_timeout_ms option setting =
    if option == 0 then parse_int (or_text setting "15000") else some (pos option)

-- What is sent when a request times out.
unfoldable pub on_request_timeout :
    (headers_sent : Bool) → (shown_timeout : String) → Option Rejection
on_request_timeout true shown = none
on_request_timeout false shown = some (record {
  status = 408;
  error = "Request Timeout";
  message = "Request timed out after " <> shown <> "ms";
})
