-- ===== src/Step/Classifier.antt =====
-- http-step-classifier.ts. What `axios` throws is a `RequestError`; a header that is not there, a
-- missing `code` and a missing `message` are `none`. `Date.parse` of a text that is no number is
-- left to the JavaScript engine by its standard, so it is a parameter, and so is the clock.

pub mod Header
pub mod Table
use forge_gate.Base.{
  ℕ, ◌+◌, ◌-◌, ◌/◌, String, ◌<>◌, Bool, true, false, ◌&&◌, ◌||◌, Option, none, some, List, [], ◌∷◌,
  includes, or_default, ltb, leb, ◌==◌, ◌=ₛ◌, if◌then◌else◌,
}
use forge_gate.Base.Int.{ℤ, pos, negsuc}
use forge_gate.Js.Text.{or_text, or_text?, to_lower, to_upper, trim, contains}
use forge_gate.Js.Decimal.{show, show_ℤ, parse_int}

pub data HttpStepCategory : Type 0 where
  success permanent_failure transient_failure rate_limited network_failure timeout :
      HttpStepCategory

pub record HttpClassificationResult : Type 0 where
  pub category : HttpStepCategory
  pub is_retryable : Bool
  pub status_code : Option ℕ
  pub sub_reason : Option String
  pub retry_after_seconds : Option ℕ
  pub message : String
  pub url : Option String
  pub method : Option String

pub record HttpStepError : Type 0 where
  pub name : String
  pub category : HttpStepCategory
  pub is_retryable : Bool
  pub status_code : Option ℕ
  pub sub_reason : Option String
  pub retry_after_seconds : Option ℕ
  pub message : String
  pub url : Option String
  pub method : Option String

-- The constructor of `HttpStepError`; `undefined` and `null` are both `none`.
unfoldable pub http_step_error : HttpClassificationResult → HttpStepError
http_step_error c = record {
  name = "HttpStepError";
  category = c.category;
  is_retryable = c.is_retryable;
  status_code = c.status_code;
  sub_reason = c.sub_reason;
  retry_after_seconds = c.retry_after_seconds;
  message = c.message;
  url = c.url;
  method = c.method;
}

pub record Response : Type 0 where
  pub status : ℕ
  pub headers : String → Option String

pub record RequestError : Type 0 where
  pub response : Option Response
  pub code : Option String
  pub message : Option String

-- `Math.ceil(ms / 1000)`, and 0 for a moment that has passed.
seconds_until : ℤ → ℕ → ℕ
seconds_until (pos date) now = (date - now + 999) / 1000
seconds_until (negsuc _) now = 0

non_negative : ℤ → Option ℕ
non_negative (pos n) = some n
non_negative (negsuc _) = none

-- `headers['retry-after'] || headers['Retry-After']`, where a missing header is empty.
unfoldable pub retry_after_header : (String → Option String) → String
retry_after_header headers = or_text? (headers "retry-after") (or_text? (headers "Retry-After") "")

is_one_of : List ℕ → ℕ → Bool
is_one_of [] n = false
is_one_of (m ∷ ms) n = m == n || is_one_of ms n

abbrev tls_error_codes : List String
tls_error_codes =
    "UNABLE_TO_VERIFY_LEAF_SIGNATURE" ∷ "CERT_HAS_EXPIRED" ∷ "DEPTH_ZERO_SELF_SIGNED_CERT"
    ∷ "SELF_SIGNED_CERT_IN_CHAIN" ∷ "ERR_TLS_CERT_ALTNAME_INVALID" ∷ []

module _ (date_parse : String → Option ℤ) (now : ℕ) where
  parse_date : String → Option ℕ
  unfolding seconds_until
  parse_date s = elim (date_parse s) [ none ↦ none | some date ↦ some (seconds_until date now) ]

  parse_trimmed : String → Option ℕ
  unfolding parse_date non_negative
  parse_trimmed s = elim (parse_int s) [
    | none ↦ parse_date s
    | some n ↦ if show_ℤ n =ₛ s then non_negative n else parse_date s
  ]

  unfoldable pub parse_retry_after_header : String → Option ℕ
  unfolding parse_trimmed
  parse_retry_after_header h = if h =ₛ "" then none else parse_trimmed (trim h)

  module _ (url method : Option String) where
    method_text : String
    method_text = to_upper (or_text? method "GET")

    target_url : String
    target_url = or_text? url "unknown"

    -- `HTTP ${methodStr} to ${targetUrl} failed: ${…}`
    failed : String → String
    unfolding method_text target_url
    failed why = "HTTP " <> method_text <> " to " <> target_url <> " failed: " <> why

    -- An error without a status: every one of these sets the same url and method.
    no_response : HttpStepCategory → Bool → String → String → HttpStepError
    unfolding http_step_error failed
    no_response category is_retryable sub_reason why = http_step_error (record {
      category = category;
      is_retryable = is_retryable;
      status_code = none;
      sub_reason = some sub_reason;
      retry_after_seconds = none;
      message = failed why;
      url = some target_url;
      method = some method_text;
    })

    bad_status : HttpStepCategory → Bool → ℕ → String → Option ℕ → String → HttpStepError
    unfolding http_step_error failed
    bad_status category is_retryable status sub_reason retry_after why = http_step_error (record {
      category = category;
      is_retryable = is_retryable;
      status_code = some status;
      sub_reason = some sub_reason;
      retry_after_seconds = retry_after;
      message = failed why;
      url = some target_url;
      method = some method_text;
    })

    -- The first part of `classifyHttpError`: a status that no test accepts goes on to the second.
    classify_response : Response → Option HttpStepError
    unfolding is_one_of
    classify_response r =
        let status = r.status in
        let retry_after = parse_retry_after_header (retry_after_header r.headers) in
        if status == 429
        then some (
            bad_status rate_limited true status "rate_limited" retry_after
              "Rate limit exceeded (429)")
        else if status == 408
        then some (
            bad_status transient_failure true status "request_timeout" none "Request timeout (408)")
        else if is_one_of (400 ∷ 401 ∷ 403 ∷ 404 ∷ 409 ∷ []) status
            || (leb 400 status && ltb status 500)
        then some (
            bad_status permanent_failure false status ("client_error_" <> show status) none
              ("Client error (" <> show status <> ")"))
        else if is_one_of (500 ∷ 502 ∷ 503 ∷ 504 ∷ []) status || leb 500 status
        then some (
            bad_status transient_failure true status ("server_error_" <> show status) retry_after
              ("Server error (" <> show status <> ")"))
        else none

    -- The second part: errors of the request itself. `code` is in capitals already.
    classify_code : String → String → HttpStepError
    classify_code code message =
        if code =ₛ "ECONNREFUSED"
        then no_response network_failure true "connection_refused"
            (or_text message "Connection refused")
        else if code =ₛ "ENOTFOUND" || code =ₛ "EAI_AGAIN"
        then no_response network_failure true "dns_failure"
            (or_text message "DNS resolution failed")
        else if code =ₛ "ECONNRESET"
        then no_response network_failure true "connection_reset"
            (or_text message "Connection reset")
        else if includes tls_error_codes code || contains (to_lower message) "certificate"
        then no_response permanent_failure false "tls_certificate_error" "TLS/certificate error"
        else if code =ₛ "ETIMEDOUT" || code =ₛ "ESOCKETTIMEDOUT"
        then no_response timeout true "socket_timeout" (or_text message "Socket timeout")
        else if code =ₛ "ECONNABORTED"
            || contains (to_lower message) "timeout"
            || contains (to_lower message) "timed out"
        then no_response timeout true "request_timeout" (or_text message "Request timeout")
        else no_response transient_failure true "unknown_http_error"
            (or_text message "Unknown HTTP error")

    classify_request : RequestError → HttpStepError
    unfolding classify_code
    classify_request e = classify_code (to_upper (or_text? e.code "")) (or_text? e.message "")

    unfoldable pub classify_http_error : RequestError → HttpStepError
    unfolding classify_response classify_request bad_status no_response
    classify_http_error e = elim e.response [
      | none ↦ classify_request e
      | some r ↦ or_default (classify_response r) (classify_request e)
    ]

unfoldable pub classify_http_success : ℕ → (url method : Option String) → HttpClassificationResult
classify_http_success status url method =
    let method_text = to_upper (or_text? method "GET") in
    let target_url = or_text? url "unknown" in
    record {
      category = success;
      is_retryable = false;
      status_code = some status;
      sub_reason = some ("success_" <> show status);
      retry_after_seconds = none;
      message =
          "HTTP " <> method_text <> " to " <> target_url <> " succeeded (" <> show status <> ")";
      url = some target_url;
      method = some method_text;
    }
