-- ===== src/Step/Tests.antt =====
-- Runs of the step's parts, and their theorems at inputs where the hypotheses hold.
use forge_gate.Base.{
  ℕ, ◌+◌, ◌≤◌, ◌<◌, String, ◌≡◌, refl, ◌↔◌, ◌⊎◌, true, false, Option, none, some, List, [], ◌∷◌,
  arith, ne_of_test, if◌then◌else◌, ◌=ₛ◌,
}
use forge_gate.Base.Int.{ℤ, pos}
use forge_gate.Js.Text.{trim, to_upper, to_lower}
use forge_gate.Js.Decimal.{show, show_ℤ, parse_int}
use forge_gate.Step.Classifier.{
  HttpStepError, rate_limited, timeout, Response, RequestError, retry_after_header,
  parse_retry_after_header, classify_http_error,
}
use forge_gate.Step.Classifier.Table.{StatusClass, classify_http_error-StatusClass}
use forge_gate.Step.Retry.{
  Thrown, http, other, no_config, calculate_retry_decision, is_permanent,
  is_rate_limited_or_overloaded,
}
use forge_gate.Step.Retry.Decision.{should_retry_iff, delay_ms-le}
use forge_gate.Step.Retry.Budget.{Failure, retries, retries-le}
use forge_gate.Step.IdempotencyKey.{generate_step_idempotency_key_injective}

-- A date parser that knows one date.
abbrev one_date : String → Option ℤ
one_date s = if s =ₛ "Wed, 21 Oct 2015 07:28:00 GMT" then some (pos 1445412480000) else none

abbrev answer : ℕ → Option String → Response
answer status wait = record {
  status = status;
  headers = λ name. if name =ₛ "retry-after" then wait else none;
}

abbrev answered : Response → RequestError
answered r = record { response = some r; code = none; message = none }

abbrev reset : RequestError
reset = record { response = none; code = some "ECONNRESET"; message = some "socket hang up" }

abbrev classify : RequestError → HttpStepError
classify = classify_http_error one_date 0 (some "https://a.test/x") (some "post")

too_many : (classify (answered (answer 429 (some "7")))).retry_after_seconds ≡ some 7
unfolding classify_http_error parse_retry_after_header parse_int show_ℤ trim retry_after_header
too_many = refl

messages :
    ((classify reset).message ≡ "HTTP POST to https://a.test/x failed: socket hang up")
    × ((classify (answered (answer 404 none))).sub_reason ≡ some "client_error_404")
    × ((classify (record reset { code = some "etimedout" })).category ≡ timeout)
unfolding classify_http_error show to_upper to_lower
messages = (refl, refl, refl)

classify_http_error-StatusClass_example :
    StatusClass 503 (classify (answered (answer 503 none))).category
    × ((classify (answered (answer 503 none))).status_code ≡ some 503)
classify_http_error-StatusClass_example =
    classify_http_error-StatusClass one_date 0 (some "https://a.test/x") (some "post")
      (answered (answer 503 none)) (answer 503 none) refl (omega arith)

abbrev overloaded : Thrown
overloaded = http (record {
  name = "HttpStepError";
  category = rate_limited;
  is_retryable = true;
  status_code = some 429;
  sub_reason = some "rate_limited";
  retry_after_seconds = some 5;
  message = "";
  url = none;
  method = none;
})

should_retry_iff_example :
    ((calculate_retry_decision overloaded 1 0 0 no_config 1000 0).should_retry ≡ true) ↔ (
      (1000 < 0 + 3600000)
      × (is_permanent overloaded ≡ false)
      × (((is_rate_limited_or_overloaded overloaded ≡ true) × (◌<◌ 0 5))
          ⊎ ((is_rate_limited_or_overloaded overloaded ≡ false) × (◌<◌ 1 3))))
should_retry_iff_example = should_retry_iff overloaded 1 0 0 no_config 1000 0

delay_ms-le_example : (calculate_retry_decision overloaded 1 0 0 no_config 1000 0).delay_ms ≤ (
    if (calculate_retry_decision overloaded 1 0 0 no_config 1000 0).should_retry then 60000 else 0)
delay_ms-le_example = delay_ms-le overloaded 1 0 0 no_config 1000 0

abbrev failing : Thrown → Failure
failing e = record { error = e; now = 2000; random = 12345 }

abbrev stubborn : List Failure
stubborn =
    failing (other "boom")
    ∷ failing overloaded
    ∷ failing (other "boom")
    ∷ failing (other "boom")
    ∷ failing (other "boom")
    ∷ []

stubborn_run : retries 0 no_config 1 0 stubborn ≡ 3
unfolding retries calculate_retry_decision
stubborn_run = refl

retries-le_example : retries 0 no_config 1 0 stubborn ≤ 7
retries-le_example = retries-le 0 no_config 1 0 stubborn

generate_step_idempotency_key_injective_example :
    (◌≡◌ {A = String} "t1" "t1") × (◌≡◌ {A = String} "e1" "e1") × (◌≡◌ {A = String} "s:1" "s:1")
generate_step_idempotency_key_injective_example =
    generate_step_idempotency_key_injective "t1" "e1" "s:1" "t1" "e1" "s:1"
      (ne_of_test "t1" "" refl, omega arith) (ne_of_test "e1" "" refl, omega arith)
      (ne_of_test "s:1" "" refl) (ne_of_test "t1" "" refl, omega arith)
      (ne_of_test "e1" "" refl, omega arith) (ne_of_test "s:1" "" refl) refl
