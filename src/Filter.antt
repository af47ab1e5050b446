-- ===== src/Filter.antt =====
-- packages/common/src/filters/all-exceptions.filter.ts: what the filter answers to an exception. An
-- exception is a value with what the filter reads of it; its message is a text, and so are the
-- messages of a validation. The entry in the log is left out.
pub mod Public
pub mod Status
mod Tests
use forge_gate.Base.{
  ℕ, String, Bool, true, false, ◌||◌, Option, none, some, List, [], ◌∷◌, ◌==◌, ◌=ₛ◌, if◌then◌else◌,
}
use forge_gate.Js.Text.{or_text, or_text?, to_lower, contains}
use forge_gate.Js.Json.{
  Json, text, array, object, Items, no_items, item, Fields, get_field, text_of,
}
use forge_gate.Sanitize.{contains_some}

-- `getStatus` and `getResponse` of an `HttpException`.
pub record HttpException : Type 0 where
  pub status : ℕ
  pub response : Json

pub record Exception : Type 0 where
  pub name : String
  pub constructor_name : String
  pub message : String
  -- `String(exception)`
  pub printed : String
  pub code : String
  pub http : Option HttpException

pub record ErrorResponse : Type 0 where
  pub status : ℕ
  pub code : String
  pub message : String
  pub details : Option (List String)

abbrev pub plain_response : ℕ → (code message : String) → ErrorResponse
plain_response status code message = record {
  status = status;
  code = code;
  message = message;
  details = none;
}

abbrev pub unexpected : String
unexpected = "An unexpected error occurred."

abbrev pub unavailable : ErrorResponse
unavailable =
    plain_response 503 "SERVICE_UNAVAILABLE"
      "Service temporarily unavailable. Please try again later."

unfoldable pub request_id : (correlation_id request_id generated : String) → String
request_id correlation_id stated generated = or_text correlation_id (or_text stated generated)

unfoldable pub error_name : Exception → String
error_name e = or_text e.name (or_text e.constructor_name "Error")

unfoldable pub raw_message : Exception → String
raw_message e = or_text e.message e.printed

abbrev infrastructure_names : List String
infrastructure_names = "Prisma" ∷ "PostgreSQL" ∷ "pg_" ∷ "Redis" ∷ "RabbitMQ" ∷ "amqp" ∷ []

-- The first test of `catch`: an error of the database, of Redis or of RabbitMQ.
unfoldable pub is_infrastructure : Exception → Bool
unfolding error_name raw_message
is_infrastructure e =
    contains (error_name e) "PrismaClient" || contains_some infrastructure_names (raw_message e)

unfoldable pub is_unreachable : Exception → Bool
unfolding error_name raw_message
is_unreachable e =
    error_name e =ₛ "PrismaClientInitializationError"
    || contains_some ("Can't reach database server" ∷ "ECONNREFUSED" ∷ "ENOTFOUND" ∷ [])
        (raw_message e)

unfoldable pub infrastructure_response : Exception → ErrorResponse
unfolding is_unreachable
infrastructure_response e =
    if e.code =ₛ "P2002"
    then plain_response 409 "RESOURCE_CONFLICT"
        "A resource with this unique attribute already exists."
    else if e.code =ₛ "P2025"
    then plain_response 404 "RESOURCE_NOT_FOUND" "The requested resource was not found."
    else if is_unreachable e
    then unavailable
    else plain_response 500 "INTERNAL_SERVER_ERROR" "An infrastructure error occurred."

-- The second test of `catch`: a network error.
unfoldable pub is_network : Exception → Bool
unfolding raw_message
is_network e =
    e.code =ₛ "ECONNREFUSED"
    || e.code =ₛ "ENOTFOUND"
    || e.code =ₛ "ETIMEDOUT"
    || contains (raw_message e) "ECONNREFUSED"

-- `getErrorCodeFromStatus`
unfoldable pub get_error_code_from_status : ℕ → String
get_error_code_from_status status =
    if status == 400
    then "BAD_REQUEST"
    else if status == 401
    then "UNAUTHORIZED"
    else if status == 403
    then "FORBIDDEN"
    else if status == 404
    then "RESOURCE_NOT_FOUND"
    else if status == 409
    then "RESOURCE_CONFLICT"
    else if status == 429
    then "RATE_LIMITED"
    else if status == 502
    then "BAD_GATEWAY"
    else if status == 503
    then "SERVICE_UNAVAILABLE"
    else "INTERNAL_SERVER_ERROR"

abbrev pub internal_words : List String
internal_words =
    "prisma" ∷ "postgresql" ∷ "postgres://" ∷ "redis://" ∷ "amqp://" ∷ "axios" ∷ "econnrefused"
    ∷ "enotfound" ∷ "etimedout" ∷ "127.0.0.1" ∷ "localhost" ∷ "node_modules" ∷ "select "
    ∷ "insert into" ∷ "update " ∷ "delete from" ∷ "bearer eyj" ∷ "password=" ∷ "secret=" ∷ []

-- A text that names a part of the system, a query, a path or a secret.
unfoldable pub is_internal : String → Bool
is_internal msg = contains_some internal_words (to_lower msg)

-- `sanitizeMessage`
unfoldable pub sanitize_message : String → String
sanitize_message msg =
    if msg =ₛ ""
    then "An error occurred."
    else if is_internal msg
    then "An unexpected internal error occurred."
    else msg

unfoldable pub sanitize_messages : Items → List String
sanitize_messages no_items = []
sanitize_messages (item v rest) =
    sanitize_message (or_text? (text_of v) "") ∷ sanitize_messages rest

-- The message for the field `error` of an exception's body.
unfoldable pub error_message : Json → String
error_message error =
    let stated = or_text? (text_of error) "" in
    if stated =ₛ "" then unexpected else sanitize_message stated

-- The response for the field `message` of an exception's body, with the field `error` besides.
unfoldable pub body_response : ℕ → (message error : Json) → ErrorResponse
body_response status (array xs) error = record {
  status = status;
  code = "VALIDATION_ERROR";
  message = "One or more fields are invalid.";
  details = some (sanitize_messages xs);
}
body_response status (text s) error =
    plain_response status (get_error_code_from_status status) (sanitize_message s)
body_response status _ error =
    plain_response status (get_error_code_from_status status) (error_message error)

-- The code of the body, where it states one.
unfoldable pub with_code : Json → ErrorResponse → ErrorResponse
with_code (text s) r = record r { code = or_text s r.code }
with_code _ r = r

-- The answer to an `HttpException`.
unfoldable pub http_response : ℕ → Json → ErrorResponse
http_response status (text s) =
    plain_response status (get_error_code_from_status status) (sanitize_message s)
http_response status (object fs) =
    with_code (get_field "code" fs)
      (body_response status (get_field "message" fs) (get_field "error" fs))
http_response status _ = plain_response status (get_error_code_from_status status) unexpected

unfoldable pub response_of_kind : Bool → Bool → Exception → ErrorResponse
unfolding infrastructure_response http_response
response_of_kind true network e = infrastructure_response e
response_of_kind false true e = unavailable
response_of_kind false false e = elim e.http [
  | none ↦ plain_response 500 "INTERNAL_SERVER_ERROR" unexpected
  | some http ↦ http_response http.status http.response
]

-- The status and the error of the response.
unfoldable pub respond : Exception → ErrorResponse
unfolding response_of_kind is_infrastructure is_network
respond e = response_of_kind (is_infrastructure e) (is_network e) e

pub record ErrorPayload : Type 0 where
  pub error : ErrorResponse
  pub request_id : String
  pub path : String

-- `catch`: the payload, for the headers of the request, its URL and a generated identifier.
unfoldable pub catch_exception :
    Exception → (correlation_id stated_id url generated : String) → ErrorPayload
unfolding respond request_id
catch_exception e correlation_id stated_id url generated = record {
  error = respond e;
  request_id = request_id correlation_id stated_id generated;
  path = url;
}
