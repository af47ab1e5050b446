-- ===== src/Filter/Public.antt =====
-- What a response shows.
use forge_gate.Base.{
  ℕ, String, Bool, true, false, Option, none, some, List, All, ◌≡◌, refl, ◌=ₛ◌, inl, inr,
  Bool-cases, Option-cases,
}
use forge_gate.Js.Text.{or_text?, to_lower}
use forge_gate.Js.Json.{
  Json, undefined, null, boolean, number, text, array, object, Items, no_items, item, get_field,
  text_of,
}
use forge_gate.Sanitize.{contains_some}
use forge_gate.Filter.{
  Exception, ErrorResponse, unavailable, is_internal, sanitize_message, sanitize_messages,
  error_message, body_response, with_code, http_response, is_infrastructure, is_unreachable,
  is_network, infrastructure_response, response_of_kind, respond,
}

empty_text : is_internal "An error occurred." ≡ false
unfolding is_internal contains_some to_lower
empty_text = refl

replaced_text : is_internal "An unexpected internal error occurred." ≡ false
unfolding is_internal contains_some to_lower
replaced_text = refl

fields_text : is_internal "One or more fields are invalid." ≡ false
unfolding is_internal contains_some to_lower
fields_text = refl

unexpected_text : is_internal "An unexpected error occurred." ≡ false
unfolding is_internal contains_some to_lower
unexpected_text = refl

conflict_text : is_internal "A resource with this unique attribute already exists." ≡ false
unfolding is_internal contains_some to_lower
conflict_text = refl

missing_text : is_internal "The requested resource was not found." ≡ false
unfolding is_internal contains_some to_lower
missing_text = refl

unavailable_text : is_internal "Service temporarily unavailable. Please try again later." ≡ false
unfolding is_internal contains_some to_lower
unavailable_text = refl

infrastructure_text : is_internal "An infrastructure error occurred." ≡ false
unfolding is_internal contains_some to_lower
infrastructure_text = refl

-- Neither the message nor a detail names a part of the system, a query, a path or a secret.
abbrev ArePublic : Option (List String) → Type 0
ArePublic none = Unit
ArePublic (some texts) = All (λ s. is_internal s ≡ false) texts

abbrev pub IsPublic : ErrorResponse → Type 0
IsPublic r = (is_internal r.message ≡ false) × ArePublic r.details

sanitize_message-public : (msg : String) → is_internal (sanitize_message msg) ≡ false
unfolding sanitize_message
sanitize_message-public msg = elim (Bool-cases (msg =ₛ "")) [
  | inl h ↦ rw h empty_text
  | inr h ↦ elim (Bool-cases (is_internal msg)) [
    | inl g ↦ rw h (rw g replaced_text)
    | inr g ↦ rw h (rw g g)
  ]
]

sanitize_messages-public : (xs : Items) → All (λ s. is_internal s ≡ false) (sanitize_messages xs)
unfolding sanitize_messages
sanitize_messages-public no_items = tt
sanitize_messages-public (item v rest) =
    (sanitize_message-public (or_text? (text_of v) ""), sanitize_messages-public rest)

error_message-public : (error : Json) → is_internal (error_message error) ≡ false
unfolding error_message
error_message-public error = elim (Bool-cases (or_text? (text_of error) "" =ₛ "")) [
  | inl h ↦ rw h unexpected_text
  | inr h ↦ rw h (sanitize_message-public _)
]

body_response-IsPublic :
    (status : ℕ) (message error : Json) → IsPublic (body_response status message error)
unfolding body_response
body_response-IsPublic status (array xs) error = (fields_text, sanitize_messages-public xs)
body_response-IsPublic status (text s) error = (sanitize_message-public s, tt)
body_response-IsPublic status undefined error = (error_message-public error, tt)
body_response-IsPublic status null error = (error_message-public error, tt)
body_response-IsPublic status (boolean b) error = (error_message-public error, tt)
body_response-IsPublic status (number n) error = (error_message-public error, tt)
body_response-IsPublic status (object fs) error = (error_message-public error, tt)

with_code-IsPublic : (code : Json) (r : ErrorResponse) → IsPublic r → IsPublic (with_code code r)
unfolding with_code
with_code-IsPublic (text s) r h = h
with_code-IsPublic undefined r h = h
with_code-IsPublic null r h = h
with_code-IsPublic (boolean b) r h = h
with_code-IsPublic (number n) r h = h
with_code-IsPublic (array xs) r h = h
with_code-IsPublic (object fs) r h = h

http_response-IsPublic : (status : ℕ) (body : Json) → IsPublic (http_response status body)
unfolding http_response
http_response-IsPublic status (text s) = (sanitize_message-public s, tt)
http_response-IsPublic status (object fs) =
    with_code-IsPublic (get_field "code" fs) _ (body_response-IsPublic status _ _)
http_response-IsPublic status undefined = (unexpected_text, tt)
http_response-IsPublic status null = (unexpected_text, tt)
http_response-IsPublic status (boolean b) = (unexpected_text, tt)
http_response-IsPublic status (number n) = (unexpected_text, tt)
http_response-IsPublic status (array xs) = (unexpected_text, tt)

unavailable-IsPublic : IsPublic unavailable
unavailable-IsPublic = (unavailable_text, tt)

infrastructure_response-IsPublic : (e : Exception) → IsPublic (infrastructure_response e)
unfolding infrastructure_response
infrastructure_response-IsPublic e = elim (Bool-cases (e.code =ₛ "P2002")) [
  | inl h ↦ rw h (conflict_text, tt)
  | inr h ↦ elim (Bool-cases (e.code =ₛ "P2025")) [
    | inl g ↦ rw (h, g) (missing_text, tt)
    | inr g ↦ elim (Bool-cases (is_unreachable e)) [
      | inl u ↦ rw (h, g, u) unavailable-IsPublic
      | inr u ↦ rw (h, g, u) (infrastructure_text, tt)
    ]
  ]
]

of_kind-IsPublic :
    (infra network : Bool) (e : Exception) → IsPublic (response_of_kind infra network e)
unfolding response_of_kind
of_kind-IsPublic true network e = infrastructure_response-IsPublic e
of_kind-IsPublic false true e = unavailable-IsPublic
of_kind-IsPublic false false e = elim (Option-cases e.http) [
  | inl missing ↦ rw (missing, response_of_kind) (unexpected_text, tt)
  | inr (http, there) ↦
      rw (there, response_of_kind) (http_response-IsPublic http.status http.response)
]

-- Whatever the exception, neither the message nor a detail of the response contains one of the words
-- for parts of the system, queries, paths and secrets, in any case of the letters.
pub respond-IsPublic : (e : Exception) → IsPublic (respond e)
unfolding respond
respond-IsPublic e = of_kind-IsPublic (is_infrastructure e) (is_network e) e
