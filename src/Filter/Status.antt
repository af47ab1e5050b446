-- ===== src/Filter/Status.antt =====
-- The status of a response.
use forge_gate.Base.{
  ℕ, Bool, true, false, ◌||◌, some, ◌≡◌, refl, ◌∙◌, ◌=ₛ◌, ◌⊎◌, inl, inr, Bool-cases,
}
use forge_gate.Js.Json.{Json, undefined, null, boolean, number, text, array, object, get_field}
use forge_gate.Filter.{
  HttpException, Exception, ErrorResponse, body_response, with_code, http_response,
  is_infrastructure, is_unreachable, is_network, infrastructure_response, response_of_kind, respond,
}

-- A status that the filter gives to errors of the infrastructure and of the network.
abbrev pub IsMarkedStatus : ℕ → Type 0
IsMarkedStatus n = (n ≡ 409) ⊎ ((n ≡ 404) ⊎ ((n ≡ 503) ⊎ (n ≡ 500)))

status-body_response :
    (status : ℕ) (message error : Json) → (body_response status message error).status ≡ status
unfolding body_response
status-body_response status (array xs) error = refl
status-body_response status (text s) error = refl
status-body_response status undefined error = refl
status-body_response status null error = refl
status-body_response status (boolean b) error = refl
status-body_response status (number n) error = refl
status-body_response status (object fs) error = refl

status-with_code : (code : Json) (r : ErrorResponse) → (with_code code r).status ≡ r.status
unfolding with_code
status-with_code (text s) r = refl
status-with_code undefined r = refl
status-with_code null r = refl
status-with_code (boolean b) r = refl
status-with_code (number n) r = refl
status-with_code (array xs) r = refl
status-with_code (object fs) r = refl

status-http_response : (status : ℕ) (body : Json) → (http_response status body).status ≡ status
unfolding http_response
status-http_response status (object fs) =
    status-with_code (get_field "code" fs) _ ∙ status-body_response status _ _
status-http_response status (text s) = refl
status-http_response status undefined = refl
status-http_response status null = refl
status-http_response status (boolean b) = refl
status-http_response status (number n) = refl
status-http_response status (array xs) = refl

infrastructure_response-IsMarkedStatus :
    (e : Exception) → IsMarkedStatus (infrastructure_response e).status
unfolding infrastructure_response
infrastructure_response-IsMarkedStatus e = elim (Bool-cases (e.code =ₛ "P2002")) [
  | inl h ↦ rw h (inl refl)
  | inr h ↦ elim (Bool-cases (e.code =ₛ "P2025")) [
    | inl g ↦ rw (h, g) (inr (inl refl))
    | inr g ↦ elim (Bool-cases (is_unreachable e)) [
      | inl u ↦ rw (h, g, u) (inr (inr (inl refl)))
      | inr u ↦ rw (h, g, u) (inr (inr (inr refl)))
    ]
  ]
]

-- An exception is marked, and has a status of those, or is not, and keeps the status.
abbrev pub KeepsStatus : Bool → ℕ → ErrorResponse → Type 0
KeepsStatus true status r = IsMarkedStatus r.status
KeepsStatus false status r = r.status ≡ status

of_kind-KeepsStatus :
    (infra network : Bool) (e : Exception) (http : HttpException)
    → e.http ≡ some http
    → KeepsStatus (infra || network) http.status (response_of_kind infra network e)
unfolding response_of_kind
of_kind-KeepsStatus true network e http there = infrastructure_response-IsMarkedStatus e
of_kind-KeepsStatus false true e http there = inr (inr (inl refl))
of_kind-KeepsStatus false false e http there =
    rw (there, response_of_kind) (status-http_response http.status http.response)

-- An HTTP exception whose name, message or code mark it as an error of the infrastructure or of the
-- network is answered with the status 409, 404, 503 or 500; any other keeps its status.
pub respond-KeepsStatus :
    (e : Exception) (http : HttpException)
    → e.http ≡ some http
    → KeepsStatus (is_infrastructure e || is_network e) http.status (respond e)
unfolding respond
respond-KeepsStatus e http there =
    of_kind-KeepsStatus (is_infrastructure e) (is_network e) e http there
