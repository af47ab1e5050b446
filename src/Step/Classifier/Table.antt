-- ===== src/Step/Classifier/Table.antt =====
-- What the category of a failure says, for every status and every error code.
use forge_gate.Base.{
  ℕ, ◌≤◌, ◌<◌, String, ◌≡◌, refl, ◌≢◌, ◌↔◌, ◌⊎◌, inl, inr, Bool, false, true, Option, none, some,
  arith, Bool-cases, Option-cases, or_default, [], ◌∷◌, ◌||◌, ◌&&◌, ltb, leb, ◌==◌, ◌=ₛ◌, includes,
}
use forge_gate.Base.Int.{ℤ}
use forge_gate.Js.Text.{to_lower, to_upper, or_text?, contains}
use forge_gate.Step.Classifier.{
  tls_error_codes, HttpStepCategory, success, permanent_failure, transient_failure, rate_limited,
  network_failure, timeout, HttpStepError, Response, RequestError, classify_response, classify_code,
  classify_request, classify_http_error, no_response, bad_status, is_one_of,
}

-- The category that each status from 400 on stands for.
pub data StatusClass (status : ℕ) : HttpStepCategory → Type 0 where
  too_many_requests : status ≡ 429 → StatusClass status rate_limited
  request_timeout : status ≡ 408 → StatusClass status transient_failure
  client_error :
      400 ≤ status
      → status < 500
      → status ≢ 408
      → status ≢ 429
      → StatusClass status permanent_failure
  server_error : 500 ≤ status → StatusClass status transient_failure

-- An error may be retried unless it is permanent; a wait is set only by a status 429 or from 500.
pub record IsConsistent (e : HttpStepError) : Type 0 where
  pub failed : e.category ≢ success
  pub retryable_iff : (e.is_retryable ≡ false) ↔ (e.category ≡ permanent_failure)
  pub waits :
      (e.retry_after_seconds ≡ none)
      ⊎ ((s : ℕ) × (e.status_code ≡ some s) × ((s ≡ 429) ⊎ (500 ≤ s)))

-- What the answer of the test on statuses says: none is below 400, and an error fits its status.
abbrev Verdict : ℕ → Option HttpStepError → Type 0
Verdict status none = status < 400
Verdict status (some e) =
    StatusClass status e.category × (e.status_code ≡ some status) × IsConsistent e

waits_at :
    (status : ℕ) {wait : Option ℕ}
    → (wait ≡ none) ⊎ ((status ≡ 429) ⊎ (500 ≤ status))
    → (wait ≡ none) ⊎ ((s : ℕ) × (Path (Option ℕ) (some status) (some s)) × ((s ≡ 429) ⊎ (500 ≤ s)))
waits_at status (inl h) = inl h
waits_at status (inr h) = inr (status, refl, h)

Verdict-IsConsistent :
    (status : ℕ) (o : Option HttpStepError) (e : HttpStepError)
    → Verdict status o
    → IsConsistent e
    → IsConsistent (or_default o e)
Verdict-IsConsistent status none e v h = h
Verdict-IsConsistent status (some x) e v h = v.2

Verdict-StatusClass :
    (status : ℕ) (o : Option HttpStepError) (e : HttpStepError)
    → Verdict status o
    → 400 ≤ status
    → StatusClass status (or_default o e).category × ((or_default o e).status_code ≡ some status)
Verdict-StatusClass status none e v h = absurd (omega arith)
Verdict-StatusClass status (some x) e v h = (v.0, v.1)

module _ (date_parse : String → Option ℤ) (now : ℕ) (url method : Option String) where
  temporary :
      (c : HttpStepCategory) (sub_reason why : String)
      → c ≢ success
      → c ≢ permanent_failure
      → IsConsistent (no_response date_parse now url method c true sub_reason why)
  unfolding no_response
  temporary c sub_reason why h k = record {
    failed = h;
    retryable_iff = ((λ e. cc), λ e. absurd (k e));
    waits = inl refl;
  }

  permanent :
      (sub_reason why : String)
      → IsConsistent (no_response date_parse now url method permanent_failure false sub_reason why)
  unfolding no_response
  permanent sub_reason why = record {
    failed = λ e. cc;
    retryable_iff = ((λ e. refl), λ e. refl);
    waits = inl refl;
  }

  classify_code-IsConsistent :
      (code message : String) → IsConsistent (classify_code date_parse now url method code message)
  unfolding classify_code
  classify_code-IsConsistent code message = elim (Bool-cases (code =ₛ "ECONNREFUSED")) [
    | inl h0 ↦ rw h0 (temporary network_failure _ _ (λ e. cc) λ e. cc)
    | inr h0 ↦ rw h0 (elim (Bool-cases (code =ₛ "ENOTFOUND" || code =ₛ "EAI_AGAIN")) [
      | inl h1 ↦ rw h1 (temporary network_failure _ _ (λ e. cc) λ e. cc)
      | inr h1 ↦ rw h1 (elim (Bool-cases (code =ₛ "ECONNRESET")) [
        | inl h2 ↦ rw h2 (temporary network_failure _ _ (λ e. cc) λ e. cc)
        | inr h2 ↦
            rw h2
              (elim (Bool-cases
                (includes tls_error_codes code || contains (to_lower message) "certificate")) [
                  | inl h3 ↦ rw h3 (permanent _ _)
                  | inr h3 ↦
                      rw h3 (elim (Bool-cases (code =ₛ "ETIMEDOUT" || code =ₛ "ESOCKETTIMEDOUT")) [
                        | inl h4 ↦ rw h4 (temporary timeout _ _ (λ e. cc) λ e. cc)
                        | inr h4 ↦
                            rw h4
                              (elim (Bool-cases (
                                code =ₛ "ECONNABORTED"
                                || contains (to_lower message) "timeout"
                                || contains (to_lower message) "timed out")) [
                                  | inl h5 ↦ rw h5 (temporary timeout _ _ (λ e. cc) λ e. cc)
                                  | inr h5 ↦
                                      rw h5 (temporary transient_failure _ _ (λ e. cc) λ e. cc)
                                ])
                      ])
                ])
      ])
    ])
  ]

  bad_status-Verdict :
      (c : HttpStepCategory) (again : Bool) (status : ℕ) (sub_reason : String) (wait : Option ℕ)
      (why : String)
      → StatusClass status c
      → (again ≡ false) ↔ (c ≡ permanent_failure)
      → c ≢ success
      → (wait ≡ none) ⊎ ((status ≡ 429) ⊎ (500 ≤ status))
      → Verdict status
          (some (bad_status date_parse now url method c again status sub_reason wait why))
  unfolding bad_status
  bad_status-Verdict c again status sub_reason wait why fits iff failed waits =
      (fits, refl, record { failed = failed; retryable_iff = iff; waits = waits_at status waits })

  classify_response-Verdict :
      (r : Response) → Verdict r.status (classify_response date_parse now url method r)
  unfolding classify_response is_one_of
  classify_response-Verdict r = elim (Bool-cases (r.status == 429)) [
    | inl h0 ↦ rw h0 (
        bad_status-Verdict rate_limited true _ _ _ _ (too_many_requests (ground arith))
          (ground arith) (λ e. cc) (inr (inl (ground arith))))
    | inr h0 ↦ rw h0 (elim (Bool-cases (r.status == 408)) [
      | inl h1 ↦ rw h1 (
          bad_status-Verdict transient_failure true _ _ _ _ (request_timeout (ground arith))
            (ground arith) (λ e. cc) (inl refl))
      | inr h1 ↦
          rw h1
            (elim (Bool-cases (
              is_one_of (400 ∷ 401 ∷ 403 ∷ 404 ∷ 409 ∷ []) r.status
              || (leb 400 r.status && ltb r.status 500))) [
                | inl h2 ↦ rw h2 (
                    bad_status-Verdict permanent_failure false _ _ _ _
                      (client_error (ground arith) (ground arith) (ground arith) (ground arith))
                      (ground arith) (λ e. cc) (inl refl))
                | inr h2 ↦
                    rw h2
                      (elim (Bool-cases
                        (is_one_of (500 ∷ 502 ∷ 503 ∷ 504 ∷ []) r.status || leb 500 r.status)) [
                          | inl h3 ↦ rw h3 (
                              bad_status-Verdict transient_failure true _ _ _ _
                                (server_error (ground arith)) (ground arith) (λ e. cc)
                                (inr (inr (ground arith))))
                          | inr h3 ↦ rw h3 (ground arith)
                        ])
              ])
    ])
  ]

  classify_request-IsConsistent :
      (e : RequestError) → IsConsistent (classify_request date_parse now url method e)
  unfolding classify_request
  classify_request-IsConsistent e =
      classify_code-IsConsistent (to_upper (or_text? e.code "")) (or_text? e.message "")

  -- Whatever the failure: its category is not `SUCCESS`, it may be retried exactly when it is not
  -- permanent, and it asks for a wait only with a status 429 or a status from 500 on.
  pub classify_http_error-IsConsistent :
      (e : RequestError) → IsConsistent (classify_http_error date_parse now url method e)
  unfolding classify_http_error
  classify_http_error-IsConsistent e = elim (Option-cases e.response) [
    | inl missing ↦ rw (missing, classify_http_error) (classify_request-IsConsistent e)
    | inr (r, answered) ↦
        rw (answered, classify_http_error)
          (Verdict-IsConsistent r.status _ _ (classify_response-Verdict r)
            (classify_request-IsConsistent e))
  ]

  -- An answer with a status from 400 on gets the category of that status, and keeps the status.
  pub classify_http_error-StatusClass :
      (e : RequestError) (r : Response)
      → e.response ≡ some r
      → 400 ≤ r.status
      → StatusClass r.status (classify_http_error date_parse now url method e).category
        × ((classify_http_error date_parse now url method e).status_code ≡ some r.status)
  unfolding classify_http_error
  classify_http_error-StatusClass e r answered h =
      rw (answered, classify_http_error)
        (Verdict-StatusClass r.status _ _ (classify_response-Verdict r) h)
