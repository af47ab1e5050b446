-- ===== src/Engine/Http/Slots.antt =====
-- A step gives back the slots of the concurrency limiter, whatever the HTTP call does.
use forge_gate.Base.{
  ℕ, String, Option, none, some, List, [], ◌≡◌, refl, sym, ap, ◌∙◌, ◌⊎◌, inl, inr, ◌=ₛ◌, Bool-cases,
  Option-cases,
}
use forge_gate.Base.Int.{ℤ, pos, ◌+ℤ◌, ◌≤ℤ◌, int_laws}
use forge_gate.Js.Json.{Json, Fields, get_field, object_fields}
use forge_gate.Step.Timeout.{resolve_http_timeout}
use forge_gate.Limits.Redis.{Redis, Counts, Expires, Ttls, occurs}
use forge_gate.Limits.Concurrency.{OutboundConcurrencyResult, acquired, rejected, release}
use forge_gate.Limits.Concurrency.Balance.{NonNegative, lease_of, release-none, release-acquire}
use forge_gate.Limits.RateLimit.{
  OutboundRateLimitConfig, OutboundRateLimitCheckResult, allowed, limited, quotas_to_check,
}
use forge_gate.Limits.RateLimit.Balance.{quota_keys, IsEven, check_and_consume-IsEven}
use forge_gate.Engine.Database.{Step}
use forge_gate.Engine.Http.{StepContext, HttpRequest, HttpAnswer, params_of, timeout_of}
use forge_gate.Engine.Http.Call.{
  Platform, Limiters, Outside, call_http, release_after, call_leased, call_with_slot, call_allowed,
  call_within_rate, execute_http, execute_step,
}

-- The keys of the quotas that a step falls under.
abbrev pub charge_keys :
    Platform → Option OutboundRateLimitConfig → StepContext → Fields → List String
charge_keys platform none context config = []
charge_keys platform (some quotas) context config =
    quota_keys (quotas_to_check platform.hostname quotas (params_of context config))

more : (a : ℤ) (n : ℕ) → pos 0 ≤ℤ a → pos 0 ≤ℤ a +ℤ pos n
more a n h = grind int_laws

module _ (r : Redis) (c : Counts r) (e : Expires r c) (t : Ttls r c) (Net : Type 0)
    (axios : HttpRequest → Net → HttpAnswer × Net) (platform : Platform) (limiters : Limiters)
    (lease_id : String) (now : ℕ) where
  abbrev Out : Type 0
  Out = Outside r Net axios platform limiters lease_id now

  -- The numbers in Redis are as before.
  abbrev pub SameCounts : r.Store → r.Store → Type 0
  SameCounts s s' = (k : String) → c.count s' k ≡ c.count s k

  call_leased_redis :
      (context : StepContext) (config : Fields) (input : Json) (timeout_ms : ℕ)
      (result : OutboundConcurrencyResult) (out : Out)
      → (call_leased r Net axios platform limiters lease_id now context config input timeout_ms
          result out).1.redis
        ≡ (release r (lease_of result) out.metrics out.redis).1
  unfolding call_leased call_http release_after
  call_leased_redis context config input timeout_ms (acquired lease) out = refl
  call_leased_redis context config input timeout_ms (rejected scope wait count limit) out =
      sym (release-none r c out.metrics out.redis)

  call_with_slot-SameCounts :
      (context : StepContext) (config : Fields) (input : Json) (timeout_ms : ℕ) (out : Out)
      → NonNegative r c out.redis
      → SameCounts out.redis
          (call_with_slot r Net axios platform limiters lease_id now context config input timeout_ms
            out).1.redis
  unfolding call_with_slot call_http
  call_with_slot-SameCounts context config input timeout_ms out nn k =
      elim (Option-cases limiters.concurrency) [
        | inl off ↦ rw (off, call_with_slot) refl
        | inr (limits, on) ↦
            rw (on, call_with_slot)
              (ap (λ s. c.count s k) (call_leased_redis context config input timeout_ms _ _)
                ∙ release-acquire r c e platform.hostname limits (params_of context config) lease_id
                    out.metrics _ out.redis nn k)
      ]

  -- What a step may do to the numbers in Redis: nothing, or one request at each of its quotas.
  abbrev pub IsCharged : List String → r.Store → r.Store → Type 0
  IsCharged keys s s' =
      SameCounts s s' ⊎ ((k : String) → c.count s' k ≡ c.count s k +ℤ pos (occurs k keys))

  call_allowed-IsCharged :
      (context : StepContext) (config : Fields) (input : Json) (timeout_ms : ℕ)
      (quotas : OutboundRateLimitConfig) (result : OutboundRateLimitCheckResult) (s : r.Store)
      (out : Out)
      → NonNegative r c s
      → IsEven r c e t
          (quotas_to_check platform.hostname quotas (params_of context config))
          []
          s
          (result, out.redis)
      → IsCharged
          (charge_keys platform (some quotas) context config)
          s
          (call_allowed r Net axios platform limiters lease_id now context config input timeout_ms
            result out).1.redis
  unfolding call_allowed
  call_allowed-IsCharged context config input timeout_ms quotas (limited scope wait n limit) s out
        nn (w, room, counts) =
      inl (λ k. grind (int_laws, counts k))
  call_allowed-IsCharged context config input timeout_ms quotas allowed s out nn counts =
      let same =
        call_with_slot-SameCounts context config input timeout_ms out
          (λ k. rw (counts k) (more _ _ (nn k))) in
      inr (λ k. same k ∙ counts k)

  call_within_rate-IsCharged :
      (context : StepContext) (config : Fields) (input : Json) (timeout_ms : ℕ) (out : Out)
      → NonNegative r c out.redis
      → IsCharged
          (charge_keys platform limiters.rate context config)
          out.redis
          (call_within_rate r Net axios platform limiters lease_id now context config input
            timeout_ms out).1.redis
  unfolding call_within_rate
  call_within_rate-IsCharged context config input timeout_ms out nn =
      elim (Option-cases limiters.rate) [
        | inl off ↦
            rw (off, call_within_rate)
              (inl (call_with_slot-SameCounts context config input timeout_ms out nn))
        | inr (quotas, on) ↦
            rw (on, call_within_rate)
              (call_allowed-IsCharged context config input timeout_ms quotas _ out.redis _ nn (
                check_and_consume-IsEven r c e t platform.hostname quotas (params_of context config)
                  out.redis))
      ]

  execute_http-IsCharged :
      (context : StepContext) (config : Fields) (input : Json) (out : Out)
      → NonNegative r c out.redis
      → IsCharged
          (charge_keys platform limiters.rate context config)
          out.redis
          (execute_http r Net axios platform limiters lease_id now context config input out).1.redis
  unfolding execute_http
  execute_http-IsCharged context config input out nn =
      elim (Option-cases
        (resolve_http_timeout (timeout_of platform.number_of (get_field "timeoutMs" config)))) [
          | inl bad ↦ rw (bad, execute_http) (inl (λ k. refl))
          | inr (timeout_ms, fine) ↦
              rw (fine, execute_http)
                (call_within_rate-IsCharged context config input timeout_ms out nn)
        ]

  -- On a Redis that answers and holds no negative number, a step leaves every number as it was, or
  -- has counted one request at each of its rate quotas: whatever the HTTP call does, no slot of the
  -- concurrency limiter stays taken.
  pub execute_step-IsCharged :
      (context : StepContext) (at : String) (step : Step) (input : Json) (out : Out)
      → NonNegative r c out.redis
      → IsCharged
          (charge_keys platform limiters.rate context (object_fields step.config))
          out.redis
          (execute_step r Net axios platform limiters lease_id now context at step input
            out).1.redis
  unfolding execute_step
  execute_step-IsCharged context at step input out nn =
      elim (Bool-cases (step.action_type =ₛ "http_request")) [
        | inl web ↦
            rw (web, execute_step)
              (execute_http-IsCharged context (object_fields step.config) input out nn)
        | inr other ↦
            rw (other, execute_step)
              (elim (Bool-cases (step.action_type =ₛ "data_transform")) [
                | inl data_step ↦ rw (data_step, execute_step) (inl (λ k. refl))
                | inr no_data ↦
                    rw (no_data, execute_step)
                      (elim (Bool-cases (step.action_type =ₛ "email_notification")) [
                        | inl email ↦ rw (email, execute_step) (inl (λ k. refl))
                        | inr rest ↦ rw (rest, execute_step) (inl (λ k. refl))
                      ])
              ])
      ]
