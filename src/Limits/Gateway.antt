-- ===== src/Limits/Gateway.antt =====
-- apps/api-gateway/src/rate-limiter/rate-limiter.guard.ts. A request is the address and the tenant
-- header that it comes with.
use forge_gate.Base.{
  ℕ, zero, suc, String, ◌<>◌, true, false, Option, none, some, List, [], ◌∷◌, length, ◌≡◌, refl,
  ◌∙◌, Bool-cases, inl, inr, ap, if◌then◌else◌, arith,
}
use forge_gate.Base.Int.{ℤ, pos, negsuc, ◌+ℤ◌, ◌≤ℤ◌, ltb_ℤ, int_laws}
use forge_gate.Js.Text.{or_text?}
use forge_gate.Limits.Redis.{Redis, Counts, Lasts, hit, hit_self}
use forge_gate.Limits.RateLimit.{is_one, expire_first}

pub record GatewayRequest : Type 0 where
  pub ip : Option String
  pub remote_address : Option String
  pub tenant_header : Option String

pub data GatewayVerdict : Type 0 where
  passed too_many_requests : GatewayVerdict

abbrev pub window_seconds : ℕ
window_seconds = 60

abbrev pub max_requests_per_window : ℕ
max_requests_per_window = 100

unfoldable pub rate_key : GatewayRequest → String
rate_key req =
    let ip = or_text? req.ip (or_text? req.remote_address "127.0.0.1") in
    "rate_" <> or_text? req.tenant_header "global" <> "_" <> ip

-- The verdict on the number that a request gets.
abbrev pub verdict : ℤ → GatewayVerdict
verdict current = if ltb_ℤ (pos max_requests_per_window) current then too_many_requests else passed

step_up : (a : ℤ) (n : ℕ) → a +ℤ pos 1 +ℤ pos n ≡ a +ℤ pos (suc n)
step_up a n = grind int_laws

no_more : (a : ℤ) → a ≡ a +ℤ pos 0
no_more a = grind int_laws

one_more : (key : String) (a b : ℤ) → a ≡ b → a +ℤ pos (hit key key) ≡ b +ℤ pos 1
one_more key a b e = rw (hit_self key, e) refl

not_first : (n : ℤ) → pos 1 ≤ℤ n → is_one (n +ℤ pos 1) ≡ false
unfolding ◌+ℤ◌
not_first (pos zero) h = absurd (omega arith)
not_first (pos (suc n)) h = ground arith
not_first (negsuc n) h = absurd (omega arith)

module _ (r : Redis) where
  -- `canActivate`; a command that throws lets the request pass.
  unfoldable pub gateway_can_activate : GatewayRequest → r.Store → GatewayVerdict × r.Store
  gateway_can_activate req s =
      let key = rate_key req in
      let s1 = (r.incr key s).1 in
      elim (r.incr key s).0 [
        | none ↦ (passed, s1)
        | some current ↦
            let expired = expire_first r key window_seconds current s1 in
            elim expired.0 [
              | false ↦ (passed, expired.1)
              | true ↦
                  if ltb_ℤ (pos max_requests_per_window) current
                  then (too_many_requests, expired.1)
                  else (passed, expired.1)
            ]
      ]

  -- The store after requests with the same key, each with the milliseconds that went by before it.
  unfoldable pub after_requests :
      (ℕ → r.Store → r.Store) → List ℕ → GatewayRequest → r.Store → r.Store
  after_requests elapse [] req s = s
  after_requests elapse (wait ∷ waits) req s =
      after_requests elapse waits req (gateway_can_activate req (elapse wait s)).1

  expire_counted :
      (key : String) (window : ℕ) (count : ℤ) (s : r.Store)
      → is_one count ≡ false
      → expire_first r key window count s ≡ (true, s)
  unfolding expire_first
  expire_counted key window count s h = rw (h, expire_first) refl

  module _ (c : Counts r) where
    -- One request to a key that is counted already.
    counted_request :
        (req : GatewayRequest) (s : r.Store)
        → pos 1 ≤ℤ c.count s (rate_key req)
        → gateway_can_activate req s
          ≡ (verdict (c.count s (rate_key req) +ℤ pos 1), (r.incr (rate_key req) s).1)
    unfolding gateway_can_activate
    counted_request req s h =
        let current = c.count s (rate_key req) +ℤ pos 1 in
        let first =
          expire_counted (rate_key req) window_seconds current (r.incr (rate_key req) s).1
            (not_first (c.count s (rate_key req)) h) in
        rw (c.incr_reply (rate_key req) s, gateway_can_activate)
          (rw first (elim (Bool-cases (ltb_ℤ (pos max_requests_per_window) current)) [
            | inl over ↦ rw over (rw first refl)
            | inr below ↦ rw below (rw first refl)
          ]))

    module _ (elapse : ℕ → r.Store → r.Store) (lasts : Lasts r c elapse) where
      -- The key is counted at a number, and has no time to live.
      abbrev IsLastingAt : String → ℤ → r.Store → Type 0
      IsLastingAt key n s = (lasts.is_lasting s key ≡ true) × (c.count s key ≡ n)

      wait-IsLastingAt :
          (wait : ℕ) (key : String) (n : ℤ) (s : r.Store)
          → IsLastingAt key n s
          → IsLastingAt key n (elapse wait s)
      wait-IsLastingAt wait key n s (lasting, at) =
          (lasts.elapse_lasting wait s key lasting, lasts.elapse_count wait s key lasting ∙ at)

      request-IsLastingAt :
          (wait : ℕ) (req : GatewayRequest) (n : ℤ) (s : r.Store)
          → pos 1 ≤ℤ n
          → IsLastingAt (rate_key req) n s
          → let next = gateway_can_activate req (elapse wait s) in
            (next.0 ≡ verdict (n +ℤ pos 1)) × IsLastingAt (rate_key req) (n +ℤ pos 1) next.1
      request-IsLastingAt wait req n s counted h =
          let key = rate_key req in
          let waited = wait-IsLastingAt wait key n s h in
          let first : pos 1 ≤ℤ c.count (elapse wait s) key = rw waited.1 counted in
          rw (counted_request req (elapse wait s) first) (
            ap (λ x. verdict (x +ℤ pos 1)) waited.1,
            (
              lasts.incr_lasting key (elapse wait s) key waited.0,
              c.incr_count key (elapse wait s) key ∙ one_more key _ n waited.1,
            ),
          )

      requests-IsLastingAt :
          (waits : List ℕ) (req : GatewayRequest) (n : ℤ) (s : r.Store)
          → pos 1 ≤ℤ n
          → IsLastingAt (rate_key req) n s
          → IsLastingAt (rate_key req) (n +ℤ pos (length waits)) (after_requests elapse waits req s)
      unfolding after_requests
      requests-IsLastingAt [] req n s counted h = (h.0, h.1 ∙ no_more n)
      requests-IsLastingAt (wait ∷ waits) req n s counted h =
          let next = gateway_can_activate req (elapse wait s) in
          let one = request-IsLastingAt wait req n s counted h in
          let rest = requests-IsLastingAt waits req (n +ℤ pos 1) next.1 (grind int_laws) one.1 in
          (rest.0, rest.1 ∙ step_up n (length waits))

      -- On a Redis that answers INCR, where the key of a request is counted and has no time to live,
      -- as it is after an EXPIRE that failed, it gets none from any number of requests, however much
      -- time goes by before each; each of them is counted for good, so that the next one gets the
      -- verdict on the number that the key was counted at, plus theirs, plus 1.
      pub after_requests-lasting :
          (waits : List ℕ) (wait : ℕ) (req : GatewayRequest) (s : r.Store)
          → lasts.is_lasting s (rate_key req) ≡ true
          → pos 1 ≤ℤ c.count s (rate_key req)
          → let after = after_requests elapse waits req s in
            (lasts.is_lasting after (rate_key req) ≡ true)
            × (c.count after (rate_key req) ≡ c.count s (rate_key req) +ℤ pos (length waits))
            × ((gateway_can_activate req (elapse wait after)).0
                ≡ verdict (c.count s (rate_key req) +ℤ pos (length waits) +ℤ pos 1))
      after_requests-lasting waits wait req s lasting counted =
          let n = c.count s (rate_key req) in
          let later = requests-IsLastingAt waits req n s counted (lasting, refl) in
          let next =
            request-IsLastingAt wait req (n +ℤ pos (length waits)) _ (grind int_laws) later in
          (later.0, later.1, next.0)
