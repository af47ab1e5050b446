-- ===== src/Gateway/Health.antt =====
-- health/health.controller.ts: the state of Redis and of the services.
use forge_gate.Base.{
  ℕ, String, ◌<>◌, Bool, true, false, ◌&&◌, Option, none, some, ◌≡◌, ◌↔◌, refl, ◌==◌, ◌=ₛ◌,
  if◌then◌else◌, ◌≢◌, ap, arith, eq_iff, Bool-cases, inl, inr, ne_of_test,
}
use forge_gate.Gateway.{auth, workflow, notification, ServiceUrls, get_service_url}
use forge_gate.Idempotency.Redis.{Answer, answered, refused}

pub record ServiceHealth : Type 0 where
  pub status : String
  pub status_code : Option ℕ
  pub error : Option String
  pub url : String

-- What a request to a service gives: a status, or the message of an error.
pub data Probe : Type 0 where
  with_status : ℕ → Probe
  with_error : String → Probe

-- `checkServiceHealth`
unfoldable pub check_service_health :
    (get : String → Probe) → (base_url path : String) → ServiceHealth
check_service_health get base_url path = elim (get (base_url <> path)) [
  | with_status n ↦ record {
    status = if n == 200 then "up" else "down";
    status_code = some n;
    error = none;
    url = base_url <> path;
  }
  | with_error m ↦ record {
    status = "down";
    status_code = none;
    error = some m;
    url = base_url <> path;
  }
]

-- The answer to `ping`; it may throw.
unfoldable pub redis_status : Answer String → String
redis_status refused = "down"
redis_status (answered res) = if res =ₛ "PONG" then "up" else "down"

pub record Health : Type 0 where
  pub status : String
  pub redis : String
  pub auth_service : ServiceHealth
  pub workflow_service : ServiceHealth
  pub notification_service : ServiceHealth

abbrev pub overall_status : Bool → Bool → Bool → Bool → String
overall_status redis a w n = if redis && (a && (w && n)) then "healthy" else "degraded"

-- `getHealth`
unfoldable pub get_health : Answer String → (get : String → Probe) → ServiceUrls → Health
unfolding redis_status check_service_health
get_health ping get urls =
    let redis = redis_status ping in
    let a = check_service_health get (get_service_url urls auth) "/auth/health" in
    let w = check_service_health get (get_service_url urls workflow) "/workflows/health" in
    let n = check_service_health get (get_service_url urls notification) "/notifications/health" in
    record {
      status =
          overall_status (redis =ₛ "up") (a.status =ₛ "up") (w.status =ₛ "up") (n.status =ₛ "up");
      redis = redis;
      auth_service = a;
      workflow_service = w;
      notification_service = n;
    }

-- The service answers with the status 200.
abbrev pub IsUp : (String → Probe) → String → Type 0
IsUp get url = get url ≡ with_status 200

status_up_iff :
    (n : ℕ) → ((if n == 200 then "up" else "down") =ₛ "up") ≡ true ↔ with_status n ≡ with_status 200
status_up_iff n = elim (Bool-cases (n == 200)) [
  | inl h ↦ rw h ((λ e. ap with_status (ground arith)), (λ e. refl))
  | inr h ↦ rw h ((λ e. absurd (cc)), (λ e. absurd (other_status n h e)))
]
  where
    other_status : (k : ℕ) → (k == 200) ≡ false → with_status k ≢ with_status 200
    other_status k h e = let same : k ≡ 200 = cc in ground arith

check_service_health-IsUp :
    (get : String → Probe) (base path : String)
    → ((check_service_health get base path).status =ₛ "up") ≡ true ↔ IsUp get (base <> path)
unfolding check_service_health
check_service_health-IsUp get base path = probe_up_iff (get (base <> path)) refl
  where
    probe_up_iff :
        (p : Probe)
        → get (base <> path) ≡ p
        → ((check_service_health get base path).status =ₛ "up") ≡ true ↔ IsUp get (base <> path)
    probe_up_iff (with_status n) is = rw (is, check_service_health) (status_up_iff n)
    probe_up_iff (with_error m) is =
        rw (is, check_service_health) ((λ e. absurd (cc)), (λ e. absurd (cc)))

redis_up_iff : (ping : Answer String) → (redis_status ping =ₛ "up") ≡ true ↔ ping ≡ answered "PONG"
unfolding redis_status
redis_up_iff refused = ((λ e. absurd (cc)), (λ e. absurd (cc)))
redis_up_iff (answered res) = elim (Bool-cases (res =ₛ "PONG")) [
  | inl h ↦ rw h ((λ e. ap answered ((eq_iff res "PONG").0 h)), (λ e. refl))
  | inr h ↦ rw h ((λ e. absurd (cc)), (λ e. absurd (ne_of_test res "PONG" h (cc))))
]

degraded {ℓ} : {A : Type ℓ} → overall_status false false false false ≡ "healthy" → A
degraded e = absurd (ne_of_test "degraded" "healthy" refl e)

-- The status of four tests.
all_up_iff :
    (a b c d : Bool)
    → overall_status a b c d ≡ "healthy" ↔ ((a ≡ true) × (b ≡ true) × (c ≡ true) × (d ≡ true))
all_up_iff true true true true = ((λ e. (refl, refl, refl, refl)), (λ h. refl))
all_up_iff true true true false = (degraded, (λ h. absurd (cc)))
all_up_iff true true false d = (degraded, (λ h. absurd (cc)))
all_up_iff true false c d = (degraded, (λ h. absurd (cc)))
all_up_iff false b c d = (degraded, (λ h. absurd (cc)))

-- The status is "healthy" exactly when Redis answers the ping with PONG and each of the three services
-- answers the request for its health with the status 200.
pub get_health_iff :
    (ping : Answer String) (get : String → Probe) (urls : ServiceUrls)
    → (get_health ping get urls).status ≡ "healthy" ↔ (
        (ping ≡ answered "PONG")
        × IsUp get (get_service_url urls auth <> "/auth/health")
        × IsUp get (get_service_url urls workflow <> "/workflows/health")
        × IsUp get (get_service_url urls notification <> "/notifications/health"))
unfolding get_health
get_health_iff ping get urls =
    let all = all_up_iff _ _ _ _ in
    let r = redis_up_iff ping in
    let a = check_service_health-IsUp get (get_service_url urls auth) "/auth/health" in
    let w = check_service_health-IsUp get (get_service_url urls workflow) "/workflows/health" in
    let n =
      check_service_health-IsUp get (get_service_url urls notification) "/notifications/health" in
    (
      (λ h. let up = all.0 h in (r.0 up.0, a.0 up.1, w.0 up.2, n.0 up.3)),
      (λ h. all.1 (r.1 h.0, a.1 h.1, w.1 h.2, n.1 h.3)),
    )
