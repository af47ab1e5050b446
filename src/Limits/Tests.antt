-- ===== src/Limits/Tests.antt =====
-- Runs of the limiters on it.
use forge_gate.Base.{String, true, false, Option, none, some, [], ◌∷◌, ◌≡◌, refl, arith}
use forge_gate.Base.Int.{ℤ, pos, ◌+ℤ◌}
use forge_gate.Limits.Memory.{memory, memory_counts, memory_expires, memory_ttls}
use forge_gate.Limits.Clocked.{Timed, number_in, clocked, elapse, clocked_counts, clocked_lasts}
use forge_gate.Limits.Provider.{CheckParams}
use forge_gate.Limits.Concurrency.{
  OutboundConcurrencyConfig, acquired, Metrics, acquire, scopes_to_check, push_scope, release,
}
use forge_gate.Limits.Concurrency.Balance.{
  IsBalanced, acquire-IsBalanced, release-acquire, lease_of,
}
use forge_gate.Limits.Concurrency.Room.{is_acquired, is_acquired-acquire}
use forge_gate.Limits.Concurrency.Failure.{acquire_leaks}
use forge_gate.Limits.RateLimit.{OutboundRateLimitConfig, quotas_to_check, check_and_consume}
use forge_gate.Limits.RateLimit.Balance.{IsEven, check_and_consume-IsEven}
use forge_gate.Limits.Gateway.{
  GatewayRequest, gateway_can_activate, after_requests, rate_key, verdict, too_many_requests,
  after_requests-lasting,
}

abbrev no_host : String → Option String
no_host url = none

abbrev limits : OutboundConcurrencyConfig
limits = record {
  global_max_concurrency = some 2;
  tenant_limits = λ t. some 1;
  provider_limits = λ p. none;
  tenant_provider_limits = λ t p. none;
  step_limits = λ id. none;
}

abbrev call : CheckParams
call = record {
  tenant_id = "acme";
  provider = some "Stripe";
  url = none;
  workflow_id = none;
  step_id = none;
  step_config = none;
}

abbrev no_metrics : Metrics
no_metrics = record {
  acquired_total = 0;
  rejected_total = 0;
  released_total = 0;
  deferred_total = 0;
}

abbrev empty : String → ℤ
empty k = pos 0

acquire-IsBalanced_example :
    let t = acquire (memory true) no_host limits call "lease" no_metrics empty in
    IsBalanced
      (memory true)
      (memory_counts true)
      (scopes_to_check no_host limits call)
      empty
      t.0
      t.2
acquire-IsBalanced_example =
    acquire-IsBalanced (memory true) (memory_counts true) memory_expires no_host limits call "lease"
      no_metrics empty

release-acquire_example :
    let t = acquire (memory true) no_host limits call "lease" no_metrics empty in
    (release (memory true) (lease_of t.0) no_metrics t.2).1 "outbound:conc:global" ≡ pos 0
release-acquire_example =
    release-acquire (memory true) (memory_counts true) memory_expires no_host limits call "lease"
      no_metrics no_metrics empty (λ k. omega arith) "outbound:conc:global"

is_acquired-acquire_example :
    is_acquired (acquire (memory true) no_host limits call "lease" no_metrics empty).0 ≡ true
unfolding scopes_to_check push_scope
is_acquired-acquire_example =
    is_acquired-acquire (memory true) (memory_counts true) memory_expires no_host limits call
      "lease" no_metrics empty

acquire_leaks_example :
    let t = acquire (memory false) no_host limits call "lease" no_metrics empty in
    (t.0 ≡ acquired (record { lease_id = "lease"; acquired_keys = [] }))
    × ((release (memory false) (lease_of t.0) no_metrics t.2).1 "outbound:conc:global" ≡ pos 1)
unfolding scopes_to_check push_scope ◌+ℤ◌
acquire_leaks_example =
    acquire_leaks (memory false) (memory_counts false) no_host limits call "lease" no_metrics
      no_metrics empty (λ k n s. (refl, λ k'. refl)) "outbound:conc:global"

abbrev quotas : OutboundRateLimitConfig
quotas = record {
  global_limit = some (record { limit = 1; window_seconds = 60 });
  provider_limits = λ p. some (record { limit = 5; window_seconds = 10 });
  tenant_provider_limits = λ t p. none;
  step_limits = λ id. none;
}

check_and_consume-IsEven_example :
    IsEven
      (memory true)
      (memory_counts true)
      memory_expires
      memory_ttls
      (quotas_to_check no_host quotas call)
      []
      empty
      (check_and_consume (memory true) no_host quotas call empty)
check_and_consume-IsEven_example =
    check_and_consume-IsEven (memory true) (memory_counts true) memory_expires memory_ttls no_host
      quotas call empty

abbrev from_acme : GatewayRequest
from_acme = record { ip = some "10.0.0.1"; remote_address = none; tenant_header = some "acme" }

-- Every key is counted at 99, and the EXPIRE of each has failed.
abbrev counted_99 : Timed
counted_99 = record { clock = 0; keys = λ k. record { number = pos 99; until = none } }

after_requests-lasting_example :
    let after = after_requests clocked elapse (5000 ∷ 90000 ∷ []) from_acme counted_99 in
    (clocked_lasts.is_lasting after (rate_key from_acme) ≡ true)
    × (number_in after (rate_key from_acme) ≡ pos 99 +ℤ pos 2)
    × ((gateway_can_activate clocked from_acme (elapse 3600000 after)).0
        ≡ verdict (pos 99 +ℤ pos 2 +ℤ pos 1))
after_requests-lasting_example =
    after_requests-lasting clocked clocked_counts elapse clocked_lasts (5000 ∷ 90000 ∷ []) 3600000
      from_acme counted_99 refl (omega arith)

-- The verdict there.
refused_for_good : verdict (pos 99 +ℤ pos 2 +ℤ pos 1) ≡ too_many_requests
unfolding ◌+ℤ◌
refused_for_good = refl
