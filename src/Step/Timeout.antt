-- ===== src/Step/Timeout.antt =====
-- http-timeout-resolver.ts. `Number(x)` of the configured value is the argument: absent (also for
-- the empty text), not a number, infinite, or a fraction; its sign stands apart.
use native.Mathlib.Nat.{div-le_of_le-mul, div-lt_iff_lt-mul, mul-div-le, lt-mul-div-succ}
use forge_gate.Base.{
  ℕ, ◌+◌, ◌/◌, ◌*◌, ◌≤◌, ◌<◌, ◌≡◌, ◌↔◌, ◌⊎◌, some, none, arith, Option, ltb, ◌==◌, if◌then◌else◌,
  suc,
}

-- A value of `timeoutMs` as `Number` reads it. A finite one is numerator over denominator.
pub data Configured : Type 0 where
  absent not_a_number infinite negative : Configured
  fraction : (num den : ℕ) → Configured

abbrev pub default_http_timeout_ms : ℕ
default_http_timeout_ms = 5000

abbrev pub max_global_http_timeout_ms : ℕ
max_global_http_timeout_ms = 60000

-- `none` is the exception.
unfoldable pub resolve_http_timeout : Configured → Option ℕ
resolve_http_timeout absent = some default_http_timeout_ms
resolve_http_timeout (fraction num den) =
    if num == 0
    then none
    else if ltb (max_global_http_timeout_ms * suc den) num
    then some max_global_http_timeout_ms
    else some (num / suc den)
resolve_http_timeout _ = none

-- A timeout for a configured number is at most a minute, never more than the number, and a whole
-- millisecond less at most, unless the minute cuts it off.
pub resolve_http_timeout_bounds :
    (num den ms : ℕ)
    → resolve_http_timeout (fraction num den) ≡ some ms
    → (ms ≤ max_global_http_timeout_ms)
      × (suc den * ms ≤ num)
      × ((ms ≡ max_global_http_timeout_ms) ⊎ (num < suc den * (ms + 1)))
unfolding resolve_http_timeout
resolve_http_timeout_bounds num den ms h = ground (
  arith,
  div-le_of_le-mul (suc den) {m = num} {n = max_global_http_timeout_ms},
  mul-div-le num (suc den),
  lt-mul-div-succ num {b = suc den} (omega arith),
)

-- A positive number below one is accepted and gives the timeout 0, which the HTTP client reads as
-- no timeout.
pub resolve_http_timeout-eq-zero_iff :
    (num den : ℕ)
    → (resolve_http_timeout (fraction num den) ≡ some 0) ↔ ((0 < num) × (num < suc den))
unfolding resolve_http_timeout
resolve_http_timeout-eq-zero_iff num den =
    ground (arith, div-lt_iff_lt-mul {k = suc den} {x = num} {y = 1} (omega arith))
