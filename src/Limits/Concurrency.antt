-- ===== src/Limits/Concurrency.antt =====
-- outbound-concurrency-limiter.ts. Limits are whole numbers; a configured limit of 0 is none. The
-- identifier of a lease, made from the clock and `Math.random()`, is an argument.
pub mod Ledger
pub mod Balance
pub mod Keys
pub mod Room
pub mod Failure
use forge_gate.Base.{
  ℕ, zero, suc, ◌+◌, String, ◌<>◌, Bool, true, false, Option, none, some, List, [], ◌∷◌, ◌++◌, ltb,
  ◌==◌, ◌=ₛ◌, if◌then◌else◌,
}
use forge_gate.Base.Int.{ℤ, pos, ◌-ℤ◌, ltb_ℤ}
use forge_gate.Js.Text.{or_text, or_text?}
use forge_gate.Limits.Redis.{Redis}
use forge_gate.Limits.Provider.{StepConfig, CheckParams, provider_of}

pub data Scope : Type 0 where
  global tenant provider tenant_provider step : Scope

-- A record of limits is a function; a missing entry is `none`.
pub record OutboundConcurrencyConfig : Type 0 where
  pub global_max_concurrency : Option ℕ
  pub tenant_limits : String → Option ℕ
  pub provider_limits : String → Option ℕ
  pub tenant_provider_limits : String → String → Option ℕ
  pub step_limits : String → Option ℕ

pub record ScopeToCheck : Type 0 where
  pub scope : Scope
  pub key : String
  pub limit : ℕ

pub record ConcurrencyLease : Type 0 where
  pub lease_id : String
  pub acquired_keys : List String

pub data OutboundConcurrencyResult : Type 0 where
  acquired : ConcurrencyLease → OutboundConcurrencyResult
  rejected :
      (exceeded_scope : Scope) (retry_after_seconds : ℕ) (current_count : ℤ) (limit : ℕ)
      → OutboundConcurrencyResult

pub record Metrics : Type 0 where
  pub acquired_total : ℕ
  pub rejected_total : ℕ
  pub released_total : ℕ
  pub deferred_total : ℕ

-- `if (limit && limit > 0) scopesToCheck.push({ scope, key, limit })`, before the scopes behind it.
unfoldable pub push_scope : Scope → String → Option ℕ → List ScopeToCheck → List ScopeToCheck
push_scope scope key none rest = rest
push_scope scope key (some limit) rest =
    if limit == 0 then rest else record { scope = scope; key = key; limit = limit } ∷ rest

-- `a || b` on limits
or_limit : Option ℕ → Option ℕ → Option ℕ
or_limit none b = b
or_limit (some a) b = if a == 0 then b else some a

-- `params.stepId ? stepLimits?.[params.stepId] : undefined`
step_limit_of : (String → Option ℕ) → Option String → Option ℕ
step_limit_of limits none = none
step_limit_of limits (some id) = if id =ₛ "" then none else limits id

own_limit : Option StepConfig → Option ℕ
own_limit none = none
own_limit (some config) = config.outbound_concurrency

abbrev pub step_key : String → Option String → Option String → String
step_key t workflow_id step_id =
    "outbound:conc:step:" <> t <> ":" <> or_text? workflow_id "wf" <> ":" <> or_text? step_id "step"

module _ (hostname : String → Option String) (config : OutboundConcurrencyConfig) where
  unfoldable pub scopes_to_check : CheckParams → List ScopeToCheck
  unfolding or_limit step_limit_of own_limit
  scopes_to_check params =
      let p = provider_of hostname params in
      let t = or_text params.tenant_id "default" in
      let step_limit =
        or_limit (own_limit params.step_config) (step_limit_of config.step_limits params.step_id) in
      push_scope step (step_key t params.workflow_id params.step_id) step_limit (
        push_scope tenant_provider ("outbound:conc:tenant_provider:" <> t <> ":" <> p)
          (config.tenant_provider_limits t p)
          (push_scope tenant ("outbound:conc:tenant:" <> t) (config.tenant_limits t) (
            push_scope provider ("outbound:conc:provider:" <> p) (config.provider_limits p)
              (push_scope global "outbound:conc:global" config.global_max_concurrency []))))

abbrev pub default_lease_ttl : ℕ
default_lease_ttl = 60

-- How the loop of `acquire` ends: with the keys that were acquired, or at a scope that is full.
pub data Taken : Type 0 where
  held : List String → Taken
  full : (exceeded_scope : Scope) (current_count : ℤ) (limit : ℕ) → Taken

abbrev pub count_acquire : OutboundConcurrencyResult → Metrics → Metrics
count_acquire (acquired lease) m = record m { acquired_total = m.acquired_total + 1 }
count_acquire (rejected _ _ _ _) m = record m {
  rejected_total = m.rejected_total + 1;
  deferred_total = m.deferred_total + 1;
}

abbrev pub as_result : String → Taken → OutboundConcurrencyResult
as_result lease_id (held keys) = acquired (record { lease_id = lease_id; acquired_keys = keys })
as_result lease_id (full scope count limit) = rejected scope 2 count limit

module _ (r : Redis) where
  -- One DECR after the other; false as soon as one throws.
  unfoldable pub decr_all : List String → r.Store → Bool × r.Store
  decr_all [] s = (true, s)
  decr_all (k ∷ ks) s = elim (r.decr k s).0 [
    | none ↦ (false, (r.decr k s).1)
    | some n ↦ decr_all ks (r.decr k s).1
  ]

  -- The loop of `acquire`. A command that throws leaves the scope out and goes on with the next.
  unfoldable pub acquire_scopes : List ScopeToCheck → List String → r.Store → Taken × r.Store
  acquire_scopes [] keys s = (held keys, s)
  acquire_scopes (item ∷ rest) keys s =
      let after_incr = (r.incr item.key s).1 in
      let after_expire = (r.expire item.key default_lease_ttl after_incr).1 in
      elim (r.incr item.key s).0 [
        | none ↦ acquire_scopes rest keys after_incr
        | some count ↦ elim (r.expire item.key default_lease_ttl after_incr).0 [
          | none ↦ acquire_scopes rest keys after_expire
          | some there ↦ elim (ltb_ℤ (pos item.limit) count) [
            | false ↦ acquire_scopes rest (keys ++ (item.key ∷ [])) after_expire
            | true ↦
                let undone = decr_all (item.key ∷ keys) after_expire in
                elim undone.0 [
                  | false ↦ acquire_scopes rest keys undone.1
                  | true ↦ (full item.scope (count -ℤ pos 1) item.limit, undone.1)
                ]
          ]
        ]
      ]

  -- `acquire`: the result, the counters of the limiter and the store.
  unfoldable pub acquire :
      (String → Option String)
      → OutboundConcurrencyConfig
      → CheckParams
      → (lease_id : String) → Metrics
      → r.Store
      → OutboundConcurrencyResult × Metrics × r.Store
  acquire hostname config params lease_id metrics s =
      let taken = acquire_scopes (scopes_to_check hostname config params) [] s in
      let result = as_result lease_id taken.0 in (result, count_acquire result metrics, taken.1)

  -- The DECR of one key of a lease, set back to 0 where it falls below; errors are dropped.
  unfoldable pub release_key : String → r.Store → r.Store
  release_key key s =
      let after = (r.decr key s).1 in
      elim (r.decr key s).0 [
        | none ↦ after
        | some count ↦ if ltb_ℤ count (pos 0) then (r.set key 0 after).1 else after
      ]

  unfoldable pub release_keys : List String → r.Store → r.Store
  release_keys [] s = s
  release_keys (k ∷ ks) s = release_keys ks (release_key k s)

  unfoldable pub release : Option ConcurrencyLease → Metrics → r.Store → Metrics × r.Store
  release none metrics s = (metrics, s)
  release (some lease) metrics s = elim lease.acquired_keys [
    | [] ↦ (metrics, s)
    | k ∷ ks ↦
        (record metrics { released_total = metrics.released_total + 1 }, release_keys (k ∷ ks) s)
  ]
