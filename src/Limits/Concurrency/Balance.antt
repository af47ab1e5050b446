-- ===== src/Limits/Concurrency/Balance.antt =====
-- `acquire` and `release` of the concurrency limiter keep the numbers in Redis in balance.
use forge_gate.Base.{ℕ, ◌+◌, String, false, Option, none, some, List, [], ◌∷◌, ◌≡◌, refl}
use forge_gate.Base.Int.{ℤ, pos, ◌+ℤ◌, ◌-ℤ◌, ◌≤ℤ◌, ltb_ℤ, int_laws}
use forge_gate.Limits.Redis.{Redis, Counts, Expires, hit, hit_self, occurs}
use forge_gate.Limits.Provider.{CheckParams}
use forge_gate.Limits.Concurrency.{
  OutboundConcurrencyConfig, OutboundConcurrencyResult, acquired, rejected, ConcurrencyLease,
  ScopeToCheck, Taken, held, full, Metrics, scopes_to_check, acquire_scopes, acquire, as_result,
  release_key, release_keys, release,
}
use forge_gate.Limits.Concurrency.Ledger.{keys_of, IsSettled, acquire_scopes-IsSettled}

-- What the engine releases after a call: the lease, if there is one.
abbrev pub lease_of : OutboundConcurrencyResult → Option ConcurrencyLease
lease_of (acquired lease) = some lease
lease_of (rejected _ _ _ _) = none

module _ (r : Redis) (c : Counts r) where
  -- What a call of `acquire` for some scopes may leave behind: a lease on all of them, each counted
  -- once, or a refusal at a scope that was full, with every number as it was.
  abbrev pub IsBalanced : List ScopeToCheck → r.Store → OutboundConcurrencyResult → r.Store → Type 0
  IsBalanced scopes s (acquired lease) s' =
      (lease.acquired_keys ≡ keys_of scopes)
      × ((k : String) → c.count s' k ≡ c.count s k +ℤ pos (occurs k (keys_of scopes)))
  IsBalanced scopes s (rejected scope seconds n limit) s' =
      (pos limit ≤ℤ n) × ((k : String) → c.count s' k ≡ c.count s k)

  as_result-IsBalanced :
      (scopes : List ScopeToCheck) (s : r.Store) (lease_id : String) (t : Taken × r.Store)
      → IsSettled r c scopes [] s t
      → IsBalanced scopes s (as_result lease_id t.0) t.1
  as_result-IsBalanced scopes s lease_id (held keys, s') settled = settled
  as_result-IsBalanced scopes s lease_id (full scope n limit, s') (room, counts) =
      (room, λ k. grind (int_laws, counts k))

  abbrev pub NonNegative : r.Store → Type 0
  NonNegative s = (k : String) → pos 0 ≤ℤ c.count s k

  not_below :
      (k : String) (n b : ℤ) (m : ℕ)
      → n ≡ b +ℤ pos (hit k k + m)
      → pos 0 ≤ℤ b
      → ltb_ℤ (n -ℤ pos 1) (pos 0) ≡ false
  not_below k n b m h pos_b = grind (int_laws, hit_self k)

  less : (a b d : ℤ) (n m : ℕ) → a ≡ b -ℤ pos n → b ≡ d +ℤ pos (n + m) → a ≡ d +ℤ pos m
  less a b d n m h g = grind int_laws

  -- A key whose number is not 0 is only counted down.
  release_key-decr :
      (x : String) (s : r.Store)
      → ltb_ℤ (c.count s x -ℤ pos 1) (pos 0) ≡ false
      → release_key r x s ≡ (r.decr x s).1
  unfolding release_key
  release_key-decr x s h = rw (c.decr_reply x s, release_key) (rw h refl)

  release_keys-count :
      (keys : List String) (base s : r.Store)
      → NonNegative base
      → ((k : String) → c.count s k ≡ c.count base k +ℤ pos (occurs k keys))
      → (k : String) → c.count (release_keys r keys s) k ≡ c.count base k
  unfolding release_keys
  release_keys-count [] base s nn h k = grind (int_laws, h k)
  release_keys-count (x ∷ xs) base s nn h k =
      rw (release_key-decr x s (not_below x _ _ (occurs x xs) (h x) (nn x))) (
        release_keys-count xs base (r.decr x s).1 nn
          (λ k'. less _ _ _ (hit x k') (occurs k' xs) (c.decr_count x s k') (h k')) k)

  release_store :
      (id : String) (keys : List String) (metrics : Metrics) (s : r.Store)
      → (release r (some (record { lease_id = id; acquired_keys = keys })) metrics s).1
        ≡ release_keys r keys s
  unfolding release release_keys
  release_store id [] metrics s = refl
  release_store id (k ∷ ks) metrics s = refl

  pub release-none : (metrics : Metrics) (s : r.Store) → (release r none metrics s).1 ≡ s
  unfolding release
  release-none metrics s = refl

  release-IsBalanced :
      (scopes : List ScopeToCheck) (s s' : r.Store) (result : OutboundConcurrencyResult)
      (metrics : Metrics)
      → NonNegative s
      → IsBalanced scopes s result s'
      → (k : String) → c.count (release r (lease_of result) metrics s').1 k ≡ c.count s k
  release-IsBalanced scopes s s' (rejected _ _ _ _) metrics nn (room, counts) k =
      rw (release-none metrics s') (counts k)
  release-IsBalanced scopes s s' (acquired lease) metrics nn (keys, counts) k =
      rw (release_store lease.lease_id lease.acquired_keys metrics s')
        (rw keys (release_keys-count (keys_of scopes) s s' nn counts k))

  module _ (e : Expires r c) where
    -- On a Redis that answers, a call of `acquire` either acquires every scope that has a limit,
    -- counts each of them once and leases exactly their keys, or is rejected at a scope whose number
    -- is not below its limit, with every number in Redis as it was before.
    pub acquire-IsBalanced :
        (hostname : String → Option String) (config : OutboundConcurrencyConfig)
        (params : CheckParams) (lease_id : String) (metrics : Metrics) (s : r.Store)
        → let t = acquire r hostname config params lease_id metrics s in
          IsBalanced (scopes_to_check hostname config params) s t.0 t.2
    unfolding acquire
    acquire-IsBalanced hostname config params lease_id metrics s =
        let scopes = scopes_to_check hostname config params in
        as_result-IsBalanced scopes s lease_id (acquire_scopes r scopes [] s)
          (acquire_scopes-IsSettled r c e scopes [] s)

    -- On a Redis that answers and holds no negative number, releasing what a call of `acquire` gave
    -- makes every number what it was before the call.
    pub release-acquire :
        (hostname : String → Option String) (config : OutboundConcurrencyConfig)
        (params : CheckParams) (lease_id : String) (metrics m : Metrics) (s : r.Store)
        → NonNegative s
        → (k : String)
        → let t = acquire r hostname config params lease_id metrics s in
          c.count (release r (lease_of t.0) m t.2).1 k ≡ c.count s k
    release-acquire hostname config params lease_id metrics m s nn k =
        let t = acquire r hostname config params lease_id metrics s in
        release-IsBalanced (scopes_to_check hostname config params) s t.2 t.0 m nn
          (acquire-IsBalanced hostname config params lease_id metrics s) k
