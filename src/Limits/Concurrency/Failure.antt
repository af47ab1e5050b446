-- ===== src/Limits/Concurrency/Failure.antt =====
-- The concurrency limiter where commands throw.
use forge_gate.Base.{ℕ, String, Option, none, List, [], ◌∷◌, ◌≡◌, refl, sym, ◌∙◌}
use forge_gate.Base.Int.{pos, ◌+ℤ◌}
use forge_gate.Limits.Redis.{Redis, Counts, hit, occurs}
use forge_gate.Limits.Provider.{CheckParams}
use forge_gate.Limits.Concurrency.{
  OutboundConcurrencyConfig, acquired, ScopeToCheck, held, Metrics, default_lease_ttl,
  scopes_to_check, acquire_scopes, acquire, release,
}
use forge_gate.Limits.Concurrency.Ledger.{keys_of, add_both, +ℤ-zero}
use forge_gate.Limits.Concurrency.Balance.{lease_of}

module _ (r : Redis) where
  acquire_scopes_offline :
      (items : List ScopeToCheck) (keys : List String) (s : r.Store)
      → ((k : String) (s : r.Store) → (r.incr k s).0 ≡ none)
      → (acquire_scopes r items keys s).0 ≡ held keys
  unfolding acquire_scopes
  acquire_scopes_offline [] keys s offline = refl
  acquire_scopes_offline (item ∷ items) keys s offline =
      rw (offline item.key s, acquire_scopes)
        (acquire_scopes_offline items keys (r.incr item.key s).1 offline)

  -- Where every INCR throws, a call of `acquire` is granted, with a lease of no key.
  pub acquire_fails_open :
      (hostname : String → Option String) (config : OutboundConcurrencyConfig)
      (params : CheckParams) (lease_id : String) (metrics : Metrics) (s : r.Store)
      → ((k : String) (s : r.Store) → (r.incr k s).0 ≡ none)
      → (acquire r hostname config params lease_id metrics s).0
        ≡ acquired (record { lease_id = lease_id; acquired_keys = [] })
  unfolding acquire
  acquire_fails_open hostname config params lease_id metrics s offline =
      rw (acquire_scopes_offline (scopes_to_check hostname config params) [] s offline) refl

  module _ (c : Counts r) where
    -- EXPIRE throws, and leaves the numbers as they are.
    abbrev pub ExpireThrows : Type 0
    ExpireThrows =
        (k : String) (n : ℕ) (s : r.Store)
        → ((r.expire k n s).0 ≡ none)
          × ((k' : String) → c.count (r.expire k n s).1 k' ≡ c.count s k')

    acquire_scopes_leak :
        (items : List ScopeToCheck) (s : r.Store)
        → ExpireThrows
        → ((acquire_scopes r items [] s).0 ≡ held [])
          × ((k : String)
              → c.count (acquire_scopes r items [] s).1 k
                ≡ c.count s k +ℤ pos (occurs k (keys_of items)))
    unfolding acquire_scopes
    acquire_scopes_leak [] s throws = (refl, λ k. sym (+ℤ-zero (c.count s k)))
    acquire_scopes_leak (item ∷ items) s throws =
        let s1 = (r.incr item.key s).1 in
        let s2 = (r.expire item.key default_lease_ttl s1).1 in
        let (lost, same) = throws item.key default_lease_ttl s1 in
        let (none_held, counts) = acquire_scopes_leak items s2 throws in
        rw (c.incr_reply item.key s, acquire_scopes)
          (rw lost (
            none_held,
            λ k.
                counts k
                ∙ add_both _ _ (hit item.key k) (occurs k (keys_of items))
                    (same k ∙ c.incr_count item.key s k),
          ))

    -- Where INCR answers and EXPIRE throws, a call of `acquire` is granted and counts every scope,
    -- but its lease names no key: after the release every scope still counts the call.
    pub acquire_leaks :
        (hostname : String → Option String) (config : OutboundConcurrencyConfig)
        (params : CheckParams) (lease_id : String) (metrics m : Metrics) (s : r.Store)
        → ExpireThrows
        → (k : String)
        → let t = acquire r hostname config params lease_id metrics s in
          (t.0 ≡ acquired (record { lease_id = lease_id; acquired_keys = [] }))
          × (c.count (release r (lease_of t.0) m t.2).1 k
              ≡ c.count s k +ℤ pos (occurs k (keys_of (scopes_to_check hostname config params))))
    unfolding acquire release
    acquire_leaks hostname config params lease_id metrics m s throws k =
        let (none_held, counts) =
          acquire_scopes_leak (scopes_to_check hostname config params) s throws in
        rw none_held (refl, counts k)
