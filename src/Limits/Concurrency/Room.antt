-- ===== src/Limits/Concurrency/Room.antt =====
-- When the concurrency limiter grants a lease.
use forge_gate.Base.{
  ℕ, String, Bool, true, false, not, ◌&&◌, Option, List, [], ◌∷◌, ◌++◌, ◌≡◌, ◌≢◌, All, refl,
  Bool-cases, Option-cases, inl, inr, ◌∙◌, ne→test,
}
use forge_gate.Base.Int.{ℤ, pos, ◌+ℤ◌, ltb_ℤ, int_laws}
use forge_gate.Limits.Redis.{Redis, Counts, Expires}
use forge_gate.Limits.Provider.{CheckParams}
use forge_gate.Limits.Concurrency.{
  OutboundConcurrencyConfig, OutboundConcurrencyResult, acquired, rejected, ScopeToCheck, Taken,
  held, full, Metrics, default_lease_ttl, scopes_to_check, acquire_scopes, acquire, as_result,
}
use forge_gate.Limits.Concurrency.Ledger.{keys_of, +ℤ-zero, decr_all-count, after_both}
use forge_gate.Limits.Concurrency.Keys.{IsDistinct, scopes_to_check-IsDistinct}

abbrev pub is_acquired : OutboundConcurrencyResult → Bool
is_acquired (acquired lease) = true
is_acquired (rejected _ _ _ _) = false

abbrev is_held : Taken → Bool
is_held (held keys) = true
is_held (full scope n limit) = false

is_held_lem : (lease_id : String) (t : Taken) → is_acquired (as_result lease_id t) ≡ is_held t
is_held_lem lease_id (held keys) = refl
is_held_lem lease_id (full scope n limit) = refl

module _ (r : Redis) (c : Counts r) where
  -- Every scope's number is below its limit.
  abbrev pub has_room : List ScopeToCheck → r.Store → Bool
  has_room [] s = true
  has_room (item ∷ rest) s = ltb_ℤ (c.count s item.key) (pos item.limit) && has_room rest s

  has_room_of_eq :
      (items : List ScopeToCheck) (s s' : r.Store)
      → All (λ k. c.count s' k ≡ c.count s k) (keys_of items)
      → has_room items s' ≡ has_room items s
  has_room_of_eq [] s s' same = refl
  has_room_of_eq (item ∷ rest) s s' (here, there) = rw (here, has_room_of_eq rest s s' there) refl

  room_test :
      (n : ℤ) (limit : ℕ) (b : Bool)
      → ltb_ℤ (pos limit) (n +ℤ pos 1) ≡ b
      → ltb_ℤ n (pos limit) ≡ not b
  room_test n limit b h = grind int_laws

  module _ (e : Expires r c) where
    unchanged :
        (key : String) (s : r.Store) (keys : List String)
        → All (λ x. key ≢ x) keys
        → All
            (λ k. c.count (r.expire key default_lease_ttl (r.incr key s).1).1 k ≡ c.count s k)
            keys
    unchanged key s [] new = tt
    unchanged key s (k ∷ ks) (differ, new) = (
      after_both r c e key s k ∙ rw (ne→test key k differ) (+ℤ-zero (c.count s k)),
      unchanged key s ks new,
    )

    acquire_scopes-is_held :
        (items : List ScopeToCheck) (keys : List String) (s : r.Store)
        → IsDistinct (keys_of items)
        → is_held (acquire_scopes r items keys s).0 ≡ has_room items s
    unfolding acquire_scopes
    acquire_scopes-is_held [] keys s distinct = refl
    acquire_scopes-is_held (item ∷ items) keys s (new, distinct) =
        let s1 = (r.incr item.key s).1 in
        let s2 = (r.expire item.key default_lease_ttl s1).1 in
        let count = c.count s item.key +ℤ pos 1 in
        elim (Option-cases (r.expire item.key default_lease_ttl s1).0) [
          | inl lost ↦ absurd (e.expire_reply item.key default_lease_ttl s1 lost)
          | inr (there, replied) ↦
              rw (c.incr_reply item.key s, acquire_scopes)
                (rw replied (elim (Bool-cases (ltb_ℤ (pos item.limit) count)) [
                  | inl over ↦ rw over (
                      rw (decr_all-count r c (item.key ∷ keys) s2).0
                        (rw (room_test _ item.limit true over) refl))
                  | inr room ↦ rw room (
                      rw (room_test _ item.limit false room) (
                        acquire_scopes-is_held items (keys ++ (item.key ∷ [])) s2 distinct
                        ∙ has_room_of_eq items s s2 (unchanged item.key s (keys_of items) new)))
                ]))
        ]

    -- On a Redis that answers, a call of `acquire` is granted exactly when the number of each scope
    -- that has a limit is below it.
    pub is_acquired-acquire :
        (hostname : String → Option String) (config : OutboundConcurrencyConfig)
        (params : CheckParams) (lease_id : String) (metrics : Metrics) (s : r.Store)
        → is_acquired (acquire r hostname config params lease_id metrics s).0
          ≡ has_room (scopes_to_check hostname config params) s
    unfolding acquire
    is_acquired-acquire hostname config params lease_id metrics s =
        let scopes = scopes_to_check hostname config params in
        is_held_lem lease_id (acquire_scopes r scopes [] s).0
        ∙ acquire_scopes-is_held scopes [] s (scopes_to_check-IsDistinct hostname config params)
