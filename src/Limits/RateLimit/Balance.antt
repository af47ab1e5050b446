-- ===== src/Limits/RateLimit/Balance.antt =====
-- `checkAndConsume` keeps the numbers in Redis in balance.
use forge_gate.Base.{
  ℕ, zero, suc, String, true, Option, none, some, List, [], ◌∷◌, ◌++◌, ◌≡◌, All, refl, ltb, ◌&&◌,
  arith, Bool-cases, Option-cases, inl, inr, sym, ap, ◌∙◌, ◌<◌,
}
use forge_gate.Base.Int.{ℤ, pos, negsuc, ◌+ℤ◌, ◌≤ℤ◌, ltb_ℤ}
use forge_gate.Limits.Redis.{Redis, Counts, Expires, Ttls, hit, occurs}
use forge_gate.Limits.Provider.{CheckParams, RateLimitQuota}
use forge_gate.Limits.Concurrency.{decr_all}
use forge_gate.Limits.Concurrency.Ledger.{
  +ℤ-zero, add_both, take_off, was_full, occurs-append, decr_all-count,
}
use forge_gate.Limits.RateLimit.{
  RateScope, OutboundRateLimitConfig, OutboundRateLimitCheckResult, allowed, limited, QuotaToCheck,
  push_quota, quotas_to_check, wait_seconds, is_one, expire_first, consume, check_and_consume,
}

abbrev pub quota_keys : List QuotaToCheck → List String
quota_keys [] = []
quota_keys (item ∷ rest) = item.key ∷ quota_keys rest

-- Every window is longer than no time.
abbrev HasWindows : List QuotaToCheck → Type 0
HasWindows items = All (λ item. 0 < item.quota.window_seconds) items

push_quota-HasWindows :
    (scope : RateScope) (key : String) (q : Option RateLimitQuota) (rest : List QuotaToCheck)
    → HasWindows rest
    → HasWindows (push_quota scope key q rest)
unfolding push_quota
push_quota-HasWindows scope key none rest all = all
push_quota-HasWindows scope key (some q) rest all =
    elim (Bool-cases (ltb 0 q.limit && ltb 0 q.window_seconds)) [
      | inl h ↦ rw h (ground arith, all)
      | inr h ↦ rw h all
    ]

wait_seconds-pos : (ttl : ℤ) (window : ℕ) → 0 < window → 0 < wait_seconds ttl window
unfolding wait_seconds
wait_seconds-pos (pos zero) window h = h
wait_seconds-pos (pos (suc n)) window h = omega arith
wait_seconds-pos (negsuc n) window h = h

module _ (r : Redis) (c : Counts r) (e : Expires r c) (t : Ttls r c) where
  -- What the loop owes for the scopes `items` when the keys `keys` were counted before it.
  abbrev pub IsEven :
      List QuotaToCheck → List String → r.Store → OutboundRateLimitCheckResult × r.Store → Type 0
  IsEven items keys s (allowed, s') =
      (k : String) → c.count s' k ≡ c.count s k +ℤ pos (occurs k (quota_keys items))
  IsEven items keys s (limited scope seconds n limit, s') =
      (0 < seconds)
      × (pos limit ≤ℤ n)
      × ((k : String) → c.count s' k +ℤ pos (occurs k keys) ≡ c.count s k)

  expire_first_lem :
      (key : String) (window : ℕ) (count : ℤ) (s : r.Store)
      → 0 < window
      → ((expire_first r key window count s).0 ≡ true)
        × ((k : String) → c.count (expire_first r key window count s).1 k ≡ c.count s k)
  unfolding expire_first
  expire_first_lem key window count s lasts = elim (Bool-cases (is_one count)) [
    | inr h ↦ rw (h, expire_first) (refl, λ k. refl)
    | inl h ↦
        rw (h, expire_first)
          (elim (Option-cases (r.expire key window s).0) [
            | inl lost ↦ absurd (e.expire_reply key window s lost)
            | inr (there, replied) ↦ rw replied (refl, λ k. e.expire_count key window s k lasts)
          ])
  ]

  count_first :
      (item : QuotaToCheck) (items : List QuotaToCheck) (keys : List String) (s s1 : r.Store)
      (result : OutboundRateLimitCheckResult × r.Store)
      → ((k : String) → c.count s1 k ≡ c.count s k +ℤ pos (hit item.key k))
      → IsEven items (keys ++ (item.key ∷ [])) s1 result
      → IsEven (item ∷ items) keys s result
  count_first item items keys s s1 (allowed, s') one counts =
      λ k. counts k ∙ add_both _ _ (hit item.key k) (occurs k (quota_keys items)) (one k)
  count_first item items keys s s1 (limited scope seconds n limit, s') one (wait, room, counts) = (
    wait,
    room,
    λ k.
        take_off _ _ _ (occurs k keys) (hit item.key k) (counts k) (one k)
          (occurs-append k keys (item.key ∷ [])),
  )

  consume-IsEven :
      (items : List QuotaToCheck) (keys : List String) (s : r.Store)
      → HasWindows items
      → IsEven items keys s (consume r items keys s)
  unfolding consume
  consume-IsEven [] keys s windows = λ k. sym (+ℤ-zero (c.count s k))
  consume-IsEven (item ∷ items) keys s (window, windows) =
      let s1 = (r.incr item.key s).1 in
      let count = c.count s item.key +ℤ pos 1 in
      let first = expire_first r item.key item.quota.window_seconds count s1 in
      let (fine, same) = expire_first_lem item.key item.quota.window_seconds count s1 window in
      let one = λ (k : String). same k ∙ c.incr_count item.key s k in
      rw (c.incr_reply item.key s, consume)
        (rw fine (elim (Bool-cases (ltb_ℤ (pos item.quota.limit) count)) [
          | inl over ↦
              let (done, back) = decr_all-count r c (item.key ∷ keys) first.1 in
              let s3 = (decr_all r (item.key ∷ keys) first.1).1 in
              rw over (
                rw done (elim (Option-cases (r.ttl item.key s3).0) [
                  | inl lost ↦ absurd (t.ttl_reply item.key s3 lost)
                  | inr (ttl, replied) ↦ rw replied (
                    wait_seconds-pos ttl item.quota.window_seconds window,
                    was_full item.quota.limit _ over,
                    λ k.
                        take_off _ _ _ (occurs k keys) (hit item.key k)
                          (ap (λ n. n +ℤ pos (occurs k (item.key ∷ keys)))
                              (t.ttl_count item.key s3 k)
                            ∙ back k)
                          (one k) (omega arith),
                  )
                ]))
          | inr room ↦ rw room (
              count_first item items keys s first.1 _ one
                (consume-IsEven items (keys ++ (item.key ∷ [])) first.1 windows))
        ]))

  -- On a Redis that answers, `checkAndConsume` either allows the call and counts it once at each
  -- scope that has a quota, or refuses it with every number as it was before, at a number that is
  -- not below the limit, with a wait that is longer than 0 seconds.
  pub check_and_consume-IsEven :
      (hostname : String → Option String) (config : OutboundRateLimitConfig) (params : CheckParams)
      (s : r.Store)
      → IsEven
          (quotas_to_check hostname config params)
          []
          s
          (check_and_consume r hostname config params s)
  unfolding check_and_consume quotas_to_check
  check_and_consume-IsEven hostname config params s = consume-IsEven _ [] s (
      push_quota-HasWindows _ _ _ _ (
        push_quota-HasWindows _ _ _ _
          (push_quota-HasWindows _ _ _ _ (push_quota-HasWindows _ _ _ _ tt))))
