-- ===== src/Idempotency/Exclusion.antt =====
-- The lock of `processIdempotentOperation` among several requests.
use forge_gate.Base.{ℕ, ◌+◌, ◌≤◌, String, false, All, count_of, ◌≡◌, refl, inr, arith}
use forge_gate.Idempotency.{Done}
use forge_gate.Idempotency.Redis.{Commands, Codec, caught}
use forge_gate.Idempotency.Machine.{
  Phase, to_read, to_lock, to_run, to_store, to_release, to_poll, to_look, ended, Shop, take_turn,
  Contender, since_after, Crowd, turned, Moves, turn, give_up, Reaches, stay, move,
}
use forge_gate.Idempotency.Guarded.{
  has_lock, is_holder, IsPrompt, bit, Guards, count_of-insert, All-split, out_of_read, in_after_run,
  out_of_look, IsGuarded, IsGuardedIn, IsSafe, idle-IsSafe, holder-IsSafe, lock-IsSafe,
  none_of_free, none_guarded, turn-IsExclusive,
}

module _ {ℓ} {T : Type ℓ} {Server World : Type 0} (redis : ℕ → Commands Server) (codec : Codec T)
    (key : String) (ttl_seconds : ℕ) where
  -- After each turn, the requests that have the lock are prompt.
  abbrev pub IsInTime :
      {c d : Crowd T Server World} → Reaches redis codec key ttl_seconds c d → Type 0
  IsInTime (stay c) = Unit
  IsInTime (move {d = d} m rest) = All (IsPrompt d.clock) d.requests × IsInTime rest

  module _ (guards : Guards redis key) where
    turn-IsSafe :
        (n now : ℕ) (operation : World → Done T × World) (p : Phase T) (since : ℕ)
        (s : Shop Server World)
        → n + bit (has_lock p) ≤ 1
        → IsGuarded guards p since s.server
        → (guards.held now s.server ≡ false → n ≡ 0)
        → let taken = take_turn redis codec key ttl_seconds now operation p s in
          IsSafe guards n taken.0 (since_after now p since) s.server taken.1.server
    unfolding take_turn since_after
    turn-IsSafe n now operation to_read since s few guarded none_of =
        idle-IsSafe guards n _ since _ _ (out_of_read _ to_lock refl) (omega (arith, few))
          (λ t h. h)
    turn-IsSafe n now operation to_lock since s few guarded none_of =
        lock-IsSafe guards T n now _ s.server _ (guards.set_nx_free now "LOCKED" 30 s.server)
          (λ got t soon. guards.set_nx_held now "LOCKED" 30 s.server t got soon)
          (guards.set_nx_keeps now "LOCKED" 30 s.server) (omega (arith, few)) none_of
    turn-IsSafe n now operation to_run since s few guarded none_of =
        holder-IsSafe guards n to_run _ since s.server s.server refl (in_after_run _) few guarded
          (λ t h. h)
    turn-IsSafe n now operation (to_store t) since s few guarded none_of =
        holder-IsSafe guards n (to_store t) (to_release caught) since s.server _ refl refl few
          guarded (guards.set_ex_keeps now _ ttl_seconds s.server)
    turn-IsSafe n now operation (to_release r) since s few guarded none_of =
        (omega (arith, few), (λ h. absurd (cc)), inr (omega (arith, few)))
    turn-IsSafe n now operation to_poll since s few guarded none_of =
        idle-IsSafe guards n _ since _ _ (out_of_read _ (to_look _) refl) (omega (arith, few))
          (λ t h. h)
    turn-IsSafe n now operation (to_look cached) since s few guarded none_of =
        idle-IsSafe guards n _ since _ _ (out_of_look T cached _) (omega (arith, few)) (λ t h. h)
    turn-IsSafe n now operation (ended r) since s few guarded none_of =
        idle-IsSafe guards n (ended r) since _ _ refl (omega (arith, few)) (λ t h. h)

    -- At most one request has the lock, and the key is there for it.
    abbrev IsExclusive : Crowd T Server World → Type 0
    IsExclusive c =
        (count_of is_holder c.requests ≤ 1) × All (IsGuardedIn guards c.shop.server) c.requests

    Moves-IsExclusive :
        {c d : Crowd T Server World}
        → Moves redis codec key ttl_seconds c d
        → All (IsPrompt d.clock) d.requests
        → IsExclusive c
        → IsExclusive d
    Moves-IsExclusive (turn ps qs p before now operation s) prompt h =
        let p' = turned redis codec key ttl_seconds now operation p s in
        let few = rw (count_of-insert is_holder ps p qs) at (h.0) in
        let guarded = All-split (IsGuardedIn guards s.server) ps p qs h.1 in
        let soon = All-split (IsPrompt now) ps p' qs prompt in
        turn-IsExclusive guards ps qs p' s.server _
          (turn-IsSafe _ now operation p.phase p.since s few guarded.1 (λ free.
            let one = none_of_free guards now s.server ps free guarded.0 soon.0 in
            let two = none_of_free guards now s.server qs free guarded.2 soon.2 in
            omega (arith, one, two)))
          guarded.0 guarded.2
    Moves-IsExclusive (give_up ps qs since now s) prompt h =
        let p : Contender T = record { phase = to_poll; since = since } in
        let few = rw (count_of-insert is_holder ps p qs) at (h.0) in
        let guarded = All-split (IsGuardedIn guards s.server) ps p qs h.1 in
        turn-IsExclusive guards ps qs (record { phase = ended caught; since = since }) s.server
          s.server
          (idle-IsSafe guards {T = T} _ (ended caught) since s.server s.server refl
            (omega (arith, few)) (λ t held. held))
          guarded.0 guarded.2

    Reaches-IsExclusive :
        {c d : Crowd T Server World} (reached : Reaches redis codec key ttl_seconds c d)
        → IsInTime reached
        → IsExclusive c
        → IsExclusive d
    Reaches-IsExclusive (stay c) prompt h = h
    Reaches-IsExclusive (move m rest) prompt h =
        Reaches-IsExclusive rest prompt.1 (Moves-IsExclusive m prompt.0 h)

    -- From requests with one key of which none has the lock, however they take their turns and
    -- whatever their operations do, at most one has the lock, also where commands throw: as long as
    -- after each turn less than 30 seconds have gone by since a request that has the lock asked for
    -- it.
    pub has_lock_once :
        {c d : Crowd T Server World}
        → count_of is_holder c.requests ≡ 0
        → (reached : Reaches redis codec key ttl_seconds c d) → IsInTime reached
        → count_of is_holder d.requests ≤ 1
    has_lock_once {c = c} new reached prompt =
        (Reaches-IsExclusive reached prompt
          (omega (arith, new), none_guarded guards c.shop.server c.requests new)).0
