-- ===== src/Idempotency/Overrun.antt =====
-- The lock of `processIdempotentOperation` where an operation takes longer than its 30 seconds.
use forge_gate.Base.{
  ℕ, ◌+◌, ◌*◌, ◌≤◌, String, false, Option, none, some, ◌≡◌, refl, ltb, arith, eq_refl,
}
use forge_gate.Idempotency.{Done}
use forge_gate.Idempotency.Contract.{until}
use forge_gate.Idempotency.Redis.{Commands, Codec, Tried, lock_key}
use forge_gate.Idempotency.Works.{Works}
use forge_gate.Idempotency.Machine.{to_lock, to_run, to_release, Shop, take_turn, after_lock}

over {ℓ} : {A : Type ℓ} (last t : ℕ) (o : Option A) → last ≤ t → until last t o ≡ none
over last t o late = let h : ltb t last ≡ false = ground arith in rw h refl

module _ {ℓ} {T : Type ℓ} {Server : Type 0} (redis : ℕ → Commands Server) (codec : Codec T)
    (works : Works redis codec) (key : String) (ttl_seconds : ℕ) where
  ended_lock :
      (now later : ℕ) (s : Server)
      → works.view now s (lock_key key) ≡ none
      → now + 30 * 1000 ≤ later
      → works.view later ((redis now).set_nx (lock_key key) "LOCKED" 30 s).1 (lock_key key) ≡ none
  ended_lock now later s free late =
      rw
        (
          works.set_nx_lem now (lock_key key) "LOCKED" 30 s later (lock_key key) (omega arith) free,
          eq_refl (lock_key key),
        )
        (over (now + 30 * 1000) later (some "LOCKED") late)

  module _ {World : Type 0} where
    -- Where the key of the lock is not there, a request that asks for the lock gets it.
    locks :
        (now : ℕ) (operation : World → Done T × World) (s : Shop Server World)
        → works.view now s.server (lock_key key) ≡ none
        → (take_turn redis codec key ttl_seconds now operation to_lock s).0 ≡ to_run
    unfolding take_turn after_lock
    locks now operation s free =
        rw (works.set_nx_answers now (lock_key key) "LOCKED" 30 s.server (omega arith) free) refl

    -- On a Redis that works, a request gets the lock where its key is not there; a second one that
    -- asks for it 30 seconds later or more gets it too, though the first one has not released it; and
    -- once the first one releases the lock, a third one gets it at any time, though the second one has
    -- not released it.
    pub lock_overrun :
        (now later last : ℕ) (first second third : World → Done T × World) (r : Tried T)
        (s : Shop Server World)
        → works.view now s.server (lock_key key) ≡ none
        → now + 30 * 1000 ≤ later
        → let one = take_turn redis codec key ttl_seconds now first to_lock s in
          let two = take_turn redis codec key ttl_seconds later second to_lock one.1 in
          let freed = take_turn redis codec key ttl_seconds last first (to_release r) two.1 in
          let three = take_turn redis codec key ttl_seconds last third to_lock freed.1 in
          (one.0 ≡ to_run) × (two.0 ≡ to_run) × (three.0 ≡ to_run)
    unfolding take_turn
    lock_overrun now later last first second third r s free late =
        let one = take_turn redis codec key ttl_seconds now first to_lock s in
        let two = take_turn redis codec key ttl_seconds later second to_lock one.1 in
        let freed = take_turn redis codec key ttl_seconds last first (to_release r) two.1 in
        let gone : works.view last freed.1.server (lock_key key) ≡ none =
          rw
            (
              works.del_lem last (lock_key key) two.1.server last (lock_key key),
              eq_refl (lock_key key),
            )
            refl in
        (
          locks now first s free,
          locks later second one.1 (ended_lock now later s.server free late),
          locks last third freed.1 gone,
        )
