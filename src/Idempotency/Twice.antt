-- ===== src/Idempotency/Twice.antt =====
-- How often a call runs its operation, whatever Redis answers and whatever a poll sees.
use forge_gate.Base.{
  ℕ, String, Bool, true, false, Option, none, some, List, ◌≡◌, refl, ◌=ₛ◌, ◌⊎◌, inl, inr,
  Bool-cases, Option-cases,
}
use forge_gate.Js.Text.{or_text?, trim}
use forge_gate.Idempotency.{
  RecordStatus, IdempotencyRecord, in_progress, completed, Entry, Done, gave, failed, Memory, get,
  clean_expired, finish, run_operation, process_in_memory,
}
use forge_gate.Idempotency.Redis.{
  Answer, answered, refused, Commands, Codec, Sight, Read, found, nothing, broken, Tried, gave_back,
  caught, Shared, read_record, finish_locked, run_locked, process_on_redis, fall_back,
  process_under, process_idempotent_operation,
}

module _ {ℓ} {T : Type ℓ} {World : Type 0} where
  -- The world as it was, or after one run of the operation.
  abbrev pub IsRunOnce : (World → Done T × World) → World → World → Type 0
  IsRunOnce operation before after = (after ≡ before) ⊎ (after ≡ (operation before).1)

  -- The world as it was, after one run of the operation, or after two.
  abbrev pub IsRunTwice : (World → Done T × World) → World → World → Type 0
  IsRunTwice operation before after =
      (after ≡ before) ⊎ (IsRunOnce operation (operation before).1 after)

  twice_of_once :
      (operation : World → Done T × World) (before between after : World)
      → IsRunOnce operation before between
      → IsRunOnce operation between after
      → IsRunTwice operation before after
  twice_of_once operation before between after (inl p) (inl q) = inl (cc)
  twice_of_once operation before between after (inl p) (inr q) = inr (inl (rw p at q))
  twice_of_once operation before between after (inr p) (inl q) = inr (inl (cc))
  twice_of_once operation before between after (inr p) (inr q) = inr (inr (rw p at q))

  world-finish :
      (key : String) (now : ℕ) (d : Done T) (w : World) (es : List (Entry T))
      → (finish key now d w es).1.world ≡ w
  unfolding finish
  world-finish key now (gave t) w es = refl
  world-finish key now (failed e) w es = refl

  once_of_status :
      (key : String) (now : ℕ) (seen : List (Option (IdempotencyRecord T)))
      (operation : World → Done T × World) (m : Memory T World) (r : IdempotencyRecord T)
      (status : RecordStatus T)
      → get key (clean_expired now m.store) ≡ some r
      → r.status ≡ status
      → IsRunOnce operation m.world (process_in_memory key now seen operation m).1.world
  unfolding process_in_memory run_operation
  once_of_status key now seen operation m r in_progress there is =
      rw (there, process_in_memory) (rw is (inl refl))
  once_of_status key now seen operation m r (completed none) there is =
      rw (there, process_in_memory) (rw is (inr (world-finish key now _ _ _)))
  once_of_status key now seen operation m r (completed (some t)) there is =
      rw (there, process_in_memory) (rw is (inl refl))

  process_in_memory_once :
      (key : String) (now : ℕ) (seen : List (Option (IdempotencyRecord T)))
      (operation : World → Done T × World) (m : Memory T World)
      → IsRunOnce operation m.world (process_in_memory key now seen operation m).1.world
  unfolding process_in_memory run_operation
  process_in_memory_once key now seen operation m =
      elim (Option-cases (get key (clean_expired now m.store))) [
        | inl new ↦ rw (new, process_in_memory) (inr (world-finish key now _ _ _))
        | inr (r, there) ↦ once_of_status key now seen operation m r r.status there refl
      ]

  module _ {Server : Type 0} (redis : Commands Server) (codec : Codec T) where
    world-finish_locked :
        (key : String) (ttl now : ℕ) (d : Done T) (w : World) (st : Shared T World Server)
        → (finish_locked redis codec key ttl now d w st).1.memory.world ≡ w
    unfolding finish_locked
    world-finish_locked key ttl now (gave t) w st = refl
    world-finish_locked key ttl now (failed e) w st = refl

    run_locked_once :
        (key : String) (ttl now : ℕ) (seen : List Sight) (operation : World → Done T × World)
        (lock : Answer Bool) (st : Shared T World Server)
        → IsRunOnce operation st.memory.world
            (run_locked redis codec key ttl now seen operation lock st).1.memory.world
    unfolding run_locked
    run_locked_once key ttl now seen operation refused st = inl refl
    run_locked_once key ttl now seen operation (answered false) st = inl refl
    run_locked_once key ttl now seen operation (answered true) st =
        inr (world-finish_locked key ttl now _ _ st)

    once_of_read :
        (key : String) (ttl now : ℕ) (seen : List Sight) (operation : World → Done T × World)
        (st : Shared T World Server) (read : Read T)
        → read_record codec (redis.get key st.server) ≡ read
        → IsRunOnce operation st.memory.world
            (process_on_redis redis codec key ttl now seen operation st).1.memory.world
    unfolding process_on_redis
    once_of_read key ttl now seen operation st (found t) is = rw (is, process_on_redis) (inl refl)
    once_of_read key ttl now seen operation st broken is = rw (is, process_on_redis) (inl refl)
    once_of_read key ttl now seen operation st nothing is =
        rw (is, process_on_redis) (run_locked_once key ttl now seen operation _ _)

  module _ {Server : Type 0} where
    fall_back_twice :
        (key : String) (now : ℕ) (seen : List (Option (IdempotencyRecord T)))
        (operation : World → Done T × World) (before : World) (tried : Tried T)
        (st : Shared T World Server)
        → IsRunOnce operation before st.memory.world
        → IsRunTwice operation before (fall_back key now seen operation (tried, st)).1.memory.world
    unfolding fall_back
    fall_back_twice key now seen operation before (gave_back t) st once =
        twice_of_once operation before st.memory.world _ once (inl refl)
    fall_back_twice key now seen operation before caught st once =
        twice_of_once operation before st.memory.world _ once
          (process_in_memory_once key now seen operation st.memory)

    process_under_twice :
        (redis : Option (Commands Server)) (codec : Codec T) (key : String) (ttl now : ℕ)
        (sights : List Sight) (seen : List (Option (IdempotencyRecord T)))
        (operation : World → Done T × World) (st : Shared T World Server)
        → IsRunTwice operation st.memory.world
            (process_under redis codec key ttl now sights seen operation st).1.memory.world
    unfolding process_under
    process_under_twice none codec key ttl now sights seen operation st =
        fall_back_twice key now seen operation st.memory.world caught st (inl refl)
    process_under_twice (some redis) codec key ttl now sights seen operation st =
        fall_back_twice key now seen operation st.memory.world _ _
          (once_of_read redis codec key ttl now sights operation st _ refl)

    -- Whatever Redis answers and whatever the polls see, a call runs its operation at most twice.
    pub process_idempotent_operation_twice :
        (redis : Option (Commands Server)) (codec : Codec T) (tenant_id scope : String)
        (key : Option String) (ttl now : ℕ) (sights : List Sight)
        (seen : List (Option (IdempotencyRecord T))) (operation : World → Done T × World)
        (st : Shared T World Server)
        → IsRunTwice operation st.memory.world
            (process_idempotent_operation redis codec tenant_id scope key ttl now sights seen
              operation st).1.memory.world
    unfolding process_idempotent_operation
    process_idempotent_operation_twice redis codec tenant_id scope key ttl now sights seen operation
          st =
        elim (Bool-cases (trim (or_text? key "") =ₛ "")) [
          | inl h ↦ rw (h, process_idempotent_operation) (inr (inl refl))
          | inr h ↦
              rw (h, process_idempotent_operation)
                (process_under_twice redis codec _ ttl now sights seen operation st)
        ]
