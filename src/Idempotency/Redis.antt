-- ===== src/Idempotency/Redis.antt =====
-- The part of api-idempotency.service.ts that stands on a Redis client. The client is a parameter, a
-- record of the commands that the service uses, each of which may throw; so are `JSON.parse` and
-- `JSON.stringify` of a record. A text that is JSON but no record is read as one in progress.
use forge_gate.Base.{
  ℕ, String, ◌<>◌, Bool, true, false, not, ◌&&◌, Option, none, some, List, [], ◌∷◌, ◌=ₛ◌,
  if◌then◌else◌,
}
use forge_gate.Js.Text.{or_text?, trim}
use forge_gate.Idempotency.{
  IdempotencyRecord, in_progress, completed, Outcome, returned, Done, gave, failed, Memory,
  storage_key, process_in_memory, outcome_of,
}

-- What a command gives, or that it throws.
pub data Answer {ℓ} (A : Type ℓ) : Type ℓ where
  answered : A → Answer A
  refused : Answer A

pub record Commands (Server : Type 0) : Type 0 where
  pub get : String → Server → Answer (Option String)
  -- `set(key, value, 'EX', ttl)`: whether it does not throw.
  pub set_ex : (key value : String) → ℕ → Server → Bool × Server
  -- `set(key, value, 'EX', ttl, 'NX')`: whether it has set the key.
  pub set_nx : (key value : String) → ℕ → Server → Answer Bool × Server
  -- `del(key)`; the service does not look at what it throws.
  pub del : String → Server → Server

pub record Codec {ℓ} (T : Type ℓ) : Type ℓ where
  pub parse : String → Option (IdempotencyRecord T)
  pub stringify : IdempotencyRecord T → String

-- What a poll reads at one interval: the record and the lock.
pub record Sight : Type 0 where
  pub cached : Answer (Option String)
  pub lock : Answer (Option String)

-- What the read of a record comes to: a result to give, none, or an error.
pub data Read {ℓ} (T : Type ℓ) : Type ℓ where
  found : T → Read T
  nothing : Read T
  broken : Read T

-- What the part in the `try` comes to: a result to return, or an error, which is caught.
pub data Tried {ℓ} (T : Type ℓ) : Type ℓ where
  gave_back : Option T → Tried T
  caught : Tried T

pub record Shared {ℓ} (T : Type ℓ) (World Server : Type 0) : Type ℓ where
  pub server : Server
  pub memory : Memory T World

abbrev pub lock_key : String → String
lock_key key = key <> ":lock"

-- A text that is there and is not empty.
abbrev pub is_there : Option String → Bool
is_there raw = not (or_text? raw "" =ₛ "")

-- `!lockExists && !cachedRaw`
unfoldable pub is_released : Sight → Bool
is_released s = lacks s.lock && lacks s.cached
  where
    lacks : Answer (Option String) → Bool
    lacks refused = false
    lacks (answered raw) = not (is_there raw)

module _ {ℓ} {T : Type ℓ} where
  unfoldable pub reusable : Option (IdempotencyRecord T) → Read T
  reusable none = broken
  reusable (some r) = elim r.status [
    | in_progress ↦ nothing
    | completed none ↦ nothing
    | completed (some t) ↦ found t
  ]

  unfoldable pub read_record : Codec T → Answer (Option String) → Read T
  unfolding reusable
  read_record codec refused = broken
  read_record codec (answered raw) = elim (is_there raw) [
    | true ↦ reusable (codec.parse (or_text? raw ""))
    | false ↦ nothing
  ]

  -- `pollForRedisCompletion`, on what it sees at each interval until it has waited too long. It
  -- throws where it does not find a result.
  unfoldable pub poll_for_redis_completion : Codec T → List Sight → Tried T
  unfolding read_record is_released
  poll_for_redis_completion codec [] = caught
  poll_for_redis_completion codec (s ∷ seen) =
      let later = poll_for_redis_completion codec seen in
      elim (read_record codec s.cached) [
        | found t ↦ gave_back (some t)
        | broken ↦ caught
        | nothing ↦ elim s.lock [
          | refused ↦ caught
          | answered _ ↦ if is_released s then caught else later
        ]
      ]

  module _ {World Server : Type 0} (redis : Commands Server) (codec : Codec T) where
    -- The end of an operation that ran under the lock, which is deleted in the `finally`.
    unfoldable pub finish_locked :
        (key : String) (ttl_seconds now : ℕ)
        → Done T
        → World
        → Shared T World Server
        → Tried T × Shared T World Server
    finish_locked key ttl_seconds now (gave t) w st =
        let kept = codec.stringify (record { status = completed t; created_at = now }) in
        let stored = redis.set_ex key kept ttl_seconds st.server in
        (
          if stored.0 then gave_back t else caught,
          record {
            server = redis.del (lock_key key) stored.1;
            memory = record st.memory { world = w };
          },
        )
    finish_locked key ttl_seconds now (failed e) w st = (
      caught,
      record {
        server = redis.del (lock_key key) st.server;
        memory = record st.memory { world = w };
      },
    )

    unfoldable pub run_locked :
        (key : String) (ttl_seconds now : ℕ)
        → List Sight
        → (World → Done T × World)
        → Answer Bool
        → Shared T World Server
        → Tried T × Shared T World Server
    unfolding finish_locked
    run_locked key ttl_seconds now seen operation refused st = (caught, st)
    run_locked key ttl_seconds now seen operation (answered false) st =
        (poll_for_redis_completion codec seen, st)
    run_locked key ttl_seconds now seen operation (answered true) st =
        let ran = operation st.memory.world in finish_locked key ttl_seconds now ran.0 ran.1 st

    -- The part of `processIdempotentOperation` in the `try`.
    unfoldable pub process_on_redis :
        (key : String) (ttl_seconds now : ℕ)
        → List Sight
        → (World → Done T × World)
        → Shared T World Server
        → Tried T × Shared T World Server
    unfolding run_locked
    process_on_redis key ttl_seconds now seen operation st =
        elim (read_record codec (redis.get key st.server)) [
          | broken ↦ (caught, st)
          | found t ↦ (gave_back (some t), st)
          | nothing ↦
              let locked = redis.set_nx (lock_key key) "LOCKED" 30 st.server in
              run_locked key ttl_seconds now seen operation locked.0
                (record st { server = locked.1 })
        ]

  module _ {World Server : Type 0} where
    -- The way on in memory, where the part in the `try` gave nothing back.
    unfoldable pub fall_back :
        (key : String) (now : ℕ)
        → List (Option (IdempotencyRecord T))
        → (World → Done T × World)
        → Tried T × Shared T World Server
        → Outcome T × Shared T World Server
    fall_back key now seen operation (gave_back t, st) = (returned t, st)
    fall_back key now seen operation (caught, st) =
        let after = process_in_memory key now seen operation st.memory in
        (after.0, record st { memory = after.1 })

    unfoldable pub process_under :
        Option (Commands Server)
        → Codec T
        → (key : String) (ttl_seconds now : ℕ) → List Sight
        → List (Option (IdempotencyRecord T))
        → (World → Done T × World)
        → Shared T World Server
        → Outcome T × Shared T World Server
    unfolding fall_back
    process_under none codec key ttl_seconds now sights seen operation st =
        fall_back key now seen operation (caught, st)
    process_under (some redis) codec key ttl_seconds now sights seen operation st =
        fall_back key now seen operation
          (process_on_redis redis codec key ttl_seconds now sights operation st)

    -- `processIdempotentOperation`
    unfoldable pub process_idempotent_operation :
        Option (Commands Server)
        → Codec T
        → (tenant_id operation_scope : String) → Option String
        → (ttl_seconds now : ℕ) → List Sight
        → List (Option (IdempotencyRecord T))
        → (World → Done T × World)
        → Shared T World Server
        → Outcome T × Shared T World Server
    unfolding process_under
    process_idempotent_operation redis codec tenant_id scope key ttl_seconds now sights seen
          operation st =
        let stated = or_text? key "" in
        let ran = operation st.memory.world in
        elim (trim stated =ₛ "") [
          | true ↦ (outcome_of ran, record st { memory = record st.memory { world = ran.1 } })
          | false ↦
              process_under redis codec (storage_key tenant_id scope stated) ttl_seconds now sights
                seen operation st
        ]
