-- ===== src/Idempotency.antt =====
-- apps/workflow-service/src/execution/api-idempotency.service.ts: the records and the store in
-- memory; Redis is in the child of that name. The operation is an argument, with the world that it changes; its result is `none` where
-- it is `undefined`. The clock stands still during a call, and the timer that deletes a record after
-- its time to live is left out.
pub mod Redis
pub mod Keys
pub mod Contract
pub mod InMemory
pub mod Runs
pub mod Held
pub mod OnRedis
pub mod Works
pub mod Twice
pub mod Machine
pub mod Guarded
pub mod Exclusion
pub mod Overrun
pub mod Replay
mod Tests
use forge_gate.Base.{
  ℕ, ◌-◌, String, ◌<>◌, Bool, true, false, Option, none, some, List, [], ◌∷◌, ltb, ◌=ₛ◌,
  if◌then◌else◌,
}
use forge_gate.Js.Text.{or_text, or_text?, trim}

-- The state of a record; a completed one holds the result.
pub data RecordStatus {ℓ} (T : Type ℓ) : Type ℓ where
  in_progress : RecordStatus T
  completed : Option T → RecordStatus T

pub record IdempotencyRecord {ℓ} (T : Type ℓ) : Type ℓ where
  pub status : RecordStatus T
  pub created_at : ℕ

pub record Entry {ℓ} (T : Type ℓ) : Type ℓ where
  pub key : String
  pub value : IdempotencyRecord T

-- What a call comes to: a result, the operation's error, or the error of a poll that timed out.
pub data Outcome {ℓ} (T : Type ℓ) : Type ℓ where
  returned : Option T → Outcome T
  threw : String → Outcome T
  timed_out : Outcome T

-- What an operation gives, or throws.
pub data Done {ℓ} (T : Type ℓ) : Type ℓ where
  gave : Option T → Done T
  failed : String → Done T

abbrev pub default_ttl_ms : ℕ
default_ttl_ms = 86400000

pub record Memory {ℓ} (T : Type ℓ) (World : Type 0) : Type ℓ where
  pub store : List (Entry T)
  pub world : World

abbrev pub storage_key : (tenant_id operation_scope idempotency_key : String) → String
storage_key tenant_id scope key =
    "idem:api:" <> or_text tenant_id "default" <> ":" <> scope <> ":" <> trim key

module _ {ℓ} {T : Type ℓ} where
  -- `Map.get`, `Map.delete` and `Map.set`.
  unfoldable pub get : String → List (Entry T) → Option (IdempotencyRecord T)
  get k [] = none
  get k (e ∷ es) = let rest = get k es in if e.key =ₛ k then some e.value else rest

  unfoldable pub delete : String → List (Entry T) → List (Entry T)
  delete k [] = []
  delete k (e ∷ es) = let rest = delete k es in if e.key =ₛ k then rest else e ∷ rest

  unfoldable pub set : String → IdempotencyRecord T → List (Entry T) → List (Entry T)
  set k v es = record { key = k; value = v } ∷ delete k es

  unfoldable pub clean_expired : ℕ → List (Entry T) → List (Entry T)
  clean_expired now [] = []
  clean_expired now (e ∷ es) =
      let rest = clean_expired now es in
      if ltb default_ttl_ms (now - e.value.created_at) then rest else e ∷ rest

  -- `pollInMemory`, on the records that it sees, one at each interval until it has waited too long.
  unfoldable pub poll_in_memory : List (Option (IdempotencyRecord T)) → Outcome T
  poll_in_memory [] = timed_out
  poll_in_memory (none ∷ seen) = timed_out
  poll_in_memory (some r ∷ seen) = elim r.status [
    | in_progress ↦ poll_in_memory seen
    | completed none ↦ poll_in_memory seen
    | completed (some t) ↦ returned (some t)
  ]

  module _ {World : Type 0} where
    -- The record that the end of the operation leaves.
    unfoldable pub finish :
        String → ℕ → Done T → World → List (Entry T) → Outcome T × Memory T World
    finish key now (gave t) w store = (
      returned t,
      record {
        store = set key (record { status = completed t; created_at = now }) store;
        world = w;
      },
    )
    finish key now (failed e) w store = (threw e, record { store = delete key store; world = w })

    unfoldable pub run_operation :
        String → ℕ → (World → Done T × World) → Memory T World → Outcome T × Memory T World
    run_operation key now operation m =
        let marked = set key (record { status = in_progress; created_at = now }) m.store in
        let ran = operation m.world in finish key now ran.0 ran.1 marked

    -- `processInMemory T World`; `seen` is what a poll sees.
    unfoldable pub process_in_memory :
        String
        → ℕ
        → List (Option (IdempotencyRecord T))
        → (World → Done T × World)
        → Memory T World
        → Outcome T × Memory T World
    process_in_memory key now seen operation m =
        let cleaned = record m { store = clean_expired now m.store } in
        elim (get key cleaned.store) [
          | none ↦ run_operation key now operation cleaned
          | some r ↦ elim r.status [
            | in_progress ↦ (poll_in_memory seen, cleaned)
            | completed none ↦ run_operation key now operation cleaned
            | completed (some t) ↦ (returned (some t), cleaned)
          ]
        ]

    unfoldable pub outcome_of : Done T × World → Outcome T
    outcome_of (gave t, w) = returned t
    outcome_of (failed e, w) = threw e

    -- `processIdempotentOperation` of a service that has no Redis client.
    unfoldable pub process_without_redis :
        (tenant_id operation_scope : String)
        → Option String
        → ℕ
        → List (Option (IdempotencyRecord T))
        → (World → Done T × World)
        → Memory T World
        → Outcome T × Memory T World
    unfolding outcome_of
    process_without_redis tenant_id scope key now seen operation m =
        let stated = or_text? key "" in
        let ran = operation m.world in
        elim (trim stated =ₛ "") [
          | true ↦ (outcome_of ran, record m { world = ran.1 })
          | false ↦ process_in_memory (storage_key tenant_id scope stated) now seen operation m
        ]
