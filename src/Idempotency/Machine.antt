-- ===== src/Idempotency/Machine.antt =====
-- The part of `processIdempotentOperation` that stands on Redis, and `pollForRedisCompletion`, one
-- `await` at a time: between two of them, other requests with the same key may take their turns.
use forge_gate.Base.{ℕ, String, Bool, true, false, Option, some, List, ◌∷◌, ◌++◌, if◌then◌else◌}
use forge_gate.Idempotency.{completed, Done, gave, failed}
use forge_gate.Idempotency.Redis.{
  Answer, answered, refused, Commands, Codec, Read, found, nothing, broken, Tried, gave_back,
  caught, lock_key, read_record, is_released,
}

-- What a request awaits next. The lock is its own from `to_run` to `to_release`.
pub data Phase {ℓ} (T : Type ℓ) : Type ℓ where
  to_read to_lock to_run : Phase T
  to_store : Option T → Phase T
  to_release : Tried T → Phase T
  to_poll : Phase T
  to_look : Answer (Option String) → Phase T
  ended : Tried T → Phase T

pub record Shop (Server World : Type 0) : Type 0 where
  pub server : Server
  pub world : World

module _ {ℓ} {T : Type ℓ} where
  -- After the read of the record: what comes of it, and the next phase where it holds no result.
  unfoldable pub after_read : Read T → Phase T → Phase T
  after_read (found t) next = ended (gave_back (some t))
  after_read broken next = ended caught
  after_read nothing next = next

  unfoldable pub after_lock : Answer Bool → Phase T
  after_lock refused = ended caught
  after_lock (answered false) = to_poll
  after_lock (answered true) = to_run

  unfoldable pub after_run : Done T → Phase T
  after_run (gave t) = to_store t
  after_run (failed e) = to_release caught

  -- After the look at the lock in a poll, with what was read of the record before.
  unfoldable pub after_look : Answer (Option String) → Answer (Option String) → Phase T
  after_look cached refused = ended caught
  after_look cached (answered lock) =
      if is_released (record { cached = cached; lock = answered lock })
      then ended caught
      else to_poll

  module _ {Server World : Type 0} (redis : ℕ → Commands Server) (codec : Codec T) (key : String)
      (ttl_seconds : ℕ) where
    -- The turn of a request, at a reading of the clock.
    unfoldable pub take_turn :
        ℕ → (World → Done T × World) → Phase T → Shop Server World → Phase T × Shop Server World
    unfolding after_read after_lock after_run after_look
    take_turn now operation to_read s =
        (after_read (read_record codec ((redis now).get key s.server)) to_lock, s)
    take_turn now operation to_lock s =
        let locked = (redis now).set_nx (lock_key key) "LOCKED" 30 s.server in
        (after_lock locked.0, record s { server = locked.1 })
    take_turn now operation to_run s =
        let ran = operation s.world in (after_run ran.0, record s { world = ran.1 })
    take_turn now operation (to_store t) s =
        let kept = codec.stringify (record { status = completed t; created_at = now }) in
        let stored = (redis now).set_ex key kept ttl_seconds s.server in
        (to_release (if stored.0 then gave_back t else caught), record s { server = stored.1 })
    take_turn now operation (to_release r) s =
        (ended r, record s { server = (redis now).del (lock_key key) s.server })
    take_turn now operation to_poll s =
        let cached = (redis now).get key s.server in
        (after_read (read_record codec cached) (to_look cached), s)
    take_turn now operation (to_look cached) s =
        (after_look cached ((redis now).get (lock_key key) s.server), s)
    take_turn now operation (ended r) s = (ended r, s)

-- A request, with the reading of the clock when it last asked for the lock, which the program does
-- not keep.
pub record Contender {ℓ} (T : Type ℓ) : Type ℓ where
  pub phase : Phase T
  pub since : ℕ

-- When a request has last asked for the lock, after a turn.
unfoldable pub since_after {ℓ} : {T : Type ℓ} → ℕ → Phase T → ℕ → ℕ
since_after now to_lock since = now
since_after now _ since = since

-- The requests, what they share, and the clock at the last turn.
pub record Crowd {ℓ} (T : Type ℓ) (Server World : Type 0) : Type ℓ where
  pub requests : List (Contender T)
  pub shop : Shop Server World
  pub clock : ℕ

module _ {ℓ} {T : Type ℓ} {Server World : Type 0} (redis : ℕ → Commands Server) (codec : Codec T)
    (key : String) (ttl_seconds : ℕ) where
  -- What a request is after its turn.
  abbrev pub turned : ℕ → (World → Done T × World) → Contender T → Shop Server World → Contender T
  turned now operation p s = record {
    phase = (take_turn redis codec key ttl_seconds now operation p.phase s).0;
    since = since_after now p.phase p.since;
  }

  -- A turn of one of the requests, with an operation and a clock of its own, or the end of its wait.
  pub data Moves : Crowd T Server World → Crowd T Server World → Type ℓ where
    turn :
        (ps qs : List (Contender T)) (p : Contender T) (before now : ℕ)
        (operation : World → Done T × World) (s : Shop Server World)
        → Moves
            (record { requests = ps ++ p ∷ qs; shop = s; clock = before })
            (record {
              requests = ps ++ turned now operation p s ∷ qs;
              shop = (take_turn redis codec key ttl_seconds now operation p.phase s).1;
              clock = now;
            })
    give_up :
        (ps qs : List (Contender T)) (since now : ℕ) (s : Shop Server World)
        → Moves
            (record {
              requests = ps ++ record { phase = to_poll; since = since } ∷ qs;
              shop = s;
              clock = now;
            })
            (record {
              requests = ps ++ record { phase = ended caught; since = since } ∷ qs;
              shop = s;
              clock = now;
            })

  pub data Reaches : Crowd T Server World → Crowd T Server World → Type ℓ where
    stay : (c : Crowd T Server World) → Reaches c c
    move : {c d e : Crowd T Server World} → Moves c d → Reaches d e → Reaches c e
