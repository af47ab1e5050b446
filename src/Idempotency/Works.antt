-- ===== src/Idempotency/Works.antt =====
-- What the idempotency service relies on of Redis and of JSON, and what follows for its records and
-- for the names of its keys.
use forge_gate.Base.{
  ℕ, ◌+◌, ◌*◌, ◌<◌, String, Bool, true, false, Option, none, some, ◌≡◌, ◌≢◌, refl, sym, ap, ◌=ₛ◌,
  if◌then◌else◌, eq_iff, Bool-cases, inl, inr, some_eq, ne→test, ne_of_test,
}
use forge_gate.Js.Text.{or_text?}
use forge_gate.Idempotency.{
  RecordStatus, IdempotencyRecord, in_progress, completed, Done, gave, failed,
}
use forge_gate.Idempotency.Contract.{until}
use forge_gate.Idempotency.InMemory.{result_in}
use forge_gate.Idempotency.Redis.{
  answered, Commands, Codec, Read, found, nothing, lock_key, is_there, reusable, read_record,
}

abbrev pub map_status {ℓ} : {T : Type ℓ} → Option (IdempotencyRecord T) → Option (RecordStatus T)
map_status none = none
map_status (some r) = some r.status

-- The documented effect of the commands on the keys of the server, and of the round trip through
-- JSON, in which a missing result stays missing. `redis now` is the client when the clock reads `now`,
-- in milliseconds; `view t s` is what a server in the state `s` has of its keys when the clock reads
-- `t`. A key that is set with a time to live is there until that many seconds have gone
-- by; the laws hold for every `t`, also where a clock is set back.
pub record Works {ℓ} {T : Type ℓ} {Server : Type 0} (redis : ℕ → Commands Server) (codec : Codec T)
    : Type ℓ where
  pub view : ℕ → Server → String → Option String
  pub get_lem : (now : ℕ) (k : String) (s : Server) → (redis now).get k s ≡ answered (view now s k)
  pub set_ex_answers :
      (now : ℕ) (k v : String) (ttl : ℕ) (s : Server)
      → 0 < ttl
      → ((redis now).set_ex k v ttl s).0 ≡ true
  pub set_ex_lem :
      (now : ℕ) (k v : String) (ttl : ℕ) (s : Server) (t : ℕ) (q : String)
      → 0 < ttl
      → view t ((redis now).set_ex k v ttl s).1 q
        ≡ (if k =ₛ q then until (now + ttl * 1000) t (some v) else view t s q)
  pub set_nx_answers :
      (now : ℕ) (k v : String) (ttl : ℕ) (s : Server)
      → 0 < ttl
      → view now s k ≡ none
      → ((redis now).set_nx k v ttl s).0 ≡ answered true
  pub set_nx_lem :
      (now : ℕ) (k v : String) (ttl : ℕ) (s : Server) (t : ℕ) (q : String)
      → 0 < ttl
      → view now s k ≡ none
      → view t ((redis now).set_nx k v ttl s).1 q
        ≡ (if k =ₛ q then until (now + ttl * 1000) t (some v) else view t s q)
  pub del_lem :
      (now : ℕ) (k : String) (s : Server) (t : ℕ) (q : String)
      → view t ((redis now).del k s) q ≡ (if k =ₛ q then none else view t s q)
  pub stringify_there : (r : IdempotencyRecord T) → is_there (some (codec.stringify r)) ≡ true
  pub parse_lem :
      (r : IdempotencyRecord T) → map_status (codec.parse (codec.stringify r)) ≡ some r.status

abbrev pub does_give {ℓ} : {T : Type ℓ} → Done T → Bool
does_give (gave t) = true
does_give (failed e) = false

abbrev pub read_of {ℓ} : {T : Type ℓ} → Option T → Read T
read_of none = nothing
read_of (some t) = found t

pub reusable-status {ℓ} :
    {T : Type ℓ} (o : Option (IdempotencyRecord T)) (status : RecordStatus T)
    → map_status o ≡ some status
    → reusable o ≡ read_of (result_in status)
unfolding reusable
reusable-status none status h = absurd (cc)
reusable-status (some r) in_progress h = rw (some_eq _ _ h) refl
reusable-status (some r) (completed none) h = rw (some_eq _ _ h) refl
reusable-status (some r) (completed (some t)) h = rw (some_eq _ _ h) refl

text_there : (raw : String) → (raw =ₛ "") ≡ false → or_text? (some raw) "" ≡ raw
text_there raw e = rw e refl

pub read_there {ℓ} :
    {T : Type ℓ} (codec : Codec T) (raw : String)
    → is_there (some raw) ≡ true
    → read_record codec (answered (some raw)) ≡ reusable (codec.parse raw)
unfolding read_record
read_there codec raw h = elim (Bool-cases (raw =ₛ "")) [
  | inl e ↦ let empty = rw e at h in absurd (cc)
  | inr e ↦ rw (e, read_record) (rw e (ap (λ x. reusable (codec.parse x)) (text_there raw e)))
]

-- Keys such that the lock of none of them is one of them.
abbrev pub IsLockFree : (String → Bool) → Type 0
IsLockFree names = (k : String) → names k ≡ true → names (lock_key k) ≡ false

pub not_lock :
    (names : String → Bool) (k q : String)
    → IsLockFree names
    → names k ≡ true
    → names q ≡ true
    → (lock_key k =ₛ q) ≡ false
not_lock names k q free here there = elim (Bool-cases (lock_key k =ₛ q)) [
  | inl h ↦ absurd (name_twice ((eq_iff (lock_key k) q).0 h))
  | inr h ↦ h
]
  where
    name_twice : lock_key k ≢ q
    name_twice e = let out = free k here in cc

pub is_not_lock :
    (names : String → Bool) (k q : String)
    → IsLockFree names
    → names k ≡ true
    → names q ≡ true
    → (k =ₛ lock_key q) ≡ false
is_not_lock names k q free here there =
    ne→test k (lock_key q)
      (λ e. ne_of_test (lock_key q) k (not_lock names q k free there here) (sym e))
