-- ===== src/Idempotency/Held.antt =====
-- What a Redis that works holds of the records of `processIdempotentOperation`, as keys end.
use forge_gate.Base.{
  eq_refl, ℕ, ◌+◌, ◌*◌, ◌<◌, String, Bool, true, Option, none, some, ◌≡◌, refl, ap, ◌∙◌, ltb, ◌=ₛ◌,
  if◌then◌else◌, Bool-cases, inl, inr, arith,
}
use forge_gate.Idempotency.{IdempotencyRecord, completed, gave}
use forge_gate.Idempotency.Contract.{until, remember_until}
use forge_gate.Idempotency.InMemory.{result_in}
use forge_gate.Idempotency.Redis.{answered, Commands, Codec, lock_key, read_record}
use forge_gate.Idempotency.Works.{
  Works, read_of, read_there, reusable-status, IsLockFree, not_lock, is_not_lock,
}

pub remember_until_self {ℓ} :
    {T : Type ℓ} (key : String) (last t : ℕ) (d : Option T) (f : ℕ → String → Option T)
    → t < last
    → remember_until key last (gave d) f t key ≡ d
unfolding remember_until
remember_until_self key last t d f soon =
    let now : ltb t last ≡ true = ground arith in rw (eq_refl key) (rw now refl)

module _ {ℓ} {T : Type ℓ} {Server : Type 0} (redis : ℕ → Commands Server) (codec : Codec T)
    (works : Works redis codec) (names : String → Bool) where
  -- What the server holds is what is promised, at each time, and no lock is held.
  abbrev pub Holds : Server → (ℕ → String → Option T) → Type ℓ
  Holds s f =
      (t : ℕ) (q : String)
      → names q ≡ true
      → (read_record codec (answered (works.view t s q)) ≡ read_of (f t q))
        × (works.view t s (lock_key q) ≡ none)

  read_stored :
      (r : IdempotencyRecord T)
      → read_record codec (answered (some (codec.stringify r))) ≡ read_of (result_in r.status)
  read_stored r =
      read_there codec _ (works.stringify_there r) ∙ reusable-status _ r.status (works.parse_lem r)

  read_until :
      (d : Option T) (now last t : ℕ)
      → let kept = codec.stringify (record { status = completed d; created_at = now }) in
        read_record codec (answered (until last t (some kept))) ≡ read_of (until last t d)
  unfolding read_record
  read_until d now last t = elim (Bool-cases (ltb t last)) [
    | inl soon ↦ rw soon (read_stored (record { status = completed d; created_at = now }))
    | inr late ↦ rw late refl
  ]

  -- The server after the lock, the record and the end of the lock.
  abbrev pub after_locked : ℕ → String → String → ℕ → Server → Server
  after_locked now key kept ttl s =
      (redis now).del (lock_key key)
        ((redis now).set_ex key kept ttl ((redis now).set_nx (lock_key key) "LOCKED" 30 s).1).1

  view-after_locked :
      (now : ℕ) (key kept : String) (ttl : ℕ) (s : Server) (t : ℕ) (q : String)
      → 0 < ttl
      → works.view now s (lock_key key) ≡ none
      → works.view t (after_locked now key kept ttl s) q ≡ (
          if lock_key key =ₛ q
          then none
          else if key =ₛ q
          then until (now + ttl * 1000) t (some kept)
          else works.view t s q)
  view-after_locked now key kept ttl s t q lasts open_lock =
      rw
        (
          works.del_lem now (lock_key key) _ t q,
          works.set_ex_lem now key kept ttl _ t q lasts,
          works.set_nx_lem now (lock_key key) "LOCKED" 30 s t q (omega arith) open_lock,
        )
        (elim (Bool-cases (lock_key key =ₛ q)) [ inl h ↦ rw h refl | inr h ↦ rw h refl ])

  pub after_locked-Holds :
      (key : String) (d : Option T) (now ttl : ℕ) (s : Server) (f : ℕ → String → Option T)
      → 0 < ttl
      → IsLockFree names
      → names key ≡ true
      → Holds s f
      → Holds
          (after_locked now key
            (codec.stringify (record { status = completed d; created_at = now }))
            ttl
            s)
          (remember_until key (now + ttl * 1000) (gave d) f)
  unfolding remember_until
  after_locked-Holds key d now ttl s f lasts free named holds t q there =
      let open_lock = (holds now key named).1 in
      (
        rw
            (
              view-after_locked now key _ ttl s t q lasts open_lock,
              not_lock names key q free named there,
            )
            (elim (Bool-cases (key =ₛ q)) [
              | inl h ↦ rw h (read_until d now (now + ttl * 1000) t)
              | inr h ↦ rw h (holds t q there).0
            ]),
        rw (view-after_locked now key _ ttl s t (lock_key q) lasts open_lock)
            (elim (Bool-cases (lock_key key =ₛ lock_key q)) [
              | inl h ↦ rw h refl
              | inr h ↦ rw (h, is_not_lock names key q free named there) (holds t q there).1
            ]),
      )

  pub reads_of :
      (now : ℕ) (key : String) (s : Server) (f : ℕ → String → Option T) (o : Option T)
      → Holds s f
      → names key ≡ true
      → f now key ≡ o
      → read_record codec ((redis now).get key s) ≡ read_of o
  reads_of now key s f o holds named is =
      rw (works.get_lem now key s) ((holds now key named).0 ∙ ap read_of is)
