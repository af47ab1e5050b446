-- ===== src/Idempotency/Replay.antt =====
-- What a second call with the same key does.
use forge_gate.Base.{
  ℕ, ◌+◌, ◌-◌, ◌≤◌, String, false, Option, none, some, List, [], ◌∷◌, ◌≡◌, refl, ltb, ◌=ₛ◌, arith,
  eq_refl, Bool-cases, inl, inr,
}
use forge_gate.Idempotency.{
  IdempotencyRecord, in_progress, completed, Entry, returned, threw, Done, gave, failed,
  default_ttl_ms, get, delete, set, clean_expired, Memory, finish, run_operation, process_in_memory,
}

fresh_test : (now at : ℕ) → now ≤ at + default_ttl_ms → ltb default_ttl_ms (now - at) ≡ false
fresh_test now at h = ground arith

module _ {ℓ} {T : Type ℓ} where
  get-set :
      (k : String) (v : IdempotencyRecord T) (es : List (Entry T)) → get k (set k v es) ≡ some v
  unfolding get set
  get-set k v es = rw (eq_refl k) refl

  get-delete : (k : String) (es : List (Entry T)) → get k (delete k es) ≡ none
  unfolding get delete
  get-delete k [] = refl
  get-delete k (e ∷ es) = elim (Bool-cases (e.key =ₛ k)) [
    | inl h ↦ rw h (get-delete k es)
    | inr h ↦ rw h (rw h (get-delete k es))
  ]

  get-clean_expired :
      (k : String) (now : ℕ) (v : IdempotencyRecord T) (es : List (Entry T))
      → now ≤ v.created_at + default_ttl_ms
      → get k (clean_expired now (set k v es)) ≡ some v
  unfolding get set clean_expired
  get-clean_expired k now v es h = rw (fresh_test now v.created_at h) (rw (eq_refl k) refl)

  module _ {World : Type 0} where
    first_call :
        (key : String) (now : ℕ) (seen : List (Option (IdempotencyRecord T)))
        (operation : World → Done T × World) (m : Memory T World) (t : T)
        → get key (clean_expired now m.store) ≡ none
        → (operation m.world).0 ≡ gave (some t)
        → process_in_memory key now seen operation m ≡ (
          returned (some t),
          record {
            store =
                set key
                  (record { status = completed (some t); created_at = now })
                  (set key
                    (record { status = in_progress; created_at = now })
                    (clean_expired now m.store));
            world = (operation m.world).1;
          },
        )
    unfolding process_in_memory run_operation finish
    first_call key now seen operation m t new gives =
        rw (new, process_in_memory) (rw (gives, finish) refl)

    later_call :
        (key : String) (now later : ℕ) (seen : List (Option (IdempotencyRecord T)))
        (other : World → Done T × World) (t : T) (es : List (Entry T)) (w : World)
        → later ≤ now + default_ttl_ms
        → let kept = set key (record { status = completed (some t); created_at = now }) es in
          process_in_memory key later seen other (record { store = kept; world = w })
          ≡ (returned (some t), record { store = clean_expired later kept; world = w })
    unfolding process_in_memory
    later_call key now later seen other t es w soon =
        rw
          (
            get-clean_expired key later (record { status = completed (some t); created_at = now })
                es soon,
            process_in_memory,
          )
          refl

    -- A call that finds no record and whose operation gives a result leaves a record of it: a call
    -- with the same key in the next 24 hours gives the same result, and does not run its own
    -- operation.
    pub process_in_memory_twice :
        (key : String) (now later : ℕ) (seen seen' : List (Option (IdempotencyRecord T)))
        (operation other : World → Done T × World) (m : Memory T World) (t : T)
        → get key (clean_expired now m.store) ≡ none
        → (operation m.world).0 ≡ gave (some t)
        → later ≤ now + default_ttl_ms
        → let one = process_in_memory key now seen operation m in
          let two = process_in_memory key later seen' other one.1 in
          (one.0 ≡ returned (some t))
          × (two.0 ≡ returned (some t))
          × (one.1.world ≡ (operation m.world).1)
          × (two.1.world ≡ one.1.world)
    process_in_memory_twice key now later seen seen' operation other m t new gives soon =
        rw (first_call key now seen operation m t new gives)
          (rw (later_call key now later seen' other t _ _ soon) (refl, refl, refl, refl))

    -- A call that finds no record and whose operation throws gives the error and leaves no record of
    -- its key.
    pub process_in_memory_failed :
        (key : String) (now : ℕ) (seen : List (Option (IdempotencyRecord T)))
        (operation : World → Done T × World) (m : Memory T World) (e : String)
        → get key (clean_expired now m.store) ≡ none
        → (operation m.world).0 ≡ failed e
        → let one = process_in_memory key now seen operation m in
          (one.0 ≡ threw e) × (get key one.1.store ≡ none)
    unfolding process_in_memory run_operation finish
    process_in_memory_failed key now seen operation m e new fails =
        rw (new, process_in_memory) (rw (fails, finish) (refl, get-delete key _))
