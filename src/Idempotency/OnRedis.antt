-- ===== src/Idempotency/OnRedis.antt =====
-- Calls of `processIdempotentOperation` on a Redis that works, one after the other. Each call has its
-- own reading of the clock, and keys end when their time to live is over.
use forge_gate.Base.{
  ℕ, ◌+◌, ◌*◌, ◌<◌, String, Bool, true, Option, none, some, List, [], All, ◌≡◌, refl, sym, ◌=ₛ◌,
  Bool-cases, Option-cases, inl, inr, arith,
}
use forge_gate.Base.Runs.{run_calls, Simulates, run_calls_refines}
use forge_gate.Js.Text.{trim}
use forge_gate.Idempotency.{returned, completed, Outcome, Done, gave, failed, outcome_of}
use forge_gate.Idempotency.Contract.{
  Call, TimedPromise, remember_until, timed_promise_of, stated_key, key_of, timed_promise_call,
}
use forge_gate.Idempotency.Redis.{
  Commands, Codec, gave_back, Shared, lock_key, finish_locked, run_locked, process_on_redis,
  fall_back, process_under, process_idempotent_operation,
}
use forge_gate.Idempotency.Held.{
  remember_until_self, Holds, after_locked, after_locked-Holds, reads_of,
}
use forge_gate.Idempotency.Works.{Works, does_give, IsLockFree}

module _ {ℓ} {T : Type ℓ} {Server : Type 0} (redis : ℕ → Commands Server) (codec : Codec T)
    (works : Works redis codec) (names : String → Bool) where
  module _ {World : Type 0} where
    -- The state is as it was promised.
    abbrev pub IsAs : Shared T World Server → TimedPromise T World → Type ℓ
    IsAs st a = Holds redis codec works names st.server a.results × (st.memory.world ≡ a.world)

    -- A run of an operation that gives a result, under the lock.
    locked_new :
        (key : String) (ttl now : ℕ) (operation : World → Done T × World)
        (st : Shared T World Server) (f : ℕ → String → Option T) (d : Option T)
        → 0 < ttl
        → IsLockFree names
        → names key ≡ true
        → f now key ≡ none
        → Holds redis codec works names st.server f
        → (operation st.memory.world).0 ≡ gave d
        → process_on_redis (redis now) codec key ttl now [] operation st ≡ (
          gave_back d,
          record {
            server =
                after_locked redis codec works names now key
                  (codec.stringify (record { status = completed d; created_at = now }))
                  ttl
                  st.server;
            memory = record st.memory { world = (operation st.memory.world).1 };
          },
        )
    unfolding process_on_redis run_locked finish_locked
    locked_new key ttl now operation st f d lasts free named new holds gives =
        let answers =
          works.set_nx_answers now (lock_key key) "LOCKED" 30 st.server (omega arith)
            (holds now key named).1 in
        rw
          (
            reads_of redis codec works names now key st.server f none holds named new,
            process_on_redis,
          )
          (rw (answers, run_locked)
            (rw (gives, finish_locked) (rw (works.set_ex_answers now key _ ttl _ lasts) refl)))

    new_keeps :
        (key : String) (ttl now : ℕ) (operation : World → Done T × World)
        (st : Shared T World Server) (f : ℕ → String → Option T) (d : Done T)
        → does_give d ≡ true
        → 0 < ttl
        → IsLockFree names
        → names key ≡ true
        → f now key ≡ none
        → Holds redis codec works names st.server f
        → (operation st.memory.world).0 ≡ d
        → Simulates IsAs (process_under (some (redis now)) codec key ttl now [] [] operation st) (
            timed_promise_of key ttl now operation
              (record { results = f; world = st.memory.world }))
    unfolding process_under fall_back timed_promise_of outcome_of
    new_keeps key ttl now operation st f (failed e) never lasts free named new holds gives =
        absurd (cc)
    new_keeps key ttl now operation st f (gave d) never lasts free named new holds gives =
        rw
          (
            locked_new key ttl now operation st f d lasts free named new holds gives,
            new,
            timed_promise_of,
          )
          (rw (gives, outcome_of)
            (
              refl,
              (
                after_locked-Holds redis codec works names key d now ttl st.server f lasts free
                    named holds,
                refl,
              ),
            ))

    found_back :
        (key : String) (ttl now : ℕ) (operation : World → Done T × World)
        (st : Shared T World Server) (f : ℕ → String → Option T) (t : T)
        → names key ≡ true
        → f now key ≡ some t
        → Holds redis codec works names st.server f
        → process_on_redis (redis now) codec key ttl now [] operation st ≡ (gave_back (some t), st)
    unfolding process_on_redis
    found_back key ttl now operation st f t named is holds =
        rw
          (
            reads_of redis codec works names now key st.server f (some t) holds named is,
            process_on_redis,
          )
          refl

    found_keeps :
        (key : String) (ttl now : ℕ) (operation : World → Done T × World)
        (st : Shared T World Server) (f : ℕ → String → Option T) (t : T)
        → names key ≡ true
        → f now key ≡ some t
        → Holds redis codec works names st.server f
        → Simulates IsAs (process_under (some (redis now)) codec key ttl now [] [] operation st) (
            timed_promise_of key ttl now operation
              (record { results = f; world = st.memory.world }))
    unfolding process_under fall_back timed_promise_of
    found_keeps key ttl now operation st f t named is holds =
        rw (found_back key ttl now operation st f t named is holds, is, timed_promise_of)
          (refl, (holds, refl))

    -- A call whose key is not the lock of another, and whose operation does not throw.
    abbrev pub IsPlain : Call T World → Type 0
    IsPlain c = (names (key_of c) ≡ true) × ((w : World) → does_give (c.operation w).0 ≡ true)

    -- A call that is alone, so that a poll sees nothing.
    unfoldable pub call_on_redis :
        ℕ → Call T World → Shared T World Server → Outcome T × Shared T World Server
    call_on_redis ttl c st =
        process_idempotent_operation (some (redis c.at)) codec c.tenant_id c.operation_scope
          c.idempotency_key ttl c.at [] [] c.operation st

    call_on_redis_keeps :
        (ttl : ℕ) (c : Call T World) (st : Shared T World Server) (a : TimedPromise T World)
        → 0 < ttl
        → IsLockFree names
        → IsPlain c
        → IsAs st a
        → Simulates IsAs (call_on_redis ttl c st) (timed_promise_call ttl c a)
    unfolding call_on_redis process_idempotent_operation timed_promise_call
    call_on_redis_keeps ttl c st a lasts free plain as_promised =
        elim (Bool-cases (trim (stated_key c) =ₛ "")) [
          | inl h ↦
              rw (h, process_idempotent_operation, timed_promise_call)
                (rw (sym as_promised.1) (refl, (as_promised.0, refl)))
          | inr h ↦
              rw (h, process_idempotent_operation, timed_promise_call)
                (rw (sym as_promised.1) (elim (Option-cases (a.results c.at (key_of c))) [
                  | inl new ↦
                      new_keeps (key_of c) ttl c.at c.operation st a.results _ (plain.1 _) lasts
                        free plain.0 new as_promised.0 refl
                  | inr (t, is) ↦
                      found_keeps (key_of c) ttl c.at c.operation st a.results t plain.0 is
                        as_promised.0
                ]))
        ]

    -- Calls on a Redis that works, one after the other, with keys that are no locks of one another
    -- and operations that do not throw, for a time to live that is not 0: each gives what the
    -- contract says, that is, the result remembered under its key if it has not ended when the call
    -- is made, and what its operation gives otherwise; and the server and the world stay as it says.
    pub call_on_redis_refines :
        (ttl : ℕ) (calls : List (Call T World)) (st : Shared T World Server)
        (a : TimedPromise T World)
        → 0 < ttl
        → IsLockFree names
        → All IsPlain calls
        → IsAs st a
        → Simulates IsAs
            (run_calls (call_on_redis ttl) calls st)
            (run_calls (timed_promise_call ttl) calls a)
    call_on_redis_refines ttl calls st a lasts free plain as_promised =
        run_calls_refines (call_on_redis ttl) (timed_promise_call ttl) IsAs IsPlain
          (λ c s b p r. call_on_redis_keeps ttl c s b lasts free p r) calls st a plain as_promised

    -- A second call on a working Redis before the result of the first one has ended.
    pub process_under_again :
        (key : String) (ttl now later : ℕ) (operation other : World → Done T × World)
        (st : Shared T World Server) (f : ℕ → String → Option T) (t : T)
        → 0 < ttl
        → IsLockFree names
        → names key ≡ true
        → f now key ≡ none
        → Holds redis codec works names st.server f
        → (operation st.memory.world).0 ≡ gave (some t)
        → later < now + ttl * 1000
        → let one = process_under (some (redis now)) codec key ttl now [] [] operation st in
          let two = process_under (some (redis later)) codec key ttl later [] [] other one.1 in
          (one.0 ≡ returned (some t))
          × (two.0 ≡ returned (some t))
          × (one.1.memory.world ≡ (operation st.memory.world).1)
          × (two.1.memory.world ≡ one.1.memory.world)
    unfolding process_under fall_back
    process_under_again key ttl now later operation other st f t lasts free named new holds gives
          soon =
        let after =
          after_locked-Holds redis codec works names key (some t) now ttl st.server f lasts free
            named holds in
        let left : Shared T World Server = record {
          server =
              after_locked redis codec works names now key
                (codec.stringify (record { status = completed (some t); created_at = now })) ttl
                st.server;
          memory = record st.memory { world = (operation st.memory.world).1 };
        } in
        rw
          (
            locked_new key ttl now operation st f (some t) lasts free named new holds gives,
            fall_back,
          )
          (rw
            (found_back key ttl later other left
              (remember_until key (now + ttl * 1000) (gave (some t)) f) t named
              (remember_until_self key (now + ttl * 1000) later (some t) f soon) after)
            (refl, refl, refl, refl))
