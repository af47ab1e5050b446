-- ===== src/Idempotency/Runs.antt =====
-- Calls of `processIdempotentOperation` on the store in memory, one after the other.
use forge_gate.Base.{
  ℕ, ◌+◌, ◌≤◌, String, false, Option, none, some, List, [], All, ◌≡◌, refl, sym, ◌∙◌, ◌=ₛ◌,
  Bool-cases, Option-cases, inl, inr,
}
use forge_gate.Base.Runs.{run_calls, Simulates, run_calls_refines}
use forge_gate.Js.Text.{trim}
use forge_gate.Idempotency.{
  RecordStatus, IdempotencyRecord, in_progress, completed, Outcome, Done, default_ttl_ms, get,
  clean_expired, Memory, run_operation, process_in_memory, process_without_redis,
}
use forge_gate.Idempotency.Contract.{Call, Promise, promise_of, stated_key, key_of, promise_call}
use forge_gate.Idempotency.InMemory.{
  result_in, is_pending, Keeps, clean_expired-id, get-IsKept, finish-Keeps,
}

module _ {ℓ} {T : Type ℓ} {World : Type 0} where
  -- A call on the store in memory. It is alone, so that a poll sees nothing.
  unfoldable pub call_in_memory : Call T World → Memory T World → Outcome T × Memory T World
  call_in_memory c m =
      process_without_redis c.tenant_id c.operation_scope c.idempotency_key c.at [] c.operation m

  abbrev pub IsAs : ℕ → Memory T World → Promise T World → Type ℓ
  IsAs start m a = Keeps start m.store a.results × (m.world ≡ a.world)

  -- A call in the 24 hours from the start on.
  abbrev pub IsDuring : ℕ → Call T World → Type 0
  IsDuring start c = (start ≤ c.at) × (c.at ≤ start + default_ttl_ms)

  run_operation-Keeps :
      (start now : ℕ) (key : String) (operation : World → Done T × World) (m : Memory T World)
      (f : String → Option T)
      → start ≤ now
      → f key ≡ none
      → Keeps start m.store f
      → Simulates
          (IsAs start)
          (run_operation key now operation m)
          (promise_of key operation (record { results = f; world = m.world }))
  unfolding run_operation promise_of
  run_operation-Keeps start now key operation m f late new keeps =
      let ran = operation m.world in
      let left =
        finish-Keeps start now key ran.0 ran.1 (record { status = in_progress; created_at = now })
          m.store f late new keeps in
      rw (new, promise_of) (left.0, (left.2, left.1))

  process_new :
      (start now : ℕ) (key : String) (operation : World → Done T × World) (m : Memory T World)
      (f : String → Option T)
      → start ≤ now
      → f key ≡ none
      → clean_expired now m.store ≡ m.store
      → Keeps start m.store f
      → process_in_memory key now [] operation m ≡ run_operation key now operation m
      → Simulates
          (IsAs start)
          (process_in_memory key now [] operation m)
          (promise_of key operation (record { results = f; world = m.world }))
  process_new start now key operation m f late new clean keeps runs =
      rw runs (run_operation-Keeps start now key operation m f late new keeps)

  process_with_status :
      (start now : ℕ) (key : String) (operation : World → Done T × World) (m : Memory T World)
      (f : String → Option T) (r : IdempotencyRecord T) (status : RecordStatus T)
      → r.status ≡ status
      → is_pending status ≡ false
      → start ≤ now
      → clean_expired now m.store ≡ m.store
      → Keeps start m.store f
      → get key (clean_expired now m.store) ≡ some r
      → f key ≡ result_in status
      → Simulates
          (IsAs start)
          (process_in_memory key now [] operation m)
          (promise_of key operation (record { results = f; world = m.world }))
  unfolding process_in_memory promise_of
  process_with_status start now key operation m f r in_progress is p late clean keeps there kept =
      absurd (cc)
  process_with_status start now key operation m f r (completed none) is p late clean keeps there
        kept =
      process_new start now key operation m f late kept clean keeps
        (rw (there, process_in_memory) (rw is (rw clean refl)))
  process_with_status start now key operation m f r (completed (some t)) is p late clean keeps there
        kept =
      rw (there, process_in_memory) (rw is (rw (clean, kept, promise_of) (refl, (keeps, refl))))

  runs_new :
      (key : String) (now : ℕ) (operation : World → Done T × World) (m : Memory T World)
      → get key (clean_expired now m.store) ≡ none
      → clean_expired now m.store ≡ m.store
      → process_in_memory key now [] operation m ≡ run_operation key now operation m
  unfolding process_in_memory
  runs_new key now operation m there clean = rw (there, process_in_memory) (rw clean refl)

  process_in_memory-Keeps :
      (start now : ℕ) (key : String) (operation : World → Done T × World) (m : Memory T World)
      (f : String → Option T)
      → start ≤ now
      → now ≤ start + default_ttl_ms
      → Keeps start m.store f
      → Simulates
          (IsAs start)
          (process_in_memory key now [] operation m)
          (promise_of key operation (record { results = f; world = m.world }))
  process_in_memory-Keeps start now key operation m f late soon keeps =
      let clean = clean_expired-id start now m.store soon keeps.0 in
      elim (Option-cases (get key m.store)) [
        | inl there ↦
            process_new start now key operation m f late (sym (keeps.1 key) ∙ rw there refl) clean
              keeps (runs_new key now operation m (rw clean there) clean)
        | inr (r, there) ↦
            process_with_status start now key operation m f r r.status refl
              (get-IsKept start key m.store r keeps.0 there) late clean keeps (rw clean there)
              (sym (keeps.1 key) ∙ rw there refl)
      ]

  call_in_memory_keeps :
      (start : ℕ) (c : Call T World) (m : Memory T World) (a : Promise T World)
      → IsDuring start c
      → IsAs start m a
      → Simulates (IsAs start) (call_in_memory c m) (promise_call c a)
  unfolding call_in_memory process_without_redis promise_call
  call_in_memory_keeps start c m a during as_promised =
      elim (Bool-cases (trim (stated_key c) =ₛ "")) [
        | inl h ↦
            rw (h, process_without_redis, promise_call)
              (rw (sym as_promised.1) (refl, (as_promised.0, refl)))
        | inr h ↦
            rw (h, process_without_redis, promise_call)
              (rw (sym as_promised.1) (
                process_in_memory-Keeps start c.at (key_of c) c.operation m a.results during.0
                  during.1 as_promised.0))
      ]

  -- Calls on the store in memory, one after the other within 24 hours: each gives what the contract
  -- says, and the store and the world stay as it says.
  pub call_in_memory_refines :
      (start : ℕ) (calls : List (Call T World)) (m : Memory T World) (a : Promise T World)
      → All (IsDuring start) calls
      → IsAs start m a
      → Simulates (IsAs start) (run_calls call_in_memory calls m) (run_calls promise_call calls a)
  call_in_memory_refines start =
      run_calls_refines call_in_memory promise_call (IsAs start) (IsDuring start)
        (call_in_memory_keeps start)
