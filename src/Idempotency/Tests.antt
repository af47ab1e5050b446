-- ===== src/Idempotency/Tests.antt =====
-- Runs of the idempotency service, in memory and on a Redis whose state is a function of its keys.
use forge_gate.Base.{
  is_some, count_of, ◌≤◌, ◌<◌, ◌+◌, ◌*◌, ltb, ℕ, suc, String, Bool, true, false, Option, none, some,
  List, [], ◌∷◌, ◌≡◌, refl, ◌=ₛ◌, if◌then◌else◌, eq_iff, arith,
}
use forge_gate.Js.Text.{trim}
use forge_gate.Base.Runs.{run_calls, Simulates}
use forge_gate.Idempotency.{
  RecordStatus, in_progress, completed, IdempotencyRecord, Outcome, Done, gave, failed, Memory, get,
  clean_expired, finish, run_operation, process_in_memory,
}
use forge_gate.Idempotency.Contract.{Call, Promise, promise_call, TimedPromise, timed_promise_call}
use forge_gate.Idempotency.Runs.{IsAs, call_in_memory, call_in_memory_refines}
use forge_gate.Idempotency.Keys.{Keys, alive, put, put_new, server, alive-put, alive-del}
use forge_gate.Idempotency.Redis.{
  answered, Codec, caught, Shared, read_record, process_on_redis, poll_for_redis_completion,
  process_idempotent_operation,
}
use forge_gate.Idempotency.Works.{Works, IsLockFree, map_status}
use forge_gate.Idempotency.OnRedis
use forge_gate.Idempotency.OnRedis.{call_on_redis, call_on_redis_refines}
use forge_gate.Idempotency.Machine.{
  Phase, to_lock, to_run, to_release, to_poll, Shop, Contender, since_after, Crowd, turn, Reaches,
  stay, move, take_turn, after_lock,
}
use forge_gate.Idempotency.Guarded.{is_holder, Guards}
use forge_gate.Idempotency.Exclusion.{has_lock_once}
use forge_gate.Idempotency.Overrun.{lock_overrun}
use forge_gate.Idempotency.Twice.{IsRunTwice, process_idempotent_operation_twice}

-- The world counts the runs.
abbrev trigger : ℕ → Done Bool × ℕ
trigger runs = (gave (some true), suc runs)

abbrev refuse : ℕ → Done Bool × ℕ
refuse runs = (failed "no queue", suc runs)

abbrev call_of : ℕ → (ℕ → Done Bool × ℕ) → Call Bool ℕ
call_of at operation = record {
  tenant_id = "acme";
  operation_scope = "run";
  idempotency_key = some " k1 ";
  at = at;
  operation = operation;
}

abbrev three_calls : List (Call Bool ℕ)
three_calls = call_of 1000 refuse ∷ call_of 1050 trigger ∷ call_of 2000 trigger ∷ []

abbrev no_results : Promise Bool ℕ
no_results = record { results = λ q. none; world = 0 }

abbrev empty : Memory Bool ℕ
empty = record { store = []; world = 0 }

call_in_memory_refines_example :
    Simulates
      (IsAs 1000)
      (run_calls call_in_memory three_calls empty)
      (run_calls promise_call three_calls no_results)
unfolding get
call_in_memory_refines_example =
    call_in_memory_refines 1000 three_calls empty no_results
      (
        (ground arith, ground arith),
        ((ground arith, ground arith), ((ground arith, ground arith), tt)),
      )
      ((tt, λ q. refl), refl)

abbrev code_of : RecordStatus Bool → String
code_of in_progress = "P"
code_of (completed none) = "N"
code_of (completed (some true)) = "T"
code_of (completed (some false)) = "F"

abbrev decode : String → Option (RecordStatus Bool)
decode s =
    if s =ₛ "P"
    then some in_progress
    else if s =ₛ "N"
    then some (completed none)
    else if s =ₛ "T"
    then some (completed (some true))
    else if s =ₛ "F"
    then some (completed (some false))
    else none

abbrev with_status : Option (RecordStatus Bool) → Option (IdempotencyRecord Bool)
with_status none = none
with_status (some status) = some (record { status = status; created_at = 0 })

abbrev codec : Codec Bool
codec = record { parse = λ s. with_status (decode s); stringify = λ r. code_of r.status }

parse-code_of :
    (status : RecordStatus Bool) → map_status (with_status (decode (code_of status))) ≡ some status
parse-code_of in_progress = refl
parse-code_of (completed none) = refl
parse-code_of (completed (some true)) = refl
parse-code_of (completed (some false)) = refl

code_there : (status : RecordStatus Bool) → (code_of status =ₛ "") ≡ false
code_there in_progress = refl
code_there (completed none) = refl
code_there (completed (some true)) = refl
code_there (completed (some false)) = refl

abbrev works : Works server codec
works = record {
  view = λ t s q. alive t (s q);
  get_lem = λ now k s. refl;
  set_ex_answers = λ now k v ttl s lasts. refl;
  set_ex_lem = λ now k v ttl s t q lasts. alive-put t k v (now + ttl * 1000) s q;
  set_nx_answers = λ now k v ttl s lasts new. rw new refl;
  set_nx_lem = λ now k v ttl s t q lasts new. rw new (alive-put t k v (now + ttl * 1000) s q);
  del_lem = λ now k s t q. alive-del t k s q;
  stringify_there = λ r. rw (code_there r.status) (rw (code_there r.status) refl);
  parse_lem = λ r. parse-code_of r.status;
}

abbrev is_name : String → Bool
is_name q = q =ₛ "idem:api:acme:run:k1"

is_name-IsLockFree : IsLockFree is_name
is_name-IsLockFree k h = rw ((eq_iff k "idem:api:acme:run:k1").0 h) refl

-- The third call is made after the result of the first one has ended.
abbrev some_calls : List (Call Bool ℕ)
some_calls = call_of 1050 trigger ∷ call_of 2000 trigger ∷ call_of 86402000 trigger ∷ []

abbrev no_timed_results : TimedPromise Bool ℕ
no_timed_results = record { results = λ t q. none; world = 0 }

abbrev new_state : Shared Bool ℕ Keys
new_state = record { server = λ q. none; memory = empty }

call_on_redis_refines_example :
    Simulates
      (OnRedis.IsAs server codec works is_name)
      (run_calls (call_on_redis server codec works is_name 86400) some_calls new_state)
      (run_calls (timed_promise_call 86400) some_calls no_timed_results)
unfolding trim read_record
call_on_redis_refines_example =
    call_on_redis_refines server codec works is_name 86400 some_calls new_state no_timed_results
      (omega arith) is_name-IsLockFree
      ((refl, λ w. refl), ((refl, λ w. refl), ((refl, λ w. refl), tt)))
      ((λ t q there. (refl, refl)), refl)

-- The first call and the third one run the operation.
runs_of_calls :
    (run_calls (call_on_redis server codec works is_name 86400) some_calls new_state).1.memory.world
    ≡ 2
unfolding run_calls call_on_redis process_idempotent_operation trim process_on_redis read_record
runs_of_calls = refl

abbrev call_with : String → Shared Bool ℕ Keys → Outcome Bool × Shared Bool ℕ Keys
call_with key st =
    process_idempotent_operation (some (server 1000)) codec "acme" "run" (some key) 86400 1000 [] []
      refuse st

process_idempotent_operation_twice_example :
    IsRunTwice refuse 0
      (process_idempotent_operation
        (some (server 1000))
        codec
        "acme"
        "run"
        (some "k1")
        86400
        1000
        []
        []
        refuse
        new_state).1.memory.world
process_idempotent_operation_twice_example =
    process_idempotent_operation_twice (some (server 1000)) codec "acme" "run" (some "k1") 86400
      1000 [] [] refuse new_state

-- An operation that throws runs once under the lock and once more in memory.
failed_runs : (call_with "k1" new_state).1.memory.world ≡ 2
unfolding process_idempotent_operation trim process_on_redis read_record process_in_memory get
    clean_expired run_operation finish
failed_runs = refl

-- A record under the key "k1:lock" holds the lock of the key "k1": a call with the second key waits,
-- and then runs in memory.
abbrev after_lock_key : Shared Bool ℕ Keys
after_lock_key =
    (process_idempotent_operation (some (server 1000)) codec "acme" "run" (some "k1:lock") 86400
      1000 [] [] trigger new_state).1

held_by_other : (call_with "k1" after_lock_key).1.memory.world ≡ 2
unfolding process_idempotent_operation trim process_on_redis read_record poll_for_redis_completion
    process_in_memory get clean_expired run_operation finish
held_by_other = refl

is_alive-until : (t last : ℕ) (v : String) → t < last → is_some (alive t (some (v, last))) ≡ true
is_alive-until t last v soon = let h : ltb t last ≡ true = ground arith in rw h refl

free_of_new :
    (o : Option String) (v : String) (until : ℕ) (s : Keys)
    → (put_new o "k1:lock" v until s).0 ≡ answered true
    → is_some o ≡ false
free_of_new none v until s got = refl
free_of_new (some held) v until s got = absurd (cc)

held_of_new :
    (o : Option String) (v : String) (until t : ℕ) (s : Keys)
    → (put_new o "k1:lock" v until s).0 ≡ answered true
    → t < until
    → is_some (alive t ((put_new o "k1:lock" v until s).1 "k1:lock")) ≡ true
held_of_new none v until t s got soon = is_alive-until t until v soon
held_of_new (some held) v until t s got soon = absurd (cc)

-- What is there at one time and no more at another has ended in between.
later_than :
    (o : Option (String × ℕ)) (now t : ℕ)
    → alive now o ≡ none
    → is_some (alive t o) ≡ true
    → t < now
later_than none now t out there = absurd (cc)
later_than (some (v, last)) now t out there = ground arith

kept_by_new :
    (o : Option String) (v : String) (now more t : ℕ) (s : Keys)
    → alive now (s "k1:lock") ≡ o
    → is_some (alive t (s "k1:lock")) ≡ true
    → is_some (alive t ((put_new o "k1:lock" v (now + more) s).1 "k1:lock")) ≡ true
kept_by_new none v now more t s is held =
    let before = later_than (s "k1:lock") now t is held in
    is_alive-until t (now + more) v (omega arith)
kept_by_new (some other) v now more t s is held = held

abbrev guards : Guards server "k1"
guards = record {
  held = λ t s. is_some (alive t (s "k1:lock"));
  set_nx_free = λ now v ttl s got. free_of_new (alive now (s "k1:lock")) v (now + ttl * 1000) s got;
  set_nx_held = λ now v ttl s t got soon.
      held_of_new (alive now (s "k1:lock")) v (now + ttl * 1000) t s got soon;
  set_nx_keeps =
      λ now v ttl s t held. kept_by_new (alive now (s "k1:lock")) v now (ttl * 1000) t s refl held;
  set_ex_keeps = λ now v ttl s t held. held;
}

-- The second of two requests gets the lock; the first one reads, and does not get it 20 seconds
-- later.
abbrev no_shop : Shop Keys ℕ
no_shop = record { server = λ q. none; world = 0 }

abbrev locked_shop : Shop Keys ℕ
locked_shop = record { server = put "k1:lock" "LOCKED" 31000 (λ q. none); world = 0 }

abbrev asks : Phase Bool → ℕ → Contender Bool
asks phase since = record { phase = phase; since = since }

abbrev two_requests : Crowd Bool Keys ℕ
two_requests = record { requests = asks to_lock 0 ∷ asks to_lock 0 ∷ []; shop = no_shop; clock = 0 }

abbrev one_waits : Crowd Bool Keys ℕ
one_waits = record {
  requests = asks to_poll 21000 ∷ asks to_run 1000 ∷ [];
  shop = locked_shop;
  clock = 21000;
}

second_locks : Reaches server codec "k1" 86400 two_requests one_waits
unfolding take_turn after_lock since_after
second_locks = move (turn (asks to_lock 0 ∷ []) [] (asks to_lock 0) 0 1000 trigger no_shop) (
    move (turn [] (asks to_run 1000 ∷ []) (asks to_lock 0) 1000 21000 trigger locked_shop)
      (stay one_waits))

has_lock_once_example : count_of is_holder one_waits.requests ≤ 1
unfolding take_turn after_lock since_after second_locks
has_lock_once_example =
    has_lock_once server codec "k1" 86400 guards {c = two_requests} {d = one_waits} refl
      second_locks
      (
        ((λ h. absurd (cc)), ((λ h. omega arith), tt)),
        (((λ h. absurd (cc)), ((λ h. omega arith), tt)), tt),
      )

lock_overrun_example :
    let one = take_turn server codec "k1" 86400 1000 trigger to_lock no_shop in
    let two = take_turn server codec "k1" 86400 31000 trigger to_lock one.1 in
    let freed = take_turn server codec "k1" 86400 40000 trigger (to_release caught) two.1 in
    let three = take_turn server codec "k1" 86400 40000 trigger to_lock freed.1 in
    (one.0 ≡ to_run) × (two.0 ≡ to_run) × (three.0 ≡ to_run)
lock_overrun_example =
    lock_overrun server codec works "k1" 86400 1000 31000 40000 trigger trigger trigger caught
      no_shop refl (omega arith)
