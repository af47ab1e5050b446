-- ===== src/Engine/Memory.antt =====
-- A database in memory, which shows that the laws of the database can hold.
use forge_gate.Base.{
  any, count_of, update_row, take, filter, String, Bool, ◌&&◌, Option, none, some, is_some, List,
  [], ◌∷◌, map, ◌≡◌, refl, ◌=ₛ◌, if◌then◌else◌, length, Bool-cases, inl, inr,
}
use forge_gate.Js.Decimal.{show}
use forge_gate.Js.Json.{undefined, null}
use forge_gate.Engine.Database.{
  step_pending, Execution, Step, Loaded, StepExecution, NewStep, Prisma, Tables,
}

pub record MemoryDb : Type 0 where
  pub executions : List Execution
  pub step_executions : List StepExecution

-- Every workflow has these steps.
abbrev pub two_steps : List Step
two_steps =
    record { id = "s1"; step_order = 1; action_type = "http_request"; config = null }
    ∷ record { id = "s2"; step_order = 2; action_type = "http_request"; config = null }
    ∷ []

unfoldable pub find_row {ℓ} : {A : Type ℓ} → (A → Bool) → List A → Option A
find_row q [] = none
find_row q (x ∷ xs) = let rest = find_row q xs in if q x then some x else rest

unfoldable pub load : String → String → List Execution → Option Loaded
load id tenant_id [] = none
load id tenant_id (e ∷ es) =
    let rest = load id tenant_id es in
    if e.id =ₛ id && e.tenant_id =ₛ tenant_id
    then some (record { execution = e; steps = two_steps; created_by_id = none })
    else rest

abbrev pub new_row : String → NewStep → StepExecution
new_row id n = record {
  id = id;
  execution_id = n.execution_id;
  step_id = n.step_id;
  attempt = n.attempt;
  status = step_pending;
  input = n.input;
  output = undefined;
  error = none;
  worker_id = n.worker_id;
  started_at = none;
  heartbeat_at = none;
  finished_at = none;
  version = 0;
}

abbrev pub create : NewStep → MemoryDb → StepExecution × MemoryDb
create n db =
    let row = new_row (show (length db.step_executions)) n in
    (row, record db { step_executions = row ∷ db.step_executions })

abbrev pub memory : Prisma
memory = record {
  Db = MemoryDb;
  find_execution = λ id tenant_id db. load id tenant_id db.executions;
  update_executions = λ q f db.
      (count_of q db.executions, record db { executions = map (update_row q f) db.executions });
  update_steps = λ q f db. (
    count_of q db.step_executions,
    record db { step_executions = map (update_row q f) db.step_executions },
  );
  find_step = λ q db. find_row q db.step_executions;
  find_by_id = λ id db. find_row (λ e. e.id =ₛ id) db.executions;
  find_steps = λ q n db.
      map (λ s. (s, find_row (λ e. e.id =ₛ s.execution_id) db.executions))
        (take n (filter q db.step_executions));
  create_step = create;
  create_log = λ l db. db;
  create_audit = λ a db. db;
}

pub is_some-find_row :
    (q : StepExecution → Bool) (xs : List StepExecution) → is_some (find_row q xs) ≡ any q xs
unfolding find_row
is_some-find_row q [] = refl
is_some-find_row q (x ∷ xs) = elim (Bool-cases (q x)) [
  | inl h ↦ rw h refl
  | inr h ↦ rw h (is_some-find_row q xs)
]

abbrev pub memory_tables : Tables memory
memory_tables = record {
  executions = λ db. db.executions;
  step_executions = λ db. db.step_executions;
  update_executions_lem = λ q f db. (refl, refl, refl);
  update_steps_lem = λ q f db. (refl, refl, refl);
  find_step_lem = λ q db. is_some-find_row q db.step_executions;
  create_step_lem = λ n db. (refl, refl);
  create_log_lem = λ l db. (refl, refl);
  create_audit_lem = λ a db. (refl, refl);
}
