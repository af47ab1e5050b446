-- ===== src/Engine/Database.antt =====
-- The tables that the engine uses, and the database client, which is not code of the repository.
use forge_gate.Base.{
  any, count_of, update_row, ℕ, String, Bool, Option, is_some, List, ◌∷◌, map, ◌≡◌,
}
use forge_gate.Js.Json.{Json}

pub data ExecutionStatus : Type 0 where
  pending running retrying completed failed : ExecutionStatus

pub data StepStatus : Type 0 where
  step_pending step_running step_succeeded step_failed step_timed_out : StepStatus

pub record Execution : Type 0 where
  pub id : String
  pub tenant_id : String
  pub workflow_id : String
  pub status : ExecutionStatus
  pub current_step : ℕ
  pub metadata : Json
  pub started_at : Option ℕ
  pub completed_at : Option ℕ
  pub version : ℕ

pub record Step : Type 0 where
  pub id : String
  pub step_order : ℕ
  pub action_type : String
  pub config : Json

-- An execution with the steps of its workflow, in their order, and the workflow's creator.
pub record Loaded : Type 0 where
  pub execution : Execution
  pub steps : List Step
  pub created_by_id : Option String

pub record StepExecution : Type 0 where
  pub id : String
  pub execution_id : String
  pub step_id : String
  pub attempt : ℕ
  pub status : StepStatus
  pub input : Json
  pub output : Json
  pub error : Option String
  pub worker_id : String
  pub started_at : Option ℕ
  pub heartbeat_at : Option ℕ
  pub finished_at : Option ℕ
  pub version : ℕ

-- What a step execution is created with; its status is PENDING.
pub record NewStep : Type 0 where
  pub execution_id : String
  pub step_id : String
  pub attempt : ℕ
  pub input : Json
  pub worker_id : String

pub record ExecutionLog : Type 0 where
  pub execution_id : String
  pub step_id : Option String
  pub status : String
  pub output : Json
  pub error : Option String

pub record AuditLog : Type 0 where
  pub tenant_id : String
  pub user_id : Option String
  pub action : String
  pub correlation_id : Option String

pub record Prisma : Type 1 where
  pub Db : Type 0
  -- `workflowExecution.findFirst` by id and tenant, with the workflow and its steps.
  pub find_execution : (id tenant_id : String) → Db → Option Loaded
  -- `updateMany`: the number of rows that the filter accepts, which are updated.
  pub update_executions : (Execution → Bool) → (Execution → Execution) → Db → ℕ × Db
  pub update_steps : (StepExecution → Bool) → (StepExecution → StepExecution) → Db → ℕ × Db
  pub find_step : (StepExecution → Bool) → Db → Option StepExecution
  -- `workflowExecution.findUnique` by id.
  pub find_by_id : String → Db → Option Execution
  -- `findMany` of at most so many step executions, each with its execution.
  pub find_steps : (StepExecution → Bool) → ℕ → Db → List (StepExecution × Option Execution)
  pub create_step : NewStep → Db → StepExecution × Db
  pub create_log : ExecutionLog → Db → Db
  pub create_audit : AuditLog → Db → Db

-- The documented effect of the commands on the two tables.
pub record Tables (p : Prisma) : Type 0 where
  pub executions : p.Db → List Execution
  pub step_executions : p.Db → List StepExecution
  pub update_executions_lem :
      (q : Execution → Bool) (f : Execution → Execution) (db : p.Db)
      → ((p.update_executions q f db).0 ≡ count_of q (executions db))
        × (executions (p.update_executions q f db).1 ≡ map (update_row q f) (executions db))
        × (step_executions (p.update_executions q f db).1 ≡ step_executions db)
  pub update_steps_lem :
      (q : StepExecution → Bool) (f : StepExecution → StepExecution) (db : p.Db)
      → ((p.update_steps q f db).0 ≡ count_of q (step_executions db))
        × (executions (p.update_steps q f db).1 ≡ executions db)
        × (step_executions (p.update_steps q f db).1 ≡ map (update_row q f) (step_executions db))
  pub find_step_lem :
      (q : StepExecution → Bool) (db : p.Db)
      → is_some (p.find_step q db) ≡ any q (step_executions db)
  pub create_step_lem :
      (n : NewStep) (db : p.Db)
      → (executions (p.create_step n db).1 ≡ executions db)
        × (step_executions (p.create_step n db).1 ≡ (p.create_step n db).0 ∷ step_executions db)
  pub create_log_lem :
      (l : ExecutionLog) (db : p.Db)
      → (executions (p.create_log l db) ≡ executions db)
        × (step_executions (p.create_log l db) ≡ step_executions db)
  pub create_audit_lem :
      (a : AuditLog) (db : p.Db)
      → (executions (p.create_audit a db) ≡ executions db)
        × (step_executions (p.create_audit a db) ≡ step_executions db)
