-- ===== src/Executions.antt =====
-- apps/workflow-service/src/execution/execution.service.ts. The database client and the queues are
-- parameters; the idempotency service is there, with a Redis client or without. A missing text is
-- the empty one: both are falsy. Rows stand without the rows that are included in them.
pub mod Trigger
mod Tests
use forge_gate.Base.{
  ℕ, String, ◌<>◌, Bool, true, false, not, ◌&&◌, ◌||◌, Option, none, some, List, [], ◌∷◌, ◌≡◌, ◌≢◌,
  ◌=ₛ◌, if◌then◌else◌,
}
use forge_gate.Js.Text.{or_text}
use forge_gate.Js.Json.{or_json, Json, object, no_fields}
use forge_gate.Auth.Policy.{UserContext, workflow_execute, execution_read, ResourceSubject}
use forge_gate.Pagination.{PaginationQuery, PaginatedResult, parse_pagination_params}
use forge_gate.Pagination.Query.{Table, page_of_rows}
use forge_gate.Idempotency.{IdempotencyRecord, Outcome, Done, gave, failed, outcome_of}
use forge_gate.Idempotency.Redis.{Commands, Codec, Sight, Shared, process_idempotent_operation}
use forge_gate.Queue.{Bull, add_execution_job}
use forge_gate.Workflows.{
  Workflow, Reply, done, forbidden, not_found, bad_request, is_denied, subject_of, is_of_tenant,
  tenant_of,
}

pub record TriggerExecutionDto : Type 0 where
  pub tenant_id : String
  pub metadata : Json

pub record NewExecution : Type 0 where
  pub workflow_id : String
  pub tenant_id : String
  pub status : String
  pub metadata : Json

pub record ExecutionRow : Type 0 where
  pub id : String
  pub workflow_id : String
  pub tenant_id : String
  pub status : String

-- What `triggerWorkflow` gives; the job's status is always the same.
pub record Triggered : Type 0 where
  pub execution_id : String
  pub status : String
  pub job_id : String

pub record ExecutionFilter : Type 0 where
  pub workflow_id : String
  pub status : String

pub record Client : Type 1 where
  pub Db : Type 0
  pub LogRow : Type 0
  pub log_execution : LogRow → String
  -- `workflow.findFirst` by id and tenant.
  pub find_workflow : (id tenant_id : String) → Db → Option Workflow
  pub create_execution : NewExecution → Db → ExecutionRow × Db
  pub find_execution : String → Db → Option ExecutionRow
  pub executions : Table Db ExecutionRow
  pub logs : Table Db LogRow

-- The documented effect of `workflowExecution.create`: the row that is given back has the fields that
-- were asked for, it is found under its id, and the rows under other ids stay as they are.
pub record Creates (c : Client) : Type 0 where
  pub created :
      (new : NewExecution) (db : c.Db)
      → (c.create_execution new db).0 ≡ record {
        id = (c.create_execution new db).0.id;
        workflow_id = new.workflow_id;
        tenant_id = new.tenant_id;
        status = new.status;
      }
  pub find_created :
      (new : NewExecution) (db : c.Db)
      → let out = c.create_execution new db in c.find_execution out.0.id out.1 ≡ some out.0
  pub find_others :
      (new : NewExecution) (db : c.Db) (id : String)
      → id ≢ (c.create_execution new db).0.id
      → c.find_execution id (c.create_execution new db).1 ≡ c.find_execution id db

-- `user?.tenantId || dto.tenantId || d`
unfoldable pub tenant_or : Option UserContext → String → String → String
tenant_or none tenant_id d = or_text tenant_id d
tenant_or (some user) tenant_id d = or_text user.tenant_id (or_text tenant_id d)

role_of : Option UserContext → String
role_of none = ""
role_of (some user) = user.role

-- An execution as the policy sees it: it names no creator.
abbrev execution_subject : ExecutionRow → ResourceSubject
execution_subject e = record { tenant_id = e.tenant_id; created_by_id = "" }

-- Whether a user is refused an execution.
unfoldable pub is_hidden : Option UserContext → ExecutionRow → Bool
is_hidden none e = false
is_hidden (some user) e =
    not (e.tenant_id =ₛ user.tenant_id)
    || is_denied (some user) execution_read (some (execution_subject e))

abbrev matches : String → String → Bool
matches asked s = if asked =ₛ "" then true else s =ₛ asked

-- The `where` of `getExecutions`.
unfoldable pub is_asked_for : Option UserContext → ExecutionFilter → ExecutionRow → Bool
is_asked_for user f e =
    is_of_tenant (tenant_of user) (some e.tenant_id)
    && matches f.workflow_id e.workflow_id
    && matches f.status e.status

module _ (c : Client) (b : Bull) where
  -- The database and the queues.
  abbrev pub World : Type 0
  World = c.Db × b.Queues

  -- What follows the check of the workflow.
  unfoldable pub start_execution :
      Workflow → TriggerExecutionDto → Option UserContext → World → Triggered × World
  start_execution wf dto user (db, q) =
      let tenant_id = tenant_or user dto.tenant_id wf.tenant_id in
      let created =
        c.create_execution
          (record {
            workflow_id = wf.id;
            tenant_id = tenant_id;
            status = "pending";
            metadata = or_json dto.metadata (object no_fields);
          })
          db in
      let queued = add_execution_job b created.0.id tenant_id none q in
      (
        record { execution_id = created.0.id; status = created.0.status; job_id = queued.0.job_id },
        (created.1, queued.1),
      )

  -- What follows the policy's answer, whether the user is refused.
  unfoldable pub execute_checked :
      Bool → Workflow → TriggerExecutionDto → Option UserContext → World → Done Triggered × World
  unfolding role_of
  execute_checked true wf dto user w =
      (failed ("Role '" <> role_of user <> "' is not authorized to trigger workflow execution"), w)
  execute_checked false wf dto user w =
      let started = start_execution wf dto user w in (gave (some started.0), started.1)

  -- What follows the lookup of the workflow.
  unfoldable pub execute_found :
      Option Workflow → TriggerExecutionDto → Option UserContext → World → Done Triggered × World
  execute_found none dto user w = (failed "Workflow not found", w)
  execute_found (some wf) dto user w =
      execute_checked (is_denied user workflow_execute (some (subject_of wf))) wf dto user w

  -- `executeOperation`
  unfoldable pub execute_operation :
      String → TriggerExecutionDto → Option UserContext → World → Done Triggered × World
  execute_operation id dto user w =
      execute_found (c.find_workflow id (tenant_or user dto.tenant_id "default") w.0) dto user w

  -- `triggerWorkflow`; `sights` and `seen` are what the polls of the idempotency service see.
  unfoldable pub trigger_workflow :
      {Server : Type 0}
      → Option (Commands Server)
      → Codec Triggered
      → String
      → TriggerExecutionDto
      → Option UserContext
      → (key : String) → (now : ℕ) → List Sight
      → List (Option (IdempotencyRecord Triggered))
      → Shared Triggered World Server
      → Outcome Triggered × Shared Triggered World Server
  trigger_workflow redis codec id dto user key now sights seen st =
      let operation = execute_operation id dto user in
      let ran = operation st.memory.world in
      elim (key =ₛ "") [
        | true ↦ (outcome_of ran, record st { memory = record st.memory { world = ran.1 } })
        | false ↦
            process_idempotent_operation redis codec (tenant_or user dto.tenant_id "default")
              ("trigger:" <> id) (some key) 86400 now sights seen operation st
      ]

  -- `getExecution`
  unfoldable pub get_execution : String → Option UserContext → c.Db → Reply ExecutionRow
  get_execution id user db = elim (c.find_execution id db) [
    | none ↦ not_found
    | some e ↦ if is_hidden user e then not_found else done e
  ]

  -- `getExecutions`
  unfoldable pub get_executions :
      Option UserContext
      → ExecutionFilter
      → PaginationQuery
      → c.Db
      → Reply (PaginatedResult ExecutionRow)
  get_executions user f query db =
      if is_denied user execution_read none
      then forbidden
      else done (page_of_rows c.executions (is_asked_for user f) (parse_pagination_params query) db)

  -- `getExecutionLogs`
  unfoldable pub get_execution_logs :
      String → Option UserContext → PaginationQuery → c.Db → Reply (PaginatedResult c.LogRow)
  get_execution_logs id user query db = elim (get_execution id user db) [
    | done e ↦
        done
          (page_of_rows c.logs (λ l. c.log_execution l =ₛ e.id) (parse_pagination_params query) db)
    | forbidden ↦ forbidden
    | not_found ↦ not_found
    | bad_request ↦ bad_request
  ]
