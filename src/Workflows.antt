-- ===== src/Workflows.antt =====
-- apps/workflow-service/src/workflow/workflow.service.ts. The database client is a parameter, with
-- the commands that the service uses; `auditLog` is there. A missing text of a request is the empty
-- one where the code only asks whether it is there, and a row stands without its counts and runs.
pub mod Service
pub mod Stored
pub mod Isolation
mod Tests
use forge_gate.Base.{
  ℕ, zero, suc, ◌+◌, String, ◌<>◌, Bool, true, false, not, ◌&&◌, ◌||◌, Option, none, some,
  or_default, List, [], ◌∷◌, ◌==◌, ◌=ₛ◌, if◌then◌else◌,
}
use forge_gate.Js.Text.{or_text}
use forge_gate.Js.Json.{or_json, Json, undefined, text, object, Fields, no_fields, field}
use forge_gate.Sanitize.{sanitize_audit_metadata}
use forge_gate.Auth.Policy.{
  UserContext, AuthorizationAction, workflow_create, workflow_read, workflow_update,
  workflow_delete, ResourceSubject, can,
}
use forge_gate.Pagination.{PaginationQuery, PaginatedResult, parse_pagination_params}
use forge_gate.Pagination.Query.{Table, page_of_rows}

pub record WorkflowStep : Type 0 where
  pub step_order : ℕ
  pub action_type : String
  pub config : Json
  pub retry_limit : ℕ

pub record NewWorkflow : Type 0 where
  pub name : String
  pub description : Option String
  pub trigger_type : String
  pub created_by_id : String
  pub tenant_id : String
  pub steps : List WorkflowStep

pub record Workflow : Type 0 where
  pub id : String
  pub name : String
  pub description : Option String
  pub trigger_type : String
  pub created_by_id : String
  pub tenant_id : String
  pub steps : List WorkflowStep

-- The fields of a request to change a workflow, and the whole of it for the audit log.
pub record UpdateWorkflowDto : Type 0 where
  pub name : Option String
  pub description : Option String
  pub trigger_type : Option String
  pub whole : Json

pub record AuditParams : Type 0 where
  pub tenant_id : String
  pub user_id : String
  pub action : String
  pub metadata : Json

pub record AuditEntry : Type 0 where
  pub tenant_id : Option String
  pub user_id : Option String
  pub action : String
  pub metadata : Option Json

-- What an operation gives, or the exception that it throws.
pub data Reply {ℓ} (A : Type ℓ) : Type ℓ where
  done : A → Reply A
  forbidden not_found bad_request : Reply A

pub record Client : Type 1 where
  pub Db : Type 0
  pub AuditRow : Type 0
  pub audit_tenant : AuditRow → Option String
  -- In the order of the listings: the last created first.
  pub workflows : Table Db Workflow
  pub audit_logs : Table Db AuditRow
  pub create : NewWorkflow → Db → Workflow × Db
  -- `findFirst` by id and tenant, and `findUnique` by id.
  pub find_first : (id tenant_id : String) → Db → Option Workflow
  pub find_unique : String → Db → Option Workflow
  -- By id.
  pub update : String → (Workflow → Workflow) → Db → Workflow × Db
  pub remove : String → Db → Db
  pub create_audit : AuditEntry → Db → Db

abbrev or_null : String → Option String
or_null s = if s =ₛ "" then none else some s

-- `user && !AuthorizationPolicy.can(user, action, resource)`
unfoldable pub is_denied : Option UserContext → AuthorizationAction → Option ResourceSubject → Bool
is_denied none action resource = false
is_denied (some user) action resource = not (can user action resource)

abbrev pub subject_of : Workflow → ResourceSubject
subject_of wf = record { tenant_id = wf.tenant_id; created_by_id = wf.created_by_id }

-- `user?.tenantId || tenantId`, and `user?.id || createdById`.
unfoldable pub effective_tenant : Option UserContext → String → String
effective_tenant none tenant_id = tenant_id
effective_tenant (some user) tenant_id = or_text user.tenant_id tenant_id

unfoldable pub effective_user : Option UserContext → String → String
effective_user none user_id = user_id
effective_user (some user) user_id = or_text user.id user_id

-- The steps of a new workflow, numbered from 1 where they have no number.
unfoldable pub new_steps : ℕ → List WorkflowStep → List WorkflowStep
new_steps idx [] = []
new_steps idx (s ∷ rest) =
    record {
      step_order = if s.step_order == 0 then idx + 1 else s.step_order;
      action_type = or_text s.action_type "http_request";
      config = or_json s.config (object no_fields);
      retry_limit = if s.retry_limit == 0 then 3 else s.retry_limit;
    }
    ∷ new_steps (suc idx) rest

-- The row that a request to create a workflow asks for.
unfoldable pub new_of : NewWorkflow → Option UserContext → NewWorkflow
unfolding new_steps
new_of dto user = record {
  name = dto.name;
  description = dto.description;
  trigger_type = or_text dto.trigger_type "webhook";
  created_by_id = effective_user user dto.created_by_id;
  tenant_id = effective_tenant user dto.tenant_id;
  steps = new_steps 0 dto.steps;
}

-- `dto.name ?? wf.name`, and so on.
unfoldable pub apply_update : UpdateWorkflowDto → Workflow → Workflow → Workflow
apply_update dto wf row = record row {
  name = or_default dto.name wf.name;
  description = some_or dto.description wf.description;
  trigger_type = or_default dto.trigger_type wf.trigger_type;
}
  where
    some_or : Option String → Option String → Option String
    some_or none d = d
    some_or (some s) d = some s

-- `userCtx?.tenantId`
abbrev pub tenant_of : Option UserContext → Option String
tenant_of none = none
tenant_of (some user) = some user.tenant_id

-- `tenantId ? { tenantId } : {}`, as a test on the tenant of a row.
unfoldable pub is_of_tenant : Option String → Option String → Bool
is_of_tenant none tenant_id = true
is_of_tenant (some t) none = t =ₛ ""
is_of_tenant (some t) (some tenant_id) = if t =ₛ "" then true else tenant_id =ₛ t

audit_of_update : Workflow → UpdateWorkflowDto → Option UserContext → AuditParams
audit_of_update wf dto user = record {
  tenant_id = wf.tenant_id;
  user_id = effective_user user wf.created_by_id;
  action = "workflow.updated";
  metadata = object (field "workflowId" (text wf.id) (field "updatedFields" dto.whole no_fields));
}

-- What `getWorkflowById` makes of the row that it found.
unfoldable pub check_found : Option UserContext → Option Workflow → Reply Workflow
check_found user none = not_found
check_found none (some wf) = done wf
check_found (some user) (some wf) =
    if not (wf.tenant_id =ₛ user.tenant_id)
      || is_denied (some user) workflow_read (some (subject_of wf))
    then not_found
    else done wf
