-- ===== src/Workflows/Service.antt =====
-- The operations of `WorkflowService`.
use forge_gate.Base.{String, ◌||◌, Option, none, some, ◌=ₛ◌, if◌then◌else◌}
use forge_gate.Js.Json.{text, object, no_fields, field}
use forge_gate.Sanitize.{sanitize_audit_metadata}
use forge_gate.Auth.Policy.{
  UserContext, workflow_create, workflow_read, workflow_update, workflow_delete,
}
use forge_gate.Pagination.{PaginationQuery, PaginatedResult, parse_pagination_params}
use forge_gate.Pagination.Query.{page_of_rows}
use forge_gate.Workflows.{
  NewWorkflow, Workflow, UpdateWorkflowDto, AuditParams, Reply, done, forbidden, not_found,
  bad_request, Client, or_null, is_denied, subject_of, effective_tenant, effective_user, new_of,
  apply_update, tenant_of, is_of_tenant, audit_of_update, check_found,
}

module _ (c : Client) where
  -- `recordAuditLog`
  unfoldable pub record_audit_log : AuditParams → c.Db → c.Db
  record_audit_log p db =
      c.create_audit
        (record {
          tenant_id = or_null p.tenant_id;
          user_id = or_null p.user_id;
          action = p.action;
          metadata = sanitize_audit_metadata p.metadata;
        })
        db

  -- `createWorkflow` from the creation on.
  unfoldable pub insert_workflow : NewWorkflow → c.Db → Workflow × c.Db
  insert_workflow new db =
      let created = c.create new db in
      let metadata = field "workflowId" (text created.0.id) (
        field "name" (text created.0.name)
          (field "triggerType" (text created.0.trigger_type) no_fields)) in
      (
        created.0,
        record_audit_log
            (record {
              tenant_id = new.tenant_id;
              user_id = new.created_by_id;
              action = "workflow.created";
              metadata = object metadata;
            })
            created.1,
      )

  -- `createWorkflow`
  unfoldable pub create_workflow : NewWorkflow → Option UserContext → c.Db → Reply Workflow × c.Db
  create_workflow dto user db =
      let tenant_id = effective_tenant user dto.tenant_id in
      let created_by_id = effective_user user dto.created_by_id in
      if is_denied user workflow_create none
      then (forbidden, db)
      else if dto.name =ₛ ""
      then (bad_request, db)
      else if tenant_id =ₛ "" || created_by_id =ₛ ""
      then (bad_request, db)
      else let made = insert_workflow (new_of dto user) db in (done made.0, made.1)

  -- `getWorkflows` with a user, or without.
  unfoldable pub get_workflows :
      Option UserContext → PaginationQuery → c.Db → Reply (PaginatedResult Workflow)
  get_workflows user query db =
      if is_denied user workflow_read none
      then forbidden
      else done (
          page_of_rows c.workflows (λ wf. is_of_tenant (tenant_of user) (some wf.tenant_id))
            (parse_pagination_params query) db)

  unfoldable pub find_workflow : String → Option UserContext → c.Db → Option Workflow
  find_workflow id none db = c.find_unique id db
  find_workflow id (some user) db = c.find_first id user.tenant_id db

  -- `getWorkflowById`
  unfoldable pub get_workflow_by_id : String → Option UserContext → c.Db → Reply Workflow
  get_workflow_by_id id user db =
      if is_denied user workflow_read none
      then forbidden
      else check_found user (find_workflow id user db)

  -- `updateWorkflow` of the workflow that was found, or not.
  unfoldable pub update_found :
      Reply Workflow → UpdateWorkflowDto → Option UserContext → c.Db → Reply Workflow × c.Db
  unfolding audit_of_update
  update_found (done wf) dto user db =
      if is_denied user workflow_update (some (subject_of wf))
      then (forbidden, db)
      else let updated = c.update wf.id (apply_update dto wf) db in
        (done updated.0, record_audit_log (audit_of_update wf dto user) updated.1)
  update_found refused dto user db = (refused, db)

  -- `updateWorkflow`
  unfoldable pub update_workflow :
      String → UpdateWorkflowDto → Option UserContext → c.Db → Reply Workflow × c.Db
  update_workflow id dto user db = update_found (get_workflow_by_id id user db) dto user db

  unfoldable pub delete_found :
      Reply Workflow → String → Option UserContext → c.Db → Reply String × c.Db
  delete_found (done wf) id user db =
      if is_denied user workflow_delete (some (subject_of wf)) then (forbidden, db) else (
        done id,
        record_audit_log
            (record {
              tenant_id = wf.tenant_id;
              user_id = effective_user user wf.created_by_id;
              action = "workflow.deleted";
              metadata = object (field "workflowId" (text id) no_fields);
            })
            (c.remove wf.id db),
      )
  delete_found forbidden id user db = (forbidden, db)
  delete_found not_found id user db = (not_found, db)
  delete_found bad_request id user db = (bad_request, db)

  -- `deleteWorkflow`: the id of what was deleted.
  unfoldable pub delete_workflow : String → Option UserContext → c.Db → Reply String × c.Db
  delete_workflow id user db = delete_found (get_workflow_by_id id user db) id user db

  -- `getAuditLogs`
  unfoldable pub get_audit_logs :
      Option UserContext → PaginationQuery → c.Db → Reply (PaginatedResult c.AuditRow)
  get_audit_logs user query db =
      if is_denied user workflow_read none
      then forbidden
      else done (
          page_of_rows c.audit_logs (λ row. is_of_tenant (tenant_of user) (c.audit_tenant row))
            (parse_pagination_params query) db)
