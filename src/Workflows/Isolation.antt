-- ===== src/Workflows/Isolation.antt =====
-- What users do changes no workflow of another tenant.
use forge_gate.Base.{
  count_of, ◌≤◌, String, false, not, ◌||◌, none, some, ◌≡◌, refl, ap, ◌∙◌, ◌=ₛ◌, arith, Bool-cases,
  inl, inr, eq_refl,
}
use forge_gate.Auth.Policy.{UserContext, workflow_create, workflow_update, workflow_delete, can}
use forge_gate.Workflows.{
  Workflow, NewWorkflow, UpdateWorkflowDto, AuditParams, Reply, done, forbidden, not_found,
  bad_request, Client, is_denied, effective_tenant, effective_user, new_of, subject_of,
  apply_update,
}
use forge_gate.Workflows.Service.{
  record_audit_log, insert_workflow, create_workflow, update_found, update_workflow, delete_found,
  delete_workflow,
}
use forge_gate.Base.Rows.{Apart, filter-removed, filter-updated}
use forge_gate.Workflows.Stored.{of_others, Stored, own_row-Apart, same_tenant}

-- A change that a user asks for.
pub data Change : Type 0 where
  creates : NewWorkflow → Change
  updates : String → UpdateWorkflowDto → Change
  deletes : String → Change

-- The name that a change gives.
abbrev pub target : Change → String
target (creates dto) = ""
target (updates id dto) = id
target (deletes id) = id

module _ (c : Client) where
  pub make_change : UserContext → Change → c.Db → c.Db
  make_change user (creates dto) db = (create_workflow c dto (some user) db).1
  make_change user (updates id dto) db = (update_workflow c id dto (some user) db).1
  make_change user (deletes id) db = (delete_workflow c id (some user) db).1

effective_own :
    (user : UserContext) (tenant_id : String)
    → is_denied (some user) workflow_create none ≡ false
    → effective_tenant (some user) tenant_id ≡ user.tenant_id
unfolding is_denied can effective_tenant
effective_own user tenant_id may = elim (Bool-cases (user.tenant_id =ₛ "")) [
  | inl empty ↦ absurd (ground arith)
  | inr there ↦ rw there refl
]

new_tenant :
    (dto : NewWorkflow) (user : UserContext)
    → (new_of dto (some user)).tenant_id ≡ effective_tenant (some user) dto.tenant_id
unfolding new_of
new_tenant dto user = refl

module _ (c : Client) (s : Stored c) where
  audited : (p : AuditParams) (db : c.Db) → s.rows (record_audit_log c p db) ≡ s.rows db
  unfolding record_audit_log
  audited p db = s.create_audit_lem _ db

  -- The workflows of the other tenants are the same in both databases.
  abbrev KeepsOthers : UserContext → c.Db → c.Db → Type 0
  KeepsOthers user db db' =
      of_others user.tenant_id (s.rows db') ≡ of_others user.tenant_id (s.rows db)

  delete_found-KeepsOthers :
      (o : Reply Workflow) (id : String) (user : UserContext) (db : c.Db)
      → ((wf : Workflow)
          → o ≡ done wf
          → Apart (λ w. not (w.tenant_id =ₛ user.tenant_id)) (λ w. w.id =ₛ wf.id) (s.rows db))
      → KeepsOthers user db (delete_found c o id (some user) db).1
  unfolding delete_found
  delete_found-KeepsOthers forbidden id user db own = refl
  delete_found-KeepsOthers not_found id user db own = refl
  delete_found-KeepsOthers bad_request id user db own = refl
  delete_found-KeepsOthers (done wf) id user db own =
      elim (Bool-cases (is_denied (some user) workflow_delete (some (subject_of wf)))) [
        | inl denied ↦ rw (denied, delete_found) refl
        | inr may ↦
            rw (may, delete_found)
              (ap (of_others user.tenant_id) (audited _ _ ∙ s.delete_lem wf.id db)
                ∙ filter-removed _ (λ w. w.id =ₛ wf.id) (s.rows db) (own wf refl))
      ]

  update_found-KeepsOthers :
      (o : Reply Workflow) (dto : UpdateWorkflowDto) (user : UserContext) (db : c.Db)
      → ((wf : Workflow)
          → o ≡ done wf
          → Apart (λ w. not (w.tenant_id =ₛ user.tenant_id)) (λ w. w.id =ₛ wf.id) (s.rows db))
      → KeepsOthers user db (update_found c o dto (some user) db).1
  unfolding update_found
  update_found-KeepsOthers forbidden dto user db own = refl
  update_found-KeepsOthers not_found dto user db own = refl
  update_found-KeepsOthers bad_request dto user db own = refl
  update_found-KeepsOthers (done wf) dto user db own =
      elim (Bool-cases (is_denied (some user) workflow_update (some (subject_of wf)))) [
        | inl denied ↦ rw (denied, update_found) refl
        | inr may ↦
            rw (may, update_found)
              (ap (of_others user.tenant_id) (audited _ _ ∙ s.update_lem wf.id _ db)
                ∙ filter-updated _ (λ w. w.id =ₛ wf.id) (apply_update dto wf) (s.rows db)
                    (λ x. ap (λ t. not (t =ₛ user.tenant_id)) (same_tenant dto wf x)) (own wf refl))
      ]

  insert-KeepsOthers :
      (new : NewWorkflow) (user : UserContext) (db : c.Db)
      → new.tenant_id ≡ user.tenant_id
      → KeepsOthers user db (insert_workflow c new db).1
  unfolding insert_workflow
  insert-KeepsOthers new user db own =
      ap (of_others user.tenant_id) (audited _ _)
      ∙ s.create_lem new db (λ w. not (w.tenant_id =ₛ user.tenant_id))
          (ap (λ t. not (t =ₛ user.tenant_id)) (s.create_tenant new db ∙ own)
            ∙ ap not (eq_refl user.tenant_id))

  create-KeepsOthers :
      (dto : NewWorkflow) (user : UserContext) (db : c.Db)
      → KeepsOthers user db (create_workflow c dto (some user) db).1
  unfolding create_workflow
  create-KeepsOthers dto user db =
      let tenant = effective_tenant (some user) dto.tenant_id in
      let author = effective_user (some user) dto.created_by_id in
      elim (Bool-cases (is_denied (some user) workflow_create none)) [
        | inl denied ↦ rw (denied, create_workflow) refl
        | inr may ↦
            rw (may, create_workflow)
              (elim (Bool-cases (dto.name =ₛ "")) [
                | inl unnamed ↦ rw unnamed refl
                | inr named ↦ rw named (elim (Bool-cases (tenant =ₛ "" || author =ₛ "")) [
                  | inl absent ↦ rw absent refl
                  | inr there ↦ rw there (
                      insert-KeepsOthers (new_of dto (some user)) user db
                        (new_tenant dto user ∙ effective_own user dto.tenant_id may))
                ])
              ])
      ]

  -- Whatever change a user asks for, and whether or not it is refused, the workflows of the other
  -- tenants stay the same, in their order, where the name that is given belongs to one row at most.
  pub make_change-others :
      (user : UserContext) (change : Change) (db : c.Db)
      → count_of (λ w. w.id =ₛ target change) (s.rows db) ≤ 1
      → of_others user.tenant_id (s.rows (make_change c user change db))
        ≡ of_others user.tenant_id (s.rows db)
  unfolding make_change update_workflow delete_workflow
  make_change-others user (creates dto) db single = create-KeepsOthers dto user db
  make_change-others user (updates id dto) db single =
      update_found-KeepsOthers _ dto user db (λ wf got. own_row-Apart c s id user db wf got single)
  make_change-others user (deletes id) db single =
      delete_found-KeepsOthers _ id user db (λ wf got. own_row-Apart c s id user db wf got single)
