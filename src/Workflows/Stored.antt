-- ===== src/Workflows/Stored.antt =====
-- The table of workflows, and the rows that a user is given.
use forge_gate.Base.{
  any, count_of, find, update_row, ◌≤◌, String, Bool, true, false, not, ◌&&◌, Option, none, some,
  List, [], ◌∷◌, map, filter, ◌≡◌, ◌≢◌, refl, sym, ap, ◌∙◌, ◌=ₛ◌, if◌then◌else◌, arith, Bool-cases,
  inl, inr, eq_iff,
}
use forge_gate.Auth.Policy.{UserContext}
use forge_gate.Workflows.{
  Workflow, NewWorkflow, UpdateWorkflowDto, AuditEntry, Reply, done, forbidden, not_found, Client,
  apply_update, check_found,
}
use forge_gate.Workflows.Service.{find_workflow, get_workflow_by_id}
use forge_gate.Base.Rows.{Apart, only_row}

-- The workflows of the other tenants.
abbrev pub of_others : String → List Workflow → List Workflow
of_others tenant_id ws = filter (λ w. not (w.tenant_id =ₛ tenant_id)) ws

-- The documented effect of the commands on the table of workflows.
pub record Stored (c : Client) : Type 0 where
  pub rows : c.Db → List Workflow
  pub find_first_lem :
      (id tenant_id : String) (db : c.Db)
      → c.find_first id tenant_id db ≡ find (λ w. w.id =ₛ id && w.tenant_id =ₛ tenant_id) (rows db)
  -- A new row stands somewhere among the others, with the tenant that it was given.
  pub create_lem :
      (new : NewWorkflow) (db : c.Db) (keep : Workflow → Bool)
      → keep (c.create new db).0 ≡ false
      → filter keep (rows (c.create new db).1) ≡ filter keep (rows db)
  pub create_tenant :
      (new : NewWorkflow) (db : c.Db) → (c.create new db).0.tenant_id ≡ new.tenant_id
  pub update_lem :
      (id : String) (f : Workflow → Workflow) (db : c.Db)
      → rows (c.update id f db).1 ≡ map (update_row (λ w. w.id =ₛ id) f) (rows db)
  pub delete_lem :
      (id : String) (db : c.Db) → rows (c.remove id db) ≡ filter (λ w. not (w.id =ₛ id)) (rows db)
  pub create_audit_lem : (a : AuditEntry) (db : c.Db) → rows (c.create_audit a db) ≡ rows db

found_id :
    (id tenant_id : String) (ws : List Workflow) (wf : Workflow)
    → find (λ w. w.id =ₛ id && w.tenant_id =ₛ tenant_id) ws ≡ some wf
    → (wf.id =ₛ id) ≡ true
found_id id tenant_id [] wf h = absurd (cc)
found_id id tenant_id (w ∷ ws) wf h = elim (Bool-cases (w.id =ₛ id && w.tenant_id =ₛ tenant_id)) [
  | inl here ↦ first_id here
  | inr other ↦ found_id id tenant_id ws wf (ground arith)
]
  where
    first_id : (w.id =ₛ id && w.tenant_id =ₛ tenant_id) ≡ true → (wf.id =ₛ id) ≡ true
    first_id here = ground arith

found_own :
    (id tenant_id : String) (ws : List Workflow) (wf : Workflow)
    → find (λ w. w.id =ₛ id && w.tenant_id =ₛ tenant_id) ws ≡ some wf
    → any (λ w. w.id =ₛ id && not (not (w.tenant_id =ₛ tenant_id))) ws ≡ true
found_own id tenant_id [] wf h = absurd (cc)
found_own id tenant_id (w ∷ ws) wf h = elim (Bool-cases (w.id =ₛ id && w.tenant_id =ₛ tenant_id)) [
  | inl here ↦ ground arith
  | inr other ↦ let there = found_own id tenant_id ws wf (ground arith) in ground arith
]

pub same_tenant :
    (dto : UpdateWorkflowDto) (wf row : Workflow)
    → (apply_update dto wf row).tenant_id ≡ row.tenant_id
unfolding apply_update
same_tenant dto wf row = refl

after_guard :
    (b : Bool) (refusal o : Reply Workflow) (wf : Workflow)
    → refusal ≢ done wf
    → (if b then refusal else o) ≡ done wf
    → o ≡ done wf
after_guard true refusal o wf bad h = absurd (bad h)
after_guard false refusal o wf bad h = h

done-injective : (v wf : Workflow) → Reply.done v ≡ done wf → v ≡ wf
done-injective v wf h = cc

check_found_done :
    (user : UserContext) (o : Option Workflow) (wf : Workflow)
    → check_found (some user) o ≡ done wf
    → o ≡ some wf
unfolding check_found
check_found_done user none wf h = absurd (cc)
check_found_done user (some v) wf h =
    ap some (done-injective v wf (after_guard _ not_found (done v) wf (λ e. cc) h))

module _ (c : Client) (s : Stored c) where
  -- What a user is given is a row of the table with the user's tenant.
  pub own_row :
      (id : String) (user : UserContext) (db : c.Db) (wf : Workflow)
      → get_workflow_by_id c id (some user) db ≡ done wf
      → find (λ w. w.id =ₛ id && w.tenant_id =ₛ user.tenant_id) (s.rows db) ≡ some wf
  unfolding get_workflow_by_id find_workflow
  own_row id user db wf got =
      sym (s.find_first_lem id user.tenant_id db)
      ∙ check_found_done user _ wf (after_guard _ forbidden _ wf (λ e. cc) got)

  pub own_row-Apart :
      (id : String) (user : UserContext) (db : c.Db) (wf : Workflow)
      → get_workflow_by_id c id (some user) db ≡ done wf
      → count_of (λ w. w.id =ₛ id) (s.rows db) ≤ 1
      → Apart (λ w. not (w.tenant_id =ₛ user.tenant_id)) (λ w. w.id =ₛ wf.id) (s.rows db)
  own_row-Apart id user db wf got single =
      let found = own_row id user db wf got in
      let same = (eq_iff wf.id id).0 (found_id id user.tenant_id (s.rows db) wf found) in
      rw same (
        only_row (λ w. not (w.tenant_id =ₛ user.tenant_id)) (λ w. w.id =ₛ id) (s.rows db) single
          (found_own id user.tenant_id (s.rows db) wf found))
