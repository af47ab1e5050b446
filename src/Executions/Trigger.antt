-- ===== src/Executions/Trigger.antt =====
-- What a trigger does, once and twice.
use forge_gate.Base.{
  ℕ, String, ◌<>◌, Bool, true, false, not, Option, none, some, [], ◌∷◌, ◌≡◌, ◌≢◌, ◌+◌, ◌*◌, ◌<◌,
  arith, refl, sym, ap, ◌∙◌, ◌⊎◌, ◌=ₛ◌, Bool-cases, inl, inr, eq_iff,
}
use forge_gate.Js.Text.{trim, trim_start, trim_end}
use forge_gate.Js.Json.{object, no_fields, or_json}
use forge_gate.Auth.Policy.{UserContext, workflow_execute, can}
use forge_gate.Idempotency.{returned, Done, gave, failed, storage_key}
use forge_gate.Idempotency.Redis.{
  Commands, Codec, Shared, process_under, process_idempotent_operation,
}
use forge_gate.Idempotency.Works.{Works, IsLockFree}
use forge_gate.Idempotency.Held.{Holds}
use forge_gate.Idempotency.OnRedis.{process_under_again}
use forge_gate.Queue.{first_data, Bull, Jobs, enqueue_workflow_execution, add_execution_job}
use forge_gate.Workflows.{Workflow, is_denied, subject_of}
use forge_gate.Executions.{
  TriggerExecutionDto, NewExecution, Triggered, Client, Creates, World, tenant_or, start_execution,
  execute_checked, execute_found, execute_operation, trigger_workflow,
}

-- A key that is more than white space is there.
key_there : (key : String) → (trim key =ₛ "") ≡ false → (key =ₛ "") ≡ false
unfolding trim trim_start trim_end
key_there key stated = elim (Bool-cases (key =ₛ "")) [
  | inl empty ↦
      let blank = sym stated ∙ ap (λ k. trim k =ₛ "") ((eq_iff key "").0 empty) in absurd (cc)
  | inr there ↦ there
]

module _ (c : Client) (b : Bull) where
  -- With a key, a trigger is the call of the idempotency service under the key.
  keyed :
      {Server : Type 0} (redis : Option (Commands Server)) (codec : Codec Triggered) (id : String)
      (dto : TriggerExecutionDto) (user : Option UserContext) (key : String) (now : ℕ)
      (st : Shared Triggered (World c b) Server)
      → (trim key =ₛ "") ≡ false
      → trigger_workflow c b redis codec id dto user key now [] [] st
        ≡ process_under redis codec
            (storage_key (tenant_or user dto.tenant_id "default") ("trigger:" <> id) key)
            86400
            now
            []
            []
            (execute_operation c b id dto user)
            st
  unfolding trigger_workflow process_idempotent_operation
  keyed redis codec id dto user key now st stated =
      let there = key_there key stated in
      rw (there, trigger_workflow)
        (rw (there, process_idempotent_operation)
          (rw (stated, process_idempotent_operation) (rw there refl)))

  -- On a Redis that works, where the key of a trigger is not the lock of another, where no result is
  -- kept under it, and where the trigger starts an execution, another trigger of the workflow with
  -- the same key and for the same tenant, made less than 24 hours later, gives the same execution,
  -- and leaves the database and the queues as they are.
  pub trigger_workflow_again :
      {Server : Type 0} (redis : ℕ → Commands Server) (codec : Codec Triggered)
      (works : Works redis codec) (names : String → Bool) (id : String)
      (dto dto' : TriggerExecutionDto) (user user' : Option UserContext) (key : String)
      (now later : ℕ) (st : Shared Triggered (World c b) Server) (f : ℕ → String → Option Triggered)
      (t : Triggered)
      → (trim key =ₛ "") ≡ false
      → tenant_or user' dto'.tenant_id "default" ≡ tenant_or user dto.tenant_id "default"
      → IsLockFree names
      → names (storage_key (tenant_or user dto.tenant_id "default") ("trigger:" <> id) key) ≡ true
      → f now (storage_key (tenant_or user dto.tenant_id "default") ("trigger:" <> id) key) ≡ none
      → Holds redis codec works names st.server f
      → (execute_operation c b id dto user st.memory.world).0 ≡ gave (some t)
      → later < now + 86400 * 1000
      → let one = trigger_workflow c b (some (redis now)) codec id dto user key now [] [] st in
        let two =
          trigger_workflow c b (some (redis later)) codec id dto' user' key later [] [] one.1 in
        (one.0 ≡ returned (some t))
        × (two.0 ≡ returned (some t))
        × (one.1.memory.world ≡ (execute_operation c b id dto user st.memory.world).1)
        × (two.1.memory.world ≡ one.1.memory.world)
  trigger_workflow_again redis codec works names id dto dto' user user' key now later st f t stated
        same free named new holds gives soon =
      rw (keyed (some (redis now)) codec id dto user key now st stated) (
        rw (keyed (some (redis later)) codec id dto' user' key later _ stated) (
          rw same (
            process_under_again redis codec works names _ 86400 now later
              (execute_operation c b id dto user) (execute_operation c b id dto' user') st f t
              (omega arith) free named new holds gives soon)))

  -- What an execution of a workflow that a user starts comes to: the database has it, pending, of the
  -- workflow and for the user's tenant, and is otherwise as it was; the queues hold one job more, a
  -- first one, of that execution, for the user's tenant.
  abbrev pub IsStarted :
      (jobs : Jobs b) → Workflow → UserContext → Triggered → World c b → World c b → Type 0
  IsStarted jobs wf user t before after =
      (c.find_execution t.execution_id after.0
        ≡ some (record {
          id = t.execution_id;
          workflow_id = wf.id;
          tenant_id = user.tenant_id;
          status = "pending";
        }))
      × ((id : String)
          → id ≢ t.execution_id
          → c.find_execution id after.0 ≡ c.find_execution id before.0)
      × (jobs.live after.1 ≡ first_data t.execution_id user.tenant_id none ∷ jobs.live before.1)
      × (jobs.dead after.1 ≡ jobs.dead before.1)

  start_execution-IsStarted :
      (creates : Creates c) (jobs : Jobs b) (wf : Workflow) (dto : TriggerExecutionDto)
      (user : UserContext) (w : World c b)
      → (user.tenant_id =ₛ "") ≡ false
      → let out = start_execution c b wf dto (some user) w in IsStarted jobs wf user out.0 w out.1
  unfolding start_execution add_execution_job enqueue_workflow_execution tenant_or
  start_execution-IsStarted creates jobs wf dto user (db, q) there =
      let new : NewExecution = record {
        workflow_id = wf.id;
        tenant_id = user.tenant_id;
        status = "pending";
        metadata = or_json dto.metadata (object no_fields);
      } in
      let added = jobs.add_lem q _ 0 in
      rw there (
        creates.find_created new db ∙ ap (λ row. some row) (creates.created new db),
        creates.find_others new db,
        added.0,
        added.1,
      )

  -- A refusal that changes nothing, or a start that the policy allows.
  abbrev IsTriggered :
      Jobs b → UserContext → Option Workflow → World c b → Done Triggered × World c b → Type 0
  IsTriggered jobs user found w out =
      ((message : String) × (out ≡ (failed message, w)))
      ⊎ ((wf : Workflow) × (t : Triggered) × (found ≡ some wf)
          × (can user workflow_execute (some (subject_of wf)) ≡ true)
          × (out.0 ≡ gave (some t))
          × IsStarted jobs wf user t w out.1)

  execute_checked-IsTriggered :
      (creates : Creates c) (jobs : Jobs b) (denied : Bool) (wf : Workflow)
      (dto : TriggerExecutionDto) (user : UserContext) (w : World c b)
      → (user.tenant_id =ₛ "") ≡ false
      → not (can user workflow_execute (some (subject_of wf))) ≡ denied
      → IsTriggered jobs user (some wf) w (execute_checked c b denied wf dto (some user) w)
  unfolding execute_checked
  execute_checked-IsTriggered creates jobs true wf dto user w there is = inl (_, refl)
  execute_checked-IsTriggered creates jobs false wf dto user w there is =
      let may : can user workflow_execute (some (subject_of wf)) ≡ true = ground arith in
      inr (wf, _, refl, may, refl, start_execution-IsStarted creates jobs wf dto user w there)

  execute_found-IsTriggered :
      (creates : Creates c) (jobs : Jobs b) (found : Option Workflow) (dto : TriggerExecutionDto)
      (user : UserContext) (w : World c b)
      → (user.tenant_id =ₛ "") ≡ false
      → IsTriggered jobs user found w (execute_found c b found dto (some user) w)
  unfolding execute_found is_denied
  execute_found-IsTriggered creates jobs none dto user w there = inl (_, refl)
  execute_found-IsTriggered creates jobs (some wf) dto user w there =
      execute_checked-IsTriggered creates jobs _ wf dto user w there refl

  -- A user with a tenant who triggers a workflow is refused, and nothing changes, or the workflow is
  -- one that is found under the user's tenant and that the policy lets the user execute; then the
  -- execution that the answer names is in the database, pending, of that workflow and the user's
  -- tenant, every other execution is as it was, and one job of it is put into the queue, for the
  -- user's tenant.
  pub execute_operation_cases :
      (creates : Creates c) (jobs : Jobs b) (id : String) (dto : TriggerExecutionDto)
      (user : UserContext) (w : World c b)
      → (user.tenant_id =ₛ "") ≡ false
      → let out = execute_operation c b id dto (some user) w in
        ((message : String) × (out ≡ (failed message, w)))
        ⊎ ((wf : Workflow) × (t : Triggered) × (c.find_workflow id user.tenant_id w.0 ≡ some wf)
            × (can user workflow_execute (some (subject_of wf)) ≡ true)
            × (out.0 ≡ gave (some t))
            × IsStarted jobs wf user t w out.1)
  unfolding execute_operation tenant_or
  execute_operation_cases creates jobs id dto user w there = rw there (
      execute_found-IsTriggered creates jobs (c.find_workflow id user.tenant_id w.0) dto user w
        there)
