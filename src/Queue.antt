-- ===== src/Queue.antt =====
-- apps/workflow-service/src/queue/queue.service.ts and queue.controller.ts. The queues are those of
-- BullMQ, which is not code of the repository: a record of commands, with laws for what is
-- documented of them. Both queues are open. Children: Redact is what is done to error messages,
-- Worker the handlers of the worker, Replay the operations on the dead-letter queue.
pub mod Redact
pub mod Worker
pub mod Replay
pub mod Listing
pub mod Settled
pub mod Replayed
pub mod Tenants
pub mod Reopened
pub mod Memory
mod Tests
pub mod Single
use forge_gate.Base.{
  any, count_of, find, update_row, ℕ, suc, ◌+◌, String, ◌<>◌, Bool, true, false, not, Option, none,
  some, List, [], ◌∷◌, ◌++◌, map, filter, ◌≡◌, ◌=ₛ◌, length, if◌then◌else◌,
}
use forge_gate.Js.Text.{or_text?}
use forge_gate.Engine.Database.{Prisma}
use forge_gate.Engine.Recovery.{Recovered, find_and_mark_stale}

-- The data of a job of the workflow queue; a field may be missing.
pub record JobData : Type 0 where
  pub execution_id : String
  pub tenant_id : String
  pub correlation_id : Option String
  pub rate_limit_deferrals : Option ℕ
  pub normal_attempts : Option ℕ

pub record Job : Type 0 where
  pub id : String
  pub job_data : JobData
  pub attempts_made : ℕ
  pub failed_reason : Option String

pub data JobState : Type 0 where
  waiting active delayed completed failed : JobState

-- The data of a job of the dead-letter queue.
pub record DeadLetter : Type 0 where
  pub original_job_id : String
  pub execution_id : String
  pub tenant_id : String
  pub workflow_id : String
  pub failed_step_id : String
  pub failure_category : String
  pub http_status : Option ℕ
  pub retry_count : ℕ
  pub rate_limit_deferral_count : ℕ
  pub final_error_message : String
  pub timestamp : String
  pub last_attempt_timestamp : String
  pub correlation_id : Option String
  pub replayed : Bool
  pub replayed_at : Option String
  pub replayed_by : Option String
  pub error_reason : String

pub record DeadJob : Type 0 where
  pub id : String
  pub letter : DeadLetter
  pub failed_reason : Option String
  pub timestamp : String

pub record Bull : Type 1 where
  pub Queues : Type 0
  -- `workflowQueue.add`: the id of the job.
  pub add : JobData → (delay_ms : ℕ) → Queues → String × Queues
  pub get_jobs : List JobState → Queues → List Job
  pub add_dead : DeadLetter → Queues → Queues
  pub get_dead_jobs : List JobState → Queues → List DeadJob
  pub get_dead_job : String → Queues → Option DeadJob
  pub update_dead_data : String → DeadLetter → Queues → Queues
  pub remove_dead : String → Queues → Queues

-- The states of a job that will run, or runs.
abbrev pub unfinished : List JobState
unfinished = active ∷ waiting ∷ delayed ∷ []

abbrev pub is_job_of : String → Job → Bool
is_job_of execution_id j = j.job_data.execution_id =ₛ execution_id

-- The documented effect of the commands: `live` is the unfinished jobs of the workflow queue,
-- `dead` those of the dead-letter queue.
pub record Jobs (b : Bull) : Type 0 where
  pub live : b.Queues → List JobData
  pub dead : b.Queues → List DeadJob
  pub get_jobs_lem :
      (q : b.Queues) (execution_id : String)
      → any (is_job_of execution_id) (b.get_jobs unfinished q)
        ≡ any (λ d. d.execution_id =ₛ execution_id) (live q)
  pub get_dead_job_lem :
      (q : b.Queues) (id : String) → b.get_dead_job id q ≡ find (λ j. j.id =ₛ id) (dead q)
  pub add_lem :
      (q : b.Queues) (d : JobData) (delay_ms : ℕ)
      → (live (b.add d delay_ms q).1 ≡ d ∷ live q) × (dead (b.add d delay_ms q).1 ≡ dead q)
  pub add_dead_lem :
      (q : b.Queues) (d : DeadLetter)
      → (live (b.add_dead d q) ≡ live q)
        × ((j : DeadJob) × (j.letter ≡ d) × (dead (b.add_dead d q) ≡ dead q ++ (j ∷ [])))
  pub update_dead_data_lem :
      (q : b.Queues) (id : String) (d : DeadLetter)
      → (live (b.update_dead_data id d q) ≡ live q)
        × (dead (b.update_dead_data id d q)
            ≡ map (update_row (λ j. j.id =ₛ id) (λ j. record j { letter = d })) (dead q))
  pub remove_dead_lem :
      (q : b.Queues) (id : String)
      → (live (b.remove_dead id q) ≡ live q)
        × (dead (b.remove_dead id q) ≡ filter (λ j. not (j.id =ₛ id)) (dead q))

pub record EnqueuedJob : Type 0 where
  pub job_id : String
  pub status : String

pub record RecoveryReport : Type 0 where
  pub stale_count : ℕ
  pub reenqueued_count : ℕ
  pub reenqueued_ids : List String

-- The data of a job that was not tried yet.
abbrev pub first_data : (execution_id tenant_id : String) → Option String → JobData
first_data execution_id tenant_id correlation_id = record {
  execution_id = execution_id;
  tenant_id = tenant_id;
  correlation_id = some (or_text? correlation_id ("corr-" <> execution_id));
  rate_limit_deferrals = some 0;
  normal_attempts = some 1;
}

module _ (b : Bull) where
  -- `enqueueWorkflowExecution`: the job's id.
  unfoldable pub enqueue_workflow_execution :
      (execution_id tenant_id : String) → Option String → b.Queues → String × b.Queues
  enqueue_workflow_execution execution_id tenant_id correlation_id q =
      b.add (first_data execution_id tenant_id correlation_id) 0 q

  -- `addExecutionJob`
  unfoldable pub add_execution_job :
      (execution_id tenant_id : String) → Option String → b.Queues → EnqueuedJob × b.Queues
  add_execution_job execution_id tenant_id correlation_id q =
      let added = enqueue_workflow_execution execution_id tenant_id correlation_id q in
      (record { job_id = added.0; status = "enqueued" }, added.1)

  -- The loop of `recoverStaleExecutions`: the ids that were enqueued.
  unfoldable pub reenqueue : List Recovered → b.Queues → List String × b.Queues
  reenqueue [] q = ([], q)
  reenqueue (item ∷ rest) q = elim (any (is_job_of item.execution_id) (b.get_jobs unfinished q)) [
    | true ↦ reenqueue rest q
    | false ↦
        let added = enqueue_workflow_execution item.execution_id item.tenant_id none q in
        let others = reenqueue rest added.1 in (item.execution_id ∷ others.0, others.1)
  ]

  -- `recoverStaleExecutions`
  unfoldable pub recover_stale_executions :
      (p : Prisma) (lease_ms now : ℕ) → p.Db × b.Queues → RecoveryReport × p.Db × b.Queues
  recover_stale_executions p lease_ms now (db, q) =
      let stale = find_and_mark_stale p lease_ms now db in
      let done = reenqueue stale.0 q in
      (
        record {
          stale_count = length stale.0;
          reenqueued_count = length done.0;
          reenqueued_ids = done.0;
        },
        stale.1,
        done.1,
      )
