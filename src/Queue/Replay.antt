-- ===== src/Queue/Replay.antt =====
-- The operations on the dead-letter queue, and their routes in queue.controller.ts. `at` is the time
-- as a text; the audit log is there.
use forge_gate.Base.{
  any, find, String, Bool, true, false, not, ◌&&◌, Option, none, some, List, [], ◌∷◌, ◌=ₛ◌,
  if◌then◌else◌,
}
use forge_gate.Js.Text.{or_text}
use forge_gate.Auth.Policy.{UserContext}
use forge_gate.Engine.Database.{AuditLog, Prisma}
use forge_gate.Engine.Recovery.{log_replay_event}
use forge_gate.Queue.{
  JobState, waiting, active, completed, failed, DeadLetter, DeadJob, Bull, unfinished, is_job_of,
  enqueue_workflow_execution,
}

-- What `replayDlqJob` gives: the new job's id and the execution, or the error that it throws.
pub data ReplayResult : Type 0 where
  replayed : (job_id execution_id : String) → ReplayResult
  not_found cross_tenant still_active already_replayed : ReplayResult

-- The guards, in their order: the error, if there is one.
unfoldable pub crosses : Option String → String → Bool
crosses none tenant_id = false
crosses (some request_tenant) tenant_id =
    not (request_tenant =ₛ "") && not (tenant_id =ₛ request_tenant)

abbrev pub mark_replayed : String → String → DeadLetter → DeadLetter
mark_replayed operator_id at d = record d {
  replayed = true;
  replayed_at = some at;
  replayed_by = some operator_id;
}

-- `s || null`
abbrev pub truthy : Option String → Option String
truthy none = none
truthy (some s) = if s =ₛ "" then none else some s

abbrev pub every_state : List JobState
every_state = waiting ∷ active ∷ completed ∷ failed ∷ []

audit_of_replay : DeadJob → String → AuditLog
audit_of_replay job operator_id = record {
  tenant_id = job.letter.tenant_id;
  user_id = some operator_id;
  action = "dlq.replayed";
  correlation_id = truthy job.letter.correlation_id;
}

-- `user?.role === 'admin' ? undefined : user?.tenantId`
unfoldable pub tenant_filter : Option UserContext → Option String
tenant_filter none = none
tenant_filter (some user) = if user.role =ₛ "admin" then none else some user.tenant_id

operator_of : Option UserContext → String
operator_of none = "operator"
operator_of (some user) = or_text user.id (or_text user.email "operator")

module _ (b : Bull) (p : Prisma) where
  unfoldable pub replay_refusal : DeadJob → Option String → b.Queues → Option ReplayResult
  replay_refusal job request_tenant q =
      if crosses request_tenant job.letter.tenant_id
      then some cross_tenant
      else if any (is_job_of job.letter.execution_id) (b.get_jobs unfinished q)
      then some still_active
      else if job.letter.replayed
      then some already_replayed
      else none

  -- From the update of the record on, when nothing was refused.
  unfoldable pub replay_job :
      DeadJob → (operator_id at : String) → p.Db × b.Queues → ReplayResult × p.Db × b.Queues
  unfolding audit_of_replay
  replay_job job operator_id at (db, q) =
      let d = job.letter in
      let marked = b.update_dead_data job.id (mark_replayed operator_id at d) q in
      let removed = b.remove_dead job.id marked in
      let logged = log_replay_event p d.execution_id d.tenant_id operator_id (some job.id) at db in
      let audited = p.create_audit (audit_of_replay job operator_id) logged in
      let added =
        enqueue_workflow_execution b d.execution_id d.tenant_id d.correlation_id removed in
      (replayed added.0 d.execution_id, audited, added.1)

  -- `replayDlqJob`
  unfoldable pub replay_dlq_job :
      (job_id operator_id : String)
      → Option String
      → (at : String) → p.Db × b.Queues
      → ReplayResult × p.Db × b.Queues
  replay_dlq_job job_id operator_id request_tenant at (db, q) = elim (b.get_dead_job job_id q) [
    | none ↦ (not_found, db, q)
    | some job ↦ elim (replay_refusal job request_tenant q) [
      | some refusal ↦ (refusal, db, q)
      | none ↦ replay_job job operator_id at (db, q)
    ]
  ]

  -- `replayDeadLetterExecution`
  unfoldable pub replay_dead_letter_execution :
      (execution_id tenant_id at : String) → p.Db × b.Queues → ReplayResult × p.Db × b.Queues
  replay_dead_letter_execution execution_id tenant_id at (db, q) =
      elim (find (λ j. j.letter.execution_id =ₛ execution_id && not j.letter.replayed)
        (b.get_dead_jobs every_state q)) [
          | some job ↦ replay_dlq_job job.id "operator" none at (db, q)
          | none ↦
              let added = enqueue_workflow_execution b execution_id tenant_id none q in
              (replayed added.0 execution_id, db, added.1)
        ]

  -- `POST workflows/dlq/:jobId/retry`
  unfoldable pub retry_dlq_job :
      Option UserContext → (job_id at : String) → p.Db × b.Queues → ReplayResult × p.Db × b.Queues
  unfolding operator_of
  retry_dlq_job user job_id at st =
      replay_dlq_job job_id (operator_of user) (tenant_filter user) at st
