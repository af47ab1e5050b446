-- ===== src/Engine/Recovery.antt =====
-- `findAndMarkStaleStepExecutions`, `logReplayEvent` and `getExecutionById` of
-- workflow-engine.service.ts. Moments are milliseconds; `iso` is `toISOString`.
use forge_gate.Base.{
  ℕ, ◌+◌, ◌-◌, String, ◌<>◌, Bool, true, false, ◌&&◌, Option, none, some, List, [], ◌∷◌, ltb, ◌==◌,
  ◌=ₛ◌, if◌then◌else◌,
}
use forge_gate.Base.Int.{pos, ◌+ℤ◌}
use forge_gate.Js.Json.{
  Json, undefined, boolean, number, text, object, Fields, no_fields, field, set_field,
  object_fields, get_field,
}
use forge_gate.Engine.{is_step_running}
use forge_gate.Engine.Database.{
  ExecutionStatus, running, retrying, step_timed_out, Execution, StepExecution, ExecutionLog,
  Prisma,
}

-- `heartbeatAt < cutoff`, or `startedAt < cutoff` where there is no heartbeat.
is_before : ℕ → Option ℕ → Option ℕ → Bool
is_before cutoff (some beat) started = ltb beat cutoff
is_before cutoff none (some at) = ltb at cutoff
is_before cutoff none none = false

unfoldable pub is_stale : ℕ → StepExecution → Bool
unfolding is_before
is_stale cutoff s = is_step_running s.status && is_before cutoff s.heartbeat_at s.started_at

abbrev is_running : ExecutionStatus → Bool
is_running running = true
is_running _ = false

abbrev expire_lease : ℕ → StepExecution → StepExecution
expire_lease now s = record s {
  status = step_timed_out;
  finished_at = some now;
  error = some "Worker lease expired (crash detected)";
}

pub record Recovered : Type 0 where
  pub execution_id : String
  pub tenant_id : String

-- `recoveredMap.set(id, …)`: an entry keeps its place.
unfoldable pub set_recovered : Recovered → List Recovered → List Recovered
set_recovered x [] = x ∷ []
set_recovered x (y ∷ ys) =
    let after = set_recovered x ys in if y.execution_id =ₛ x.execution_id then x ∷ ys else y ∷ after

-- `(currentMetadata.replayCount || 0) + 1`, which joins texts where it is not a number. The program
-- stores no array there: one counts as missing.
replay_count : Json → Json
replay_count (number z) = number (z +ℤ pos 1)
replay_count (boolean true) = number (pos 2)
replay_count (text s) = if s =ₛ "" then number (pos 1) else text (s <> "1")
replay_count (object fs) = text "[object Object]1"
replay_count _ = number (pos 1)

dlq_job_json : Option String → Json
dlq_job_json none = undefined
dlq_job_json (some id) = text id

replay_metadata : Json → String → String → Option String → Fields → Fields
unfolding dlq_job_json
replay_metadata count at operator_id dlq_job_id current =
    set_field "replayedFromDlqJobId" (dlq_job_json dlq_job_id) (
      set_field "lastReplayedBy" (text operator_id)
        (set_field "lastReplayedAt" (text at) (set_field "replayCount" count current)))

-- The update of the execution, by its primary key.
unfoldable pub reopen : Json → String → String → Option String → Fields → Execution → Execution
unfolding replay_metadata
reopen count at operator_id dlq_job_id current e = record e {
  status = running;
  metadata = object (replay_metadata count at operator_id dlq_job_id current);
}

replay_log : String → Json → String → String → Option String → ExecutionLog
unfolding dlq_job_json
replay_log execution_id count at operator_id dlq_job_id = record {
  execution_id = execution_id;
  step_id = some "DLQ_REPLAY";
  status = "replay_triggered";
  output = object (
      field "operatorId" (text operator_id) (
        field "dlqJobId" (dlq_job_json dlq_job_id)
          (field "replayCount" count (field "timestamp" (text at) no_fields))));
  error = none;
}

module _ (p : Prisma) where
  -- A stale step execution whose row was updated makes its execution one to recover.
  unfoldable pub mark_execution : Option Execution → List Recovered × p.Db → List Recovered × p.Db
  mark_execution none acc = acc
  mark_execution (some e) (found, db) =
      let marked =
        if is_running e.status
        then (p.update_executions (λ x. x.id =ₛ e.id && is_running x.status)
            (λ x. record x { status = retrying; version = x.version + 1 }) db).1
        else db in
      (set_recovered (record { execution_id = e.id; tenant_id = e.tenant_id }) found, marked)

  unfoldable pub mark_stale :
      ℕ → List (StepExecution × Option Execution) → List Recovered × p.Db → List Recovered × p.Db
  mark_stale now [] acc = acc
  mark_stale now ((s, execution) ∷ rest) (found, db) =
      let updated =
        p.update_steps (λ x. x.id =ₛ s.id && is_step_running x.status) (expire_lease now) db in
      elim (updated.0 == 0) [
        | true ↦ mark_stale now rest (found, updated.1)
        | false ↦ mark_stale now rest (mark_execution execution (found, updated.1))
      ]

  unfoldable pub find_and_mark_stale : (lease_ms now : ℕ) → p.Db → List Recovered × p.Db
  find_and_mark_stale lease_ms now db =
      mark_stale now (p.find_steps (is_stale (now - lease_ms)) 100 db) ([], db)

  -- `logReplayEvent`; `at` is the time as a text.
  unfoldable pub log_replay_event :
      (execution_id tenant_id operator_id : String) → Option String → (at : String) → p.Db → p.Db
  unfolding replay_count replay_log
  log_replay_event execution_id tenant_id operator_id dlq_job_id at db =
      elim (p.find_execution execution_id tenant_id db) [
        | none ↦ db
        | some loaded ↦
            let current = object_fields loaded.execution.metadata in
            let count = replay_count (get_field "replayCount" current) in
            p.create_log (replay_log execution_id count at operator_id dlq_job_id)
              (p.update_executions (λ e. e.id =ₛ execution_id)
                (reopen count at operator_id dlq_job_id current) db).1
      ]
