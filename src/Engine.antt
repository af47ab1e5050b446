-- ===== src/Engine.antt =====
-- apps/workflow-service/src/workflow-engine/workflow-engine.service.ts: `executeExecution` and
-- `markAsFailed`. The database is a parameter (Database), and so is what a step does to the world
-- outside of it: every `executeStep` is covered. One worker runs at a time, the clock stands still
-- during a run, and the database answers.
pub mod Database
pub mod Run
pub mod Rows
pub mod Http
pub mod Recovery
pub mod History
pub mod Finished
pub mod Failed
pub mod Calls
pub mod Memory
mod Tests
use forge_gate.Base.{
  ℕ, suc, ◌+◌, ◌-◌, String, ◌<>◌, Bool, true, false, not, ◌&&◌, ◌||◌, Option, none, some, List, [],
  ◌∷◌, ltb, leb, ◌==◌, ◌=ₛ◌, if◌then◌else◌,
}
use forge_gate.Js.Text.{or_text, or_text?}
use forge_gate.Js.Decimal.{show}
use forge_gate.Js.Json.{or_json, Json, undefined, object, no_fields, set_field, object_fields}
use forge_gate.Sanitize.{sanitize_payload}
use forge_gate.Step.Classifier.{HttpStepCategory, timeout, HttpStepError}
use forge_gate.Step.Retry.{Thrown, http, other}
use forge_gate.Engine.Database.{
  ExecutionStatus, pending, running, retrying, completed, failed, StepStatus, step_pending,
  step_running, step_succeeded, step_failed, step_timed_out, Execution, Step, Loaded, StepExecution,
  NewStep, ExecutionLog, AuditLog, Prisma,
}

-- What a run comes to: `executeExecution` throws, gives `undefined`, or gives its result.
pub data RunResult : Type 0 where
  not_found aborted run_completed : RunResult
  run_threw : Thrown → RunResult

-- What the body of the loop over the steps does with one step.
pub data Attempt : Type 0 where
  skipped : Attempt
  succeeded : Json → Attempt
  attempt_threw : Thrown → Attempt

pub data LoopEnd : Type 0 where
  went_through : Json → LoopEnd
  loop_threw : Thrown → LoopEnd

-- `status: { in: ['pending', 'retrying', 'running'] }`
abbrev pub can_claim : ExecutionStatus → Bool
can_claim pending = true
can_claim retrying = true
can_claim running = true
can_claim _ = false

-- `status: { in: ['running', 'retrying'] }`
abbrev pub is_in_run : ExecutionStatus → Bool
is_in_run running = true
is_in_run retrying = true
is_in_run _ = false

abbrev pub is_completed : ExecutionStatus → Bool
is_completed completed = true
is_completed _ = false

abbrev pub is_succeeded : StepStatus → Bool
is_succeeded step_succeeded = true
is_succeeded _ = false

abbrev pub is_step_running : StepStatus → Bool
is_step_running step_running = true
is_step_running _ = false

abbrev pub is_step_pending : StepStatus → Bool
is_step_pending step_pending = true
is_step_pending _ = false

-- The filters of the queries.
abbrev pub claimable : String → Execution → Bool
claimable id e = e.id =ₛ id && can_claim e.status

abbrev pub in_run : String → Execution → Bool
in_run id e = e.id =ₛ id && is_in_run e.status

abbrev pub behind : String → ℕ → Execution → Bool
behind id order e = e.id =ₛ id && ltb e.current_step order && is_in_run e.status

abbrev pub has_succeeded : String → String → StepExecution → Bool
has_succeeded execution_id step_id s =
    s.execution_id =ₛ execution_id && s.step_id =ₛ step_id && is_succeeded s.status

-- `heartbeatAt: { gte: new Date(Date.now() - 30000) }`
abbrev pub beats : ℕ → Option ℕ → Bool
beats now none = false
beats now (some at) = leb now (at + 30000)

abbrev pub is_active : String → String → ℕ → StepExecution → Bool
is_active execution_id step_id now s =
    s.execution_id =ₛ execution_id
    && s.step_id =ₛ step_id
    && is_step_running s.status
    && beats now s.heartbeat_at

abbrev pub is_claim : String → StepExecution → Bool
is_claim id s = s.id =ₛ id && is_step_pending s.status

abbrev pub is_mine : String → String → StepExecution → Bool
is_mine id worker_id s = s.id =ₛ id && is_step_running s.status && s.worker_id =ₛ worker_id

-- The updates of the queries.
abbrev pub claim_as : ExecutionStatus → Execution → Execution
claim_as status e = record e { status = status; version = e.version + 1 }

abbrev pub advance_to : ℕ → Execution → Execution
advance_to order e = record e { current_step = order; version = e.version + 1 }

abbrev pub complete_with : Json → ℕ → Execution → Execution
complete_with payload now e = record e {
  status = completed;
  completed_at = some now;
  metadata = payload;
  version = e.version + 1;
}

abbrev pub fail_at : ℕ → Execution → Execution
fail_at now e = record e { status = failed; completed_at = some now; version = e.version + 1 }

abbrev pub start_on : String → ℕ → StepExecution → StepExecution
start_on worker_id now s = record s {
  status = step_running;
  worker_id = worker_id;
  started_at = some now;
  heartbeat_at = some now;
  version = s.version + 1;
}

abbrev pub succeed_with : Json → ℕ → StepExecution → StepExecution
succeed_with result now s = record s {
  status = step_succeeded;
  finished_at = some now;
  output = sanitize_payload result;
  version = s.version + 1;
}

is_timeout_category : HttpStepCategory → Bool
is_timeout_category timeout = true
is_timeout_category _ = false

-- `isTimeout` of the step's error; neither kind of error has a `code`.
unfoldable pub is_timeout : Thrown → Bool
unfolding is_timeout_category
is_timeout (http e) =
    is_timeout_category e.category
    || or_text? e.sub_reason "" =ₛ "request_timeout"
    || or_text? e.sub_reason "" =ₛ "socket_timeout"
is_timeout (other message) = false

abbrev pub message_of : Thrown → String
message_of (http e) = or_text e.message "Unknown step execution error"
message_of (other message) = or_text message "Unknown step execution error"

-- `toJSON` of the error is a parameter of the run; an error of another kind leaves the output.
abbrev pub error_output : (HttpStepError → Json) → Thrown → Json → Json
error_output to_json (http e) output = to_json e
error_output to_json (other message) output = output

abbrev pub fail_with : (HttpStepError → Json) → Thrown → ℕ → StepExecution → StepExecution
fail_with to_json thrown now s = record s {
  status = if is_timeout thrown then step_timed_out else step_failed;
  finished_at = some now;
  error = some (message_of thrown);
  output = error_output to_json thrown s.output;
  version = s.version + 1;
}

-- `{ ...currentPayload, [`step_${step.stepOrder}`]: output }`
unfoldable pub add_output : Json → ℕ → Json → Json
add_output payload order output =
    object (set_field ("step_" <> show order) output (object_fields payload))

-- `execution.metadata || {}`
unfoldable pub start_payload : Json → Json
start_payload v = or_json v (object no_fields)
