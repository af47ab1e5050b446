-- ===== src/Queue/Worker.antt =====
-- The worker of the workflow queue: what it calls with a job, and what follows a job's failure.
-- `iso` is the time as a text; no lookup of an execution throws.
use forge_gate.Base.{
  ℕ, zero, suc, ◌+◌, String, ◌<>◌, Bool, true, false, Option, none, some, or_default, ◌==◌,
  if◌then◌else◌,
}
use forge_gate.Js.Text.{or_text, or_text?}
use forge_gate.Step.Classifier.{
  HttpStepCategory, success, permanent_failure, transient_failure, rate_limited, network_failure,
  timeout,
}
use forge_gate.Step.Retry.{Thrown, http, other, RetryDecision, no_config, calculate_retry_decision}
use forge_gate.Engine.{RunResult, not_found, aborted, run_completed, run_threw}
use forge_gate.Engine.Database.{Execution, Prisma}
use forge_gate.Engine.Run.{RunArgs, mark_as_failed}
use forge_gate.Queue.{JobData, Job, DeadLetter, Bull}
use forge_gate.Queue.Redact.{sanitize_payload_string}

-- `normalAttempts ? normalAttempts : attemptsMade + 1`
unfoldable pub current_attempt : Option ℕ → ℕ → ℕ
current_attempt none attempts_made = attempts_made + 1
current_attempt (some zero) attempts_made = attempts_made + 1
current_attempt (some (suc n)) attempts_made = suc n

-- What `executeExecution` is called with.
unfoldable pub run_args : Job → (worker_id : String) → (now : ℕ) → RunArgs
run_args job worker_id now = record {
  execution_id = job.job_data.execution_id;
  tenant_id = job.job_data.tenant_id;
  attempt_count = current_attempt job.job_data.normal_attempts job.attempts_made;
  correlation_id = job.job_data.correlation_id;
  worker_id = worker_id;
  now = now;
}

-- The error with which a job fails, if it does.
unfoldable pub error_of : Job → RunResult → Option Thrown
error_of job not_found = some (
    other (
      "Workflow execution " <> job.job_data.execution_id <> " not found for tenant "
      <> job.job_data.tenant_id))
error_of job aborted = none
error_of job run_completed = none
error_of job (run_threw thrown) = some thrown

category_name : HttpStepCategory → String
category_name success = "SUCCESS"
category_name permanent_failure = "PERMANENT_FAILURE"
category_name transient_failure = "TRANSIENT_FAILURE"
category_name rate_limited = "RATE_LIMITED"
category_name network_failure = "NETWORK_FAILURE"
category_name timeout = "TIMEOUT"

-- `err.category || 'PERMANENT_FAILURE'`
failure_category_of : Thrown → String
unfolding category_name
failure_category_of (http e) = category_name e.category
failure_category_of (other message) = "PERMANENT_FAILURE"

-- `err.statusCode || err.status || null`
http_status_of : Thrown → Option ℕ
http_status_of (http e) = elim e.status_code [
  | none ↦ none
  | some n ↦ if n == 0 then none else some n
]
http_status_of (other message) = none

abbrev error_message : Thrown → String
error_message (http e) = e.message
error_message (other message) = message

-- `startedAt` of the execution, or now.
unfoldable pub created_at_of : Option Execution → ℕ → ℕ
created_at_of none now = now
created_at_of (some e) now = or_default e.started_at now

workflow_id_of : Option Execution → String
workflow_id_of none = "unknown"
workflow_id_of (some e) = or_text e.workflow_id "unknown"

unfoldable pub retry_data : JobData → RetryDecision → JobData
retry_data d decision = record d {
  rate_limit_deferrals = some decision.new_rate_limit_deferrals_count;
  normal_attempts = some decision.new_normal_attempt_count;
}

unfoldable pub failure_reason : Thrown → RetryDecision → String
failure_reason err decision =
    sanitize_payload_string (or_text (error_message err) "Workflow step failed")
    <> " ("
    <> decision.reason
    <> ")"

module _ (b : Bull) (p : Prisma) where
  -- `calculateRetryDecision` as the handler calls it.
  unfoldable pub decision_of : Job → Thrown → (now random : ℕ) → p.Db → RetryDecision
  decision_of job err now random db =
      calculate_retry_decision err (or_default job.job_data.normal_attempts 1)
        (or_default job.job_data.rate_limit_deferrals 0)
        (created_at_of (p.find_by_id job.job_data.execution_id db) now) no_config now random

  unfoldable pub dead_letter_of : Job → Thrown → RetryDecision → (iso : String) → p.Db → DeadLetter
  unfolding failure_category_of http_status_of workflow_id_of
  dead_letter_of job err decision iso db = record {
    original_job_id = job.id;
    execution_id = job.job_data.execution_id;
    tenant_id = job.job_data.tenant_id;
    workflow_id = workflow_id_of (p.find_by_id job.job_data.execution_id db);
    failed_step_id = "unknown";
    failure_category = failure_category_of err;
    http_status = http_status_of err;
    retry_count = or_default job.job_data.normal_attempts 1;
    rate_limit_deferral_count = or_default job.job_data.rate_limit_deferrals 0;
    final_error_message =
        sanitize_payload_string (or_text (error_message err) "Workflow step failed");
    timestamp = iso;
    last_attempt_timestamp = iso;
    correlation_id =
        some (or_text? job.job_data.correlation_id ("corr-" <> job.job_data.execution_id));
    replayed = false;
    replayed_at = none;
    replayed_by = none;
    error_reason = failure_reason err decision;
  }

  -- What the handler does, as `shouldRetry` says.
  unfoldable pub handle_decision :
      Bool
      → RetryDecision
      → Job
      → Thrown
      → (now : ℕ) → (iso : String) → p.Db × b.Queues
      → p.Db × b.Queues
  handle_decision true decision job err now iso (db, q) =
      (db, (b.add (retry_data job.job_data decision) decision.delay_ms q).1)
  handle_decision false decision job err now iso (db, q) = (
    mark_as_failed p job.job_data.execution_id (failure_reason err decision) now db,
    b.add_dead (dead_letter_of job err decision iso db) q,
  )

  -- The handler of the event `failed`.
  unfoldable pub on_failed :
      Job → Thrown → (now random : ℕ) → (iso : String) → p.Db × b.Queues → p.Db × b.Queues
  on_failed job err now random iso st =
      let decision = decision_of job err now random st.0 in
      handle_decision decision.should_retry decision job err now iso st
