-- ===== src/Queue/Listing.antt =====
-- `getDlqJobs` and `getExecutionStatus` of queue.service.ts, and the route of the listing.
use forge_gate.Base.{
  find, ℕ, String, Bool, ◌||◌, Option, none, some, List, [], ◌∷◌, map, filter, ltb, ◌==◌, ◌=ₛ◌,
  if◌then◌else◌,
}
use forge_gate.Js.Text.{or_text, or_text?}
use forge_gate.Auth.Policy.{UserContext}
use forge_gate.Pagination.{PaginationQuery, PaginatedResult, parse_pagination_params, page_of}
use forge_gate.Queue.{waiting, active, completed, failed, DeadJob, Bull, is_job_of}
use forge_gate.Queue.Replay.{truthy, every_state, tenant_filter}

-- The fields of an item, without the second name of its id and the history, which is always empty.
pub record DlqItem : Type 0 where
  pub id : String
  pub execution_id : String
  pub tenant_id : String
  pub workflow_id : String
  pub failed_step_id : String
  pub failure_category : String
  pub http_status : Option ℕ
  pub retry_count : ℕ
  pub rate_limit_deferral_count : ℕ
  pub is_rate_limited : Bool
  pub final_error_message : String
  pub failed_reason : String
  pub timestamp : String
  pub last_attempt_timestamp : String
  pub correlation_id : String
  pub replayed : Bool
  pub replayed_at : Option String
  pub replayed_by : Option String
  pub retryable_at : String

-- The item that a job is shown as.
unfoldable pub item_of : DeadJob → DlqItem
item_of job =
    let d = job.letter in
    record {
      id = job.id;
      execution_id = d.execution_id;
      tenant_id = d.tenant_id;
      workflow_id = or_text d.workflow_id "unknown";
      failed_step_id = or_text d.failed_step_id "unknown";
      failure_category = or_text d.failure_category "PERMANENT_FAILURE";
      http_status = d.http_status;
      retry_count = if d.retry_count == 0 then 1 else d.retry_count;
      rate_limit_deferral_count = d.rate_limit_deferral_count;
      is_rate_limited = ltb 0 d.rate_limit_deferral_count || d.failure_category =ₛ "RATE_LIMITED";
      final_error_message =
          or_text d.final_error_message
            (or_text d.error_reason (or_text? job.failed_reason "Unknown error"));
      failed_reason = or_text? job.failed_reason (or_text d.final_error_message d.error_reason);
      timestamp = or_text d.timestamp job.timestamp;
      last_attempt_timestamp = or_text d.last_attempt_timestamp job.timestamp;
      correlation_id = or_text? d.correlation_id d.execution_id;
      replayed = d.replayed;
      replayed_at = truthy d.replayed_at;
      replayed_by = truthy d.replayed_by;
      retryable_at = if d.replayed then "N/A" else "Immediate upon replay";
    }

-- `if (filterTenantId)`: the items of the tenant, or all of them.
unfoldable pub of_tenant : Option String → List DlqItem → List DlqItem
of_tenant none items = items
of_tenant (some tenant_id) items =
    if tenant_id =ₛ "" then items else filter (λ i. i.tenant_id =ₛ tenant_id) items

-- What `getExecutionStatus` tells of a job; its state and progress are BullMQ's.
pub record JobStatus : Type 0 where
  pub job_id : String
  pub failed_reason : Option String

module _ (b : Bull) where
  -- `getDlqJobs`
  unfoldable pub get_dlq_jobs : Option String → PaginationQuery → b.Queues → PaginatedResult DlqItem
  get_dlq_jobs filter_tenant query q =
      page_of (λ i. i.id) (of_tenant filter_tenant (map item_of (b.get_dead_jobs every_state q)))
        (parse_pagination_params query)

  -- `GET workflows/dlq/jobs`
  unfoldable pub list_dlq_jobs :
      Option UserContext → PaginationQuery → b.Queues → PaginatedResult DlqItem
  list_dlq_jobs user query q = get_dlq_jobs (tenant_filter user) query q

  -- `getExecutionStatus`; a delayed job is not among those that it looks at.
  unfoldable pub get_execution_status : String → b.Queues → Option JobStatus
  get_execution_status execution_id q =
      elim (find (is_job_of execution_id)
        (b.get_jobs (active ∷ waiting ∷ completed ∷ failed ∷ []) q)) [
          | none ↦ none
          | some job ↦ some (record { job_id = job.id; failed_reason = job.failed_reason })
        ]
