-- ===== src/Queue/Tests.antt =====
-- Operations on queues in memory.
use forge_gate.Base.{
  any, find, String, true, false, none, some, [], ◌∷◌, ◌≡◌, refl, ◌⊎◌, ◌=ₛ◌, arith,
}
use forge_gate.Js.Json.{null}
use forge_gate.Step.Retry.{other}
use forge_gate.Auth.Policy.{UserContext}
use forge_gate.Engine.{claimable}
use forge_gate.Engine.Database.{Execution, running, failed, step_running}
use forge_gate.Engine.Memory.{MemoryDb, memory, memory_tables, new_row, load, two_steps}
use forge_gate.Engine.Recovery.{find_and_mark_stale}
use forge_gate.Queue.{DeadLetter, DeadJob, first_data, recover_stale_executions}
use forge_gate.Queue.Replay.{replay_dlq_job, retry_dlq_job, replay_refusal, crosses, replay_job}
use forge_gate.Queue.Replayed.{is_replayed, IsReplayable, IsReplayed, replay_dlq_job_cases}
use forge_gate.Queue.Tenants.{dead_of_others, live_of_others, retry_dlq_job-others}
use forge_gate.Queue.Reopened.{replay_dlq_job-claimable}
use forge_gate.Queue.Settled.{JobFailure, follow, IsSettled, follow_settles}
use forge_gate.Queue.Single.{IsRecovered, recover_stale_executions-IsRecovered}
use forge_gate.Queue.Memory.{MemoryQueues, dead_job, bull, bull_jobs}

abbrev e1 : Execution
e1 = record {
  id = "e1";
  tenant_id = "acme";
  workflow_id = "wf";
  status = failed;
  current_step = 0;
  metadata = null;
  started_at = some 0;
  completed_at = none;
  version = 1;
}

abbrev letter_of : String → DeadLetter
letter_of tenant_id = record {
  original_job_id = "j0";
  execution_id = "e1";
  tenant_id = tenant_id;
  workflow_id = "wf";
  failed_step_id = "unknown";
  failure_category = "PERMANENT_FAILURE";
  http_status = none;
  retry_count = 3;
  rate_limit_deferral_count = 0;
  final_error_message = "boom";
  timestamp = "t";
  last_attempt_timestamp = "t";
  correlation_id = none;
  replayed = false;
  replayed_at = none;
  replayed_by = none;
  error_reason = "boom";
}

abbrev one_dead : MemoryQueues
one_dead = record { live = []; dead = dead_job "0" (letter_of "acme") ∷ [] }

abbrev failed_db : MemoryDb
failed_db = record { executions = e1 ∷ []; step_executions = [] }

abbrev stale_db : MemoryDb
stale_db = record {
  executions = record e1 { status = running } ∷ [];
  step_executions =
      record (new_row "0" (record {
        execution_id = "e1";
        step_id = "s1";
        attempt = 1;
        input = null;
        worker_id = "w1";
      })) { status = step_running; started_at = some 1 }
      ∷ [];
}

abbrev failure : JobFailure bull bull_jobs memory memory_tables
failure = record {
  job_id = "j";
  error = other "boom";
  now = 1000;
  random = 0;
  iso = "t";
  db = failed_db;
}

abbrev ann : UserContext
ann = record { id = "ann"; email = "ann@acme"; role = "operator"; tenant_id = "acme" }

follow_settles_example :
    IsSettled bull bull_jobs memory memory_tables (first_data "e1" "acme" none) one_dead (
      follow bull bull_jobs memory memory_tables
        (failure ∷ failure ∷ failure ∷ failure ∷ failure ∷ failure ∷ failure ∷ failure ∷ [])
        (first_data "e1" "acme" none)
        one_dead)
follow_settles_example =
    follow_settles bull bull_jobs memory memory_tables
      (failure ∷ failure ∷ failure ∷ failure ∷ failure ∷ failure ∷ failure ∷ failure ∷ [])
      (first_data "e1" "acme" none) one_dead (omega arith)

recover_stale_executions-IsRecovered_example :
    IsRecovered bull bull_jobs
      (find_and_mark_stale memory 30000 90000 stale_db).0
      []
      (recover_stale_executions bull memory 30000 90000 (stale_db, one_dead)).2.live
recover_stale_executions-IsRecovered_example =
    recover_stale_executions-IsRecovered bull bull_jobs memory 30000 90000 stale_db one_dead
      (λ id. omega arith)

replay_dlq_job_cases_example :
    let out = replay_dlq_job bull memory "0" "ann" (some "acme") "t" (failed_db, one_dead) in
    ((is_replayed out.0 ≡ false) × (out.1 ≡ failed_db) × (out.2 ≡ one_dead))
    ⊎ ((job : DeadJob) × (find (λ j. j.id =ₛ "0") one_dead.dead ≡ some job)
        × IsReplayable bull bull_jobs memory job (some "acme") one_dead
        × (is_replayed out.0 ≡ true)
        × IsReplayed bull bull_jobs memory job one_dead out.2)
replay_dlq_job_cases_example =
    replay_dlq_job_cases bull bull_jobs memory "0" "ann" (some "acme") "t" failed_db one_dead

retry_dlq_job-others_example :
    let after = (retry_dlq_job bull memory (some ann) "0" "t" (failed_db, one_dead)).2 in
    (dead_of_others "acme" after.dead ≡ []) × (live_of_others "acme" after.live ≡ [])
retry_dlq_job-others_example =
    retry_dlq_job-others bull bull_jobs memory ann "0" "t" failed_db one_dead refl refl
      (omega arith)

replay_dlq_job-claimable_example :
    any
      (claimable "e1")
      (replay_dlq_job bull memory "0" "ann" none "t" (failed_db, one_dead)).1.executions
    ≡ true
unfolding replay_dlq_job load replay_refusal crosses replay_job
replay_dlq_job-claimable_example =
    replay_dlq_job-claimable bull bull_jobs memory memory_tables "0" "ann" none "t" failed_db
      one_dead (dead_job "0" (letter_of "acme"))
      (record { execution = e1; steps = two_steps; created_by_id = none }) refl refl refl refl
