-- ===== src/Engine/Run.antt =====
-- The run of an execution: `executeExecution` with its loop over the steps, and `markAsFailed`.
use forge_gate.Base.{
  ℕ, String, ◌<>◌, Bool, true, false, not, ◌&&◌, Option, none, some, List, [], ◌∷◌, ltb, ◌==◌, ◌=ₛ◌,
  if◌then◌else◌,
}
use forge_gate.Js.Text.{or_text?}
use forge_gate.Js.Json.{Json, undefined, object_fields, text_field}
use forge_gate.Sanitize.{sanitize_payload}
use forge_gate.Step.Classifier.{HttpStepError}
use forge_gate.Step.Retry.{Thrown}
use forge_gate.Engine.{
  RunResult, not_found, aborted, run_completed, run_threw, Attempt, skipped, succeeded,
  attempt_threw, LoopEnd, went_through, loop_threw, claimable, in_run, behind, has_succeeded,
  is_active, is_claim, is_mine, is_completed, claim_as, advance_to, complete_with, fail_at,
  start_on, succeed_with, fail_with, message_of, add_output, start_payload,
}
use forge_gate.Engine.Database.{running, retrying, Step, Loaded, AuditLog, Prisma}

-- What `executeStep` gives, or throws.
pub data StepResult : Type 0 where
  step_done : Json → StepResult
  step_threw : Thrown → StepResult

-- The clock and the worker of a run, and the arguments of `executeExecution`.
pub record RunArgs : Type 0 where
  pub execution_id : String
  pub tenant_id : String
  pub attempt_count : ℕ
  pub correlation_id : Option String
  pub worker_id : String
  pub now : ℕ

module _ (p : Prisma) (World : Type 0) (execute_step : Step → Json → World → StepResult × World)
    (to_json : HttpStepError → Json) where
  -- The database, the world outside, and the ids of the steps that were executed, the last one
  -- first, which the program does not keep.
  pub record State : Type 0 where
    pub db : p.Db
    pub world : World
    pub called : List String

  -- What follows `executeStep`: the step execution's end is written, and the log if it succeeded.
  unfoldable pub end_step : RunArgs → Step → String → StepResult → State → Attempt × State
  end_step args step id (step_done result) st =
      let updated =
        (p.update_steps (is_mine id args.worker_id) (succeed_with result args.now) st.db).1 in
      let logged =
        p.create_log
          (record {
            execution_id = args.execution_id;
            step_id = some step.id;
            status = "completed";
            output = result;
            error = none;
          })
          updated in
      (succeeded result, record st { db = logged })
  end_step args step id (step_threw thrown) st =
      let updated =
        (p.update_steps (is_mine id args.worker_id) (fail_with to_json thrown args.now) st.db).1 in
      (attempt_threw thrown, record st { db = updated })

  -- The update of `currentStep`, the creation of the step execution and its claim: its id, the
  -- number of rows that were claimed, and the database.
  unfoldable pub claim_step : RunArgs → Step → Json → p.Db → String × ℕ × p.Db
  claim_step args step payload db =
      let advanced =
        (p.update_executions (behind args.execution_id step.step_order) (advance_to step.step_order)
          db).1 in
      let created =
        p.create_step
          (record {
            execution_id = args.execution_id;
            step_id = step.id;
            attempt = args.attempt_count;
            input = sanitize_payload payload;
            worker_id = args.worker_id;
          })
          advanced in
      let claim =
        p.update_steps (is_claim created.0.id) (start_on args.worker_id args.now) created.1 in
      (created.0.id, claim.0, claim.1)

  -- The body of the loop from the update of `currentStep` on.
  unfoldable pub attempt_step : RunArgs → Step → Json → State → Attempt × State
  attempt_step args step payload st =
      let claim = claim_step args step payload st.db in
      elim (claim.1 == 0) [
        | true ↦ (skipped, record st { db = claim.2 })
        | false ↦
            let ran = execute_step step payload st.world in
            end_step args step claim.0 ran.0
              (record { db = claim.2; world = ran.1; called = step.id ∷ st.called })
      ]

  -- Whether another worker is executing the step.
  unfoldable pub is_busy : RunArgs → Step → p.Db → Bool
  is_busy args step db = elim (p.find_step (is_active args.execution_id step.id args.now) db) [
    | none ↦ false
    | some s ↦ not (s.worker_id =ₛ args.worker_id)
  ]

  -- The loop over the steps; `from` is the current step of the execution as it was read.
  unfoldable pub run_steps : RunArgs → (from : ℕ) → List Step → Json → State → LoopEnd × State
  run_steps args from [] payload st = (went_through payload, st)
  run_steps args from (step ∷ rest) payload st = elim (ltb step.step_order from) [
    | true ↦ run_steps args from rest payload st
    | false ↦ elim (p.find_step (has_succeeded args.execution_id step.id) st.db) [
      | some done ↦ run_steps args from rest (add_output payload step.step_order done.output) st
      | none ↦ elim (is_busy args step st.db) [
        | true ↦ run_steps args from rest payload st
        | false ↦
            let tried = attempt_step args step payload st in
            elim tried.0 [
              | skipped ↦ run_steps args from rest payload tried.1
              | succeeded result ↦
                  run_steps args from rest (add_output payload step.step_order result) tried.1
              | attempt_threw thrown ↦ (loop_threw thrown, tried.1)
            ]
      ]
    ]
  ]

  -- The end of a run: the execution is completed, or the error is logged and thrown on.
  unfoldable pub end_run : RunArgs → LoopEnd × State → RunResult × State
  end_run args (went_through payload, st) = (
    run_completed,
    record st {
      db =
          (p.update_executions (in_run args.execution_id) (complete_with payload args.now) st.db).1;
    },
  )
  end_run args (loop_threw thrown, st) = (
    run_threw thrown,
    record st {
      db =
          p.create_log
            (record {
              execution_id = args.execution_id;
              step_id = none;
              status = "failed";
              output = undefined;
              error = some (message_of thrown);
            })
            st.db;
    },
  )

  audit_of : RunArgs → Loaded → AuditLog
  audit_of args loaded = record {
    tenant_id = args.tenant_id;
    user_id = loaded.created_by_id;
    action = "workflow.execution_started";
    correlation_id = some (
        or_text? args.correlation_id (
          or_text? (text_field "correlationId" (object_fields loaded.execution.metadata))
            ("corr-" <> args.execution_id)));
  }

  -- The audit log and the claim of the execution: the number of rows claimed, and the database.
  unfoldable pub claim_run : RunArgs → Loaded → p.Db → ℕ × p.Db
  unfolding audit_of
  claim_run args loaded db =
      let audited = p.create_audit (audit_of args loaded) db in
      let status = if ltb 1 args.attempt_count then retrying else running in
      p.update_executions (claimable args.execution_id) (claim_as status) audited

  -- From the audit log on: the claim, the loop and the end.
  unfoldable pub run_loaded : RunArgs → Loaded → State → RunResult × State
  run_loaded args loaded st =
      let claim = claim_run args loaded st.db in
      elim (claim.0 == 0) [
        | true ↦ (aborted, record st { db = claim.1 })
        | false ↦ end_run args (
            run_steps args loaded.execution.current_step loaded.steps
              (start_payload loaded.execution.metadata) (record st { db = claim.1 }))
      ]

  -- `executeExecution`
  unfoldable pub execute_execution : RunArgs → State → RunResult × State
  execute_execution args st = elim (p.find_execution args.execution_id args.tenant_id st.db) [
    | none ↦ (not_found, st)
    | some loaded ↦ run_loaded args loaded st
  ]

module _ (p : Prisma) where
  -- `markAsFailed`
  unfoldable pub mark_as_failed : (execution_id reason : String) (now : ℕ) → p.Db → p.Db
  mark_as_failed execution_id reason now db =
      p.create_log
        (record {
          execution_id = execution_id;
          step_id = none;
          status = "failed_dead_letter";
          output = undefined;
          error = some reason;
        })
        (p.update_executions (λ e. e.id =ₛ execution_id && not (is_completed e.status))
          (fail_at now) db).1
