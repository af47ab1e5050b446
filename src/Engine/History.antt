-- ===== src/Engine/History.antt =====
-- How a run changes the executions in the database.
use forge_gate.Base.{
  ℕ, String, Bool, true, List, [], ◌∷◌, ◌≡◌, refl, ◌∙◌, inl, inr, ltb, ◌==◌, ◌=ₛ◌, arith,
  Bool-cases, Option-cases,
}
use forge_gate.Js.Json.{Json}
use forge_gate.Step.Classifier.{HttpStepError}
use forge_gate.Engine.{
  LoopEnd, went_through, loop_threw, claimable, in_run, behind, has_succeeded, claim_as, advance_to,
  complete_with, add_output, start_payload,
}
use forge_gate.Engine.Database.{ExecutionStatus, Execution, Step, Loaded, Prisma, Tables}
use forge_gate.Engine.Run.{
  StepResult, step_done, step_threw, RunArgs, State, end_step, claim_step, attempt_step, is_busy,
  run_steps, end_run, claim_run, run_loaded, execute_execution,
}
use forge_gate.Engine.Rows.{
  IsAllowed, Follows, Follows-refl, Follows-trans, Follows-of_eq, map-Follows, open_of_in_run,
  behind_lem, Attempt-cases,
}

module _ (p : Prisma) (t : Tables p) where
  update-Follows :
      (id : String) (q : Execution → Bool) (f : Execution → Execution) (db : p.Db)
      → ((e : Execution) → q e ≡ true → IsAllowed id e (f e))
      → Follows id (t.executions db) (t.executions (p.update_executions q f db).1)
  update-Follows id q f db ok =
      rw ((t.update_executions_lem q f db).1) (map-Follows id q f (t.executions db) ok)

  claim-Follows :
      (id : String) (status : ExecutionStatus) (db : p.Db)
      → Follows id
          (t.executions db)
          (t.executions (p.update_executions (claimable id) (claim_as status) db).1)
  claim-Follows id status db =
      update-Follows id (claimable id) (claim_as status) db
        (λ e h. inr (h, refl, refl, omega arith, omega arith))

  advance-Follows :
      (id : String) (order : ℕ) (db : p.Db)
      → Follows id
          (t.executions db)
          (t.executions (p.update_executions (behind id order) (advance_to order) db).1)
  advance-Follows id order db = update-Follows id (behind id order) (advance_to order) db (λ e h.
      let (in_its_run, later) = behind_lem id order e h in
      inr (open_of_in_run (e.id =ₛ id) e.status in_its_run, refl, refl, omega arith, omega arith))

  complete-Follows :
      (id : String) (payload : Json) (now : ℕ) (db : p.Db)
      → Follows id
          (t.executions db)
          (t.executions (p.update_executions (in_run id) (complete_with payload now) db).1)
  complete-Follows id payload now db =
      update-Follows id (in_run id) (complete_with payload now) db
        (λ e h. inr (open_of_in_run (e.id =ₛ id) e.status h, refl, refl, omega arith, omega arith))

  module _ (World : Type 0) (execute_step : Step → Json → World → StepResult × World)
      (to_json : HttpStepError → Json) where
    end_step-executions :
        (args : RunArgs) (step : Step) (id : String) (result : StepResult)
        (st : State p World execute_step to_json)
        → t.executions (end_step p World execute_step to_json args step id result st).1.db
          ≡ t.executions st.db
    unfolding end_step
    end_step-executions args step id (step_done result) st =
        (t.create_log_lem _ _).0 ∙ (t.update_steps_lem _ _ st.db).1
    end_step-executions args step id (step_threw thrown) st = (t.update_steps_lem _ _ st.db).1

    claim_step-Follows :
        (args : RunArgs) (step : Step) (payload : Json) (db : p.Db)
        → Follows args.execution_id
            (t.executions db)
            (t.executions (claim_step p World execute_step to_json args step payload db).2)
    unfolding claim_step
    claim_step-Follows args step payload db =
        let id = args.execution_id in
        Follows-trans id _ _ _ (advance-Follows id step.step_order db)
          (Follows-of_eq id _ _ ((t.update_steps_lem _ _ _).1 ∙ (t.create_step_lem _ _).0))

    attempt_step-Follows :
        (args : RunArgs) (step : Step) (payload : Json) (st : State p World execute_step to_json)
        → Follows args.execution_id
            (t.executions st.db)
            (t.executions (attempt_step p World execute_step to_json args step payload st).1.db)
    unfolding attempt_step
    attempt_step-Follows args step payload st =
        let claim = claim_step p World execute_step to_json args step payload st.db in
        let first = claim_step-Follows args step payload st.db in
        elim (Bool-cases (claim.1 == 0)) [
          | inl lost ↦ rw (lost, attempt_step) first
          | inr won ↦
              rw (won, attempt_step)
                (Follows-trans args.execution_id _ _ _ first
                  (Follows-of_eq args.execution_id _ _ (end_step-executions args step claim.0 _ _)))
        ]

    run_steps-Follows :
        (args : RunArgs) (from : ℕ) (steps : List Step) (payload : Json)
        (st : State p World execute_step to_json)
        → Follows args.execution_id
            (t.executions st.db)
            (t.executions (run_steps p World execute_step to_json args from steps payload st).1.db)
    unfolding run_steps
    run_steps-Follows args from [] payload st = Follows-refl args.execution_id (t.executions st.db)
    run_steps-Follows args from (step ∷ rest) payload st =
        elim (Bool-cases (ltb step.step_order from)) [
          | inl early ↦ rw (early, run_steps) (run_steps-Follows args from rest payload st)
          | inr due ↦
              rw (due, run_steps)
                (elim (Option-cases (p.find_step (has_succeeded args.execution_id step.id) st.db)) [
                  | inr (done, found) ↦ rw found (
                      run_steps-Follows args from rest
                        (add_output payload step.step_order done.output) st)
                  | inl new ↦
                      rw new
                        (elim (Bool-cases (is_busy p World execute_step to_json args step st.db)) [
                          | inl busy ↦ rw busy (run_steps-Follows args from rest payload st)
                          | inr free ↦
                              let tried =
                                attempt_step p World execute_step to_json args step payload st in
                              let first = attempt_step-Follows args step payload st in
                              rw free (elim (Attempt-cases tried.0) [
                                | inl none_claimed ↦ rw none_claimed (
                                    Follows-trans args.execution_id _ _ _ first
                                      (run_steps-Follows args from rest payload tried.1))
                                | inr (inl (result, fine)) ↦ rw fine (
                                    Follows-trans args.execution_id _ _ _ first (
                                      run_steps-Follows args from rest
                                        (add_output payload step.step_order result) tried.1))
                                | inr (inr (thrown, bad)) ↦ rw bad first
                              ])
                        ])
                ])
        ]

    end_run-Follows :
        (args : RunArgs) (e : LoopEnd) (st : State p World execute_step to_json)
        → Follows args.execution_id
            (t.executions st.db)
            (t.executions (end_run p World execute_step to_json args (e, st)).1.db)
    unfolding end_run
    end_run-Follows args (went_through payload) st =
        complete-Follows args.execution_id payload args.now st.db
    end_run-Follows args (loop_threw thrown) st =
        Follows-of_eq args.execution_id _ _ (t.create_log_lem _ st.db).0

    claim_run-Follows :
        (args : RunArgs) (loaded : Loaded) (db : p.Db)
        → Follows args.execution_id
            (t.executions db)
            (t.executions (claim_run p World execute_step to_json args loaded db).1)
    unfolding claim_run
    claim_run-Follows args loaded db =
        Follows-trans args.execution_id _ _ _
          (Follows-of_eq args.execution_id _ _ (t.create_audit_lem _ db).0)
          (claim-Follows args.execution_id _ _)

    run_loaded-Follows :
        (args : RunArgs) (loaded : Loaded) (st : State p World execute_step to_json)
        → Follows args.execution_id
            (t.executions st.db)
            (t.executions (run_loaded p World execute_step to_json args loaded st).1.db)
    unfolding run_loaded
    run_loaded-Follows args loaded st =
        let claim = claim_run p World execute_step to_json args loaded st.db in
        let first = claim_run-Follows args loaded st.db in
        elim (Bool-cases (claim.0 == 0)) [
          | inl lost ↦ rw (lost, run_loaded) first
          | inr won ↦
              rw (won, run_loaded)
                (Follows-trans args.execution_id _ _ _ first (
                  Follows-trans args.execution_id _ _ _
                    (run_steps-Follows args loaded.execution.current_step loaded.steps
                      (start_payload loaded.execution.metadata) (record st { db = claim.1 }))
                    (end_run-Follows args _ _)))
        ]

    -- A run of an execution, whatever its steps do, changes no row of another execution and no row
    -- that is completed or failed; a row of the execution that it changes keeps its tenant, does not
    -- go back to an earlier step and gets a higher version.
    pub execute_execution-Follows :
        (args : RunArgs) (st : State p World execute_step to_json)
        → Follows args.execution_id
            (t.executions st.db)
            (t.executions (execute_execution p World execute_step to_json args st).1.db)
    unfolding execute_execution
    execute_execution-Follows args st =
        elim (Option-cases (p.find_execution args.execution_id args.tenant_id st.db)) [
          | inl missing ↦
              rw (missing, execute_execution) (Follows-refl args.execution_id (t.executions st.db))
          | inr (loaded, found) ↦ rw (found, execute_execution) (run_loaded-Follows args loaded st)
        ]
