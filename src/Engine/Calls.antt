-- ===== src/Engine/Calls.antt =====
-- Which steps a run executes.
use forge_gate.Base.{
  any, ℕ, String, Bool, true, false, ◌&&◌, none, is_some, List, [], ◌∷◌, ◌≡◌, refl, sym, ◌∙◌, ap,
  inl, inr, ltb, ◌==◌, ◌=ₛ◌, arith, Bool-cases, Option-cases, includes, ne→test,
}
use mathlib.Core.Bool.{false≢true}
use forge_gate.Js.Json.{Json}
use forge_gate.Step.Classifier.{HttpStepError}
use forge_gate.Engine.{
  LoopEnd, went_through, loop_threw, has_succeeded, is_claim, is_mine, is_succeeded, add_output,
  start_payload,
}
use forge_gate.Engine.Database.{
  StepStatus, step_pending, step_running, step_succeeded, step_failed, step_timed_out, Step, Loaded,
  StepExecution, NewStep, Prisma, Tables,
}
use forge_gate.Engine.Run.{
  StepResult, step_done, step_threw, RunArgs, State, end_step, claim_step, attempt_step, is_busy,
  run_steps, end_run, claim_run, run_loaded, execute_execution,
}
use forge_gate.Engine.Rows.{Attempt-cases, any-map}

succeeded_status :
    (a b : Bool) (s : StepStatus) → a && b && is_succeeded s ≡ true → s ≡ step_succeeded
succeeded_status a b step_succeeded h = refl
succeeded_status a b step_pending h = absurd (ground arith)
succeeded_status a b step_running h = absurd (ground arith)
succeeded_status a b step_failed h = absurd (ground arith)
succeeded_status a b step_timed_out h = absurd (ground arith)

module _ (eid sid : String) where
  not_claimed :
      (id : String) (x : StepExecution) → has_succeeded eid sid x ≡ true → is_claim id x ≡ false
  not_claimed id x h =
      rw (succeeded_status (x.execution_id =ₛ eid) (x.step_id =ₛ sid) x.status h) (ground arith)

  not_mine :
      (id worker_id : String) (x : StepExecution)
      → has_succeeded eid sid x ≡ true
      → is_mine id worker_id x ≡ false
  not_mine id worker_id x h =
      rw (succeeded_status (x.execution_id =ₛ eid) (x.step_id =ₛ sid) x.status h) (ground arith)

  module _ (p : Prisma) (t : Tables p) (World : Type 0)
      (execute_step : Step → Json → World → StepResult × World)
      (to_json : HttpStepError → Json) where
    -- The step has succeeded in the execution, by the table.
    abbrev IsDone : p.Db → Type 0
    IsDone db = any (has_succeeded eid sid) (t.step_executions db) ≡ true

    update-IsDone :
        (q : StepExecution → Bool) (f : StepExecution → StepExecution) (db : p.Db)
        → ((x : StepExecution) → has_succeeded eid sid x ≡ true → q x ≡ false)
        → IsDone db
        → IsDone (p.update_steps q f db).1
    update-IsDone q f db apart h =
        rw ((t.update_steps_lem q f db).2)
          (any-map (has_succeeded eid sid) q f (t.step_executions db) apart h)

    end_step-IsDone :
        (args : RunArgs) (step : Step) (id : String) (result : StepResult)
        (st : State p World execute_step to_json)
        → IsDone st.db
        → IsDone (end_step p World execute_step to_json args step id result st).1.db
    unfolding end_step
    end_step-IsDone args step id (step_done result) st h =
        rw ((t.create_log_lem _ _).1) (update-IsDone _ _ st.db (not_mine id args.worker_id) h)
    end_step-IsDone args step id (step_threw thrown) st h =
        update-IsDone _ _ st.db (not_mine id args.worker_id) h

    end_step_called :
        (args : RunArgs) (step : Step) (id : String) (result : StepResult)
        (st : State p World execute_step to_json)
        → (end_step p World execute_step to_json args step id result st).1.called ≡ st.called
    unfolding end_step
    end_step_called args step id (step_done result) st = refl
    end_step_called args step id (step_threw thrown) st = refl

    create-IsDone : (n : NewStep) (db : p.Db) → IsDone db → IsDone (p.create_step n db).1
    create-IsDone n db h = rw ((t.create_step_lem n db).1) (ground arith)

    claim_step-IsDone :
        (args : RunArgs) (step : Step) (payload : Json) (db : p.Db)
        → IsDone db
        → IsDone (claim_step p World execute_step to_json args step payload db).2
    unfolding claim_step
    claim_step-IsDone args step payload db h =
        update-IsDone _ _ _ (not_claimed _)
          (create-IsDone _ _ (rw ((t.update_executions_lem _ _ db).2) h))

    -- And the run has not executed it.
    abbrev IsSpared : State p World execute_step to_json → Type 0
    IsSpared st = IsDone st.db × (includes st.called sid ≡ false)

    attempt_step-IsSpared :
        (args : RunArgs) (step : Step) (payload : Json) (st : State p World execute_step to_json)
        → (step.id =ₛ sid) ≡ false
        → IsSpared st
        → IsSpared (attempt_step p World execute_step to_json args step payload st).1
    unfolding attempt_step
    attempt_step-IsSpared args step payload st other (done, spared) =
        let claim = claim_step p World execute_step to_json args step payload st.db in
        let kept = claim_step-IsDone args step payload st.db done in
        elim (Bool-cases (claim.1 == 0)) [
          | inl lost ↦ rw (lost, attempt_step) (kept, spared)
          | inr won ↦
              rw (won, attempt_step)
                (
                  end_step-IsDone args step claim.0 _ _ kept,
                  ap (λ ids. includes ids sid) (end_step_called args step claim.0 _ _)
                      ∙ rw (other, spared) refl,
                )
        ]

    not_found_differs :
        (args : RunArgs) (step : Step) (db : p.Db)
        → args.execution_id ≡ eid
        → IsDone db
        → p.find_step (has_succeeded args.execution_id step.id) db ≡ none
        → (step.id =ₛ sid) ≡ false
    not_found_differs args step db same done missing = ne→test step.id sid (λ e.
        let rows = t.step_executions db in
        false≢true (
          sym (ap is_some missing)
          ∙ t.find_step_lem _ db
          ∙ ap (λ i. any (has_succeeded i step.id) rows) same
          ∙ ap (λ i. any (has_succeeded eid i) rows) e
          ∙ done))

    run_steps-IsSpared :
        (args : RunArgs) (from : ℕ) (steps : List Step) (payload : Json)
        (st : State p World execute_step to_json)
        → args.execution_id ≡ eid
        → IsSpared st
        → IsSpared (run_steps p World execute_step to_json args from steps payload st).1
    unfolding run_steps
    run_steps-IsSpared args from [] payload st same h = h
    run_steps-IsSpared args from (step ∷ rest) payload st same h =
        elim (Bool-cases (ltb step.step_order from)) [
          | inl early ↦ rw (early, run_steps) (run_steps-IsSpared args from rest payload st same h)
          | inr due ↦
              rw (due, run_steps)
                (elim (Option-cases (p.find_step (has_succeeded args.execution_id step.id) st.db)) [
                  | inr (done, found) ↦ rw found (
                      run_steps-IsSpared args from rest
                        (add_output payload step.step_order done.output) st same h)
                  | inl new ↦
                      rw new
                        (elim (Bool-cases (is_busy p World execute_step to_json args step st.db)) [
                          | inl busy ↦ rw busy (run_steps-IsSpared args from rest payload st same h)
                          | inr free ↦
                              let tried =
                                attempt_step p World execute_step to_json args step payload st in
                              let kept =
                                attempt_step-IsSpared args step payload st
                                  (not_found_differs args step st.db same h.0 new) h in
                              rw free (elim (Attempt-cases tried.0) [
                                | inl none_claimed ↦
                                    rw none_claimed
                                      (run_steps-IsSpared args from rest payload tried.1 same kept)
                                | inr (inl (result, fine)) ↦ rw fine (
                                    run_steps-IsSpared args from rest
                                      (add_output payload step.step_order result) tried.1 same kept)
                                | inr (inr (thrown, bad)) ↦ rw bad kept
                              ])
                        ])
                ])
        ]

    end_run_called :
        (args : RunArgs) (e : LoopEnd) (st : State p World execute_step to_json)
        → (end_run p World execute_step to_json args (e, st)).1.called ≡ st.called
    unfolding end_run
    end_run_called args (went_through payload) st = refl
    end_run_called args (loop_threw thrown) st = refl

    claim_run-IsDone :
        (args : RunArgs) (loaded : Loaded) (db : p.Db)
        → IsDone db
        → IsDone (claim_run p World execute_step to_json args loaded db).1
    unfolding claim_run
    claim_run-IsDone args loaded db h =
        rw ((t.update_executions_lem _ _ _).2) (rw ((t.create_audit_lem _ db).1) h)

    run_loaded_spares :
        (args : RunArgs) (loaded : Loaded) (st : State p World execute_step to_json)
        → args.execution_id ≡ eid
        → IsSpared st
        → includes (run_loaded p World execute_step to_json args loaded st).1.called sid ≡ false
    unfolding run_loaded
    run_loaded_spares args loaded st same (done, spared) =
        let claim = claim_run p World execute_step to_json args loaded st.db in
        elim (Bool-cases (claim.0 == 0)) [
          | inl lost ↦ rw (lost, run_loaded) spared
          | inr won ↦
              rw (won, run_loaded)
                (ap (λ ids. includes ids sid) (end_run_called args _ _)
                  ∙ (run_steps-IsSpared args loaded.execution.current_step loaded.steps
                      (start_payload loaded.execution.metadata) (record st { db = claim.1 }) same
                      (claim_run-IsDone args loaded st.db done, spared)).1)
        ]

module _ (p : Prisma) (t : Tables p) (World : Type 0)
    (execute_step : Step → Json → World → StepResult × World) (to_json : HttpStepError → Json) where
  -- A step that has a SUCCEEDED row for the execution when a run starts is not executed by the run,
  -- whatever the other steps do.
  pub execute_execution_spares :
      (args : RunArgs) (step_id : String) (st : State p World execute_step to_json)
      → any (has_succeeded args.execution_id step_id) (t.step_executions st.db) ≡ true
      → includes st.called step_id ≡ false
      → includes (execute_execution p World execute_step to_json args st).1.called step_id ≡ false
  unfolding execute_execution
  execute_execution_spares args step_id st done spared =
      elim (Option-cases (p.find_execution args.execution_id args.tenant_id st.db)) [
        | inl missing ↦ rw (missing, execute_execution) spared
        | inr (loaded, found) ↦
            rw (found, execute_execution)
              (run_loaded_spares args.execution_id step_id p t World execute_step to_json args
                loaded st refl (done, spared))
      ]
