-- ===== src/Engine/Finished.antt =====
-- Runs of executions that are finished.
use forge_gate.Base.{any, false, ◌≡◌, refl, ◌∙◌, ap, ◌⊎◌, inl, inr, Option-cases}
use forge_gate.Js.Json.{Json}
use forge_gate.Step.Classifier.{HttpStepError}
use forge_gate.Engine.{not_found, aborted, claimable}
use forge_gate.Engine.Database.{Step, Loaded, Prisma, Tables}
use forge_gate.Engine.Run.{StepResult, RunArgs, State, claim_run, run_loaded, execute_execution}
use forge_gate.Engine.Rows.{map_none}

module _ (p : Prisma) (t : Tables p) (World : Type 0)
    (execute_step : Step → Json → World → StepResult × World) (to_json : HttpStepError → Json) where
  claim_run_finished :
      (args : RunArgs) (loaded : Loaded) (db : p.Db)
      → any (claimable args.execution_id) (t.executions db) ≡ false
      → let claim = claim_run p World execute_step to_json args loaded db in
        (claim.0 ≡ 0)
        × (t.executions claim.1 ≡ t.executions db)
        × (t.step_executions claim.1 ≡ t.step_executions db)
  unfolding claim_run
  claim_run_finished args loaded db finished =
      let (log_executions, log_steps) = t.create_audit_lem _ db in
      let (count, rows, steps) = t.update_executions_lem _ _ _ in
      let (same, zero) =
        map_none _ _ _ (ap (any (claimable args.execution_id)) log_executions ∙ finished) in
      (count ∙ zero, rows ∙ same ∙ log_executions, steps ∙ log_steps)

  run_loaded_finished :
      (args : RunArgs) (loaded : Loaded) (st : State p World execute_step to_json)
      → any (claimable args.execution_id) (t.executions st.db) ≡ false
      → let ran = run_loaded p World execute_step to_json args loaded st in
        ((ran.0 ≡ not_found) ⊎ (ran.0 ≡ aborted))
        × (ran.1.called ≡ st.called)
        × (t.executions ran.1.db ≡ t.executions st.db)
        × (t.step_executions ran.1.db ≡ t.step_executions st.db)
  unfolding run_loaded
  run_loaded_finished args loaded st finished =
      let (none_claimed, rows, steps) = claim_run_finished args loaded st.db finished in
      rw (none_claimed, run_loaded) (inr refl, refl, rows, steps)

  -- A run of an execution that is finished, that is, whose rows are all completed or failed, or that
  -- is not there, leaves both tables as they are and executes no step.
  pub execute_execution_finished :
      (args : RunArgs) (st : State p World execute_step to_json)
      → any (claimable args.execution_id) (t.executions st.db) ≡ false
      → let ran = execute_execution p World execute_step to_json args st in
        ((ran.0 ≡ not_found) ⊎ (ran.0 ≡ aborted))
        × (ran.1.called ≡ st.called)
        × (t.executions ran.1.db ≡ t.executions st.db)
        × (t.step_executions ran.1.db ≡ t.step_executions st.db)
  unfolding execute_execution
  execute_execution_finished args st finished =
      elim (Option-cases (p.find_execution args.execution_id args.tenant_id st.db)) [
        | inl missing ↦ rw (missing, execute_execution) (inl refl, refl, refl, refl)
        | inr (loaded, found) ↦
            rw (found, execute_execution) (run_loaded_finished args loaded st finished)
      ]
