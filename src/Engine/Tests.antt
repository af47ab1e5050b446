-- ===== src/Engine/Tests.antt =====
-- Runs on a database in memory.
use forge_gate.Base.{
  String, false, none, List, [], ◌∷◌, ◌≡◌, refl, ◌⊎◌, ◌=ₛ◌, if◌then◌else◌, includes,
}
use forge_gate.Js.Json.{Json, undefined, null, object, no_fields}
use forge_gate.Step.Classifier.{HttpStepError}
use forge_gate.Step.Retry.{other}
use forge_gate.Engine.{not_found, aborted}
use forge_gate.Engine.Database.{running, completed, step_succeeded, Execution, Step, StepExecution}
use forge_gate.Engine.Run.{StepResult, step_done, step_threw, RunArgs, State, execute_execution}
use forge_gate.Engine.Rows.{Follows}
use forge_gate.Engine.History.{execute_execution-Follows}
use forge_gate.Engine.Calls.{execute_execution_spares}
use forge_gate.Engine.Finished.{execute_execution_finished}
use forge_gate.Engine.Memory.{new_row, memory, memory_tables}

-- A step gives an empty object, and the second step throws.
abbrev one_fails : Step → Json → List String → StepResult × List String
one_fails step input w =
    (if step.id =ₛ "s2" then step_threw (other "boom") else step_done (object no_fields), w)

abbrev no_json : HttpStepError → Json
no_json e = null

abbrev e1 : Execution
e1 = record {
  id = "e1";
  tenant_id = "acme";
  workflow_id = "w";
  status = running;
  current_step = 1;
  metadata = undefined;
  started_at = none;
  completed_at = none;
  version = 3;
}

abbrev s1_done : StepExecution
s1_done =
    record (new_row "0" (record {
      execution_id = "e1";
      step_id = "s1";
      attempt = 1;
      input = null;
      worker_id = "w1";
    })) { status = step_succeeded }

abbrev args : RunArgs
args = record {
  execution_id = "e1";
  tenant_id = "acme";
  attempt_count = 1;
  correlation_id = none;
  worker_id = "w1";
  now = 1000;
}

abbrev start : State memory (List String) one_fails no_json
start = record {
  db = record { executions = e1 ∷ []; step_executions = s1_done ∷ [] };
  world = [];
  called = [];
}

abbrev start_finished : State memory (List String) one_fails no_json
start_finished = record {
  db = record {
    executions = record e1 { status = completed } ∷ [];
    step_executions = s1_done ∷ [];
  };
  world = [];
  called = [];
}

execute_execution-Follows_example : Follows "e1" (e1 ∷ []) (
    memory_tables.executions
      (execute_execution memory (List String) one_fails no_json args start).1.db)
execute_execution-Follows_example =
    execute_execution-Follows memory memory_tables (List String) one_fails no_json args start

execute_execution_spares_example :
    includes (execute_execution memory (List String) one_fails no_json args start).1.called "s1"
    ≡ false
execute_execution_spares_example =
    execute_execution_spares memory memory_tables (List String) one_fails no_json args "s1" start
      refl refl

execute_execution_finished_example :
    let ran = execute_execution memory (List String) one_fails no_json args start_finished in
    ((ran.0 ≡ not_found) ⊎ (ran.0 ≡ aborted))
    × (ran.1.called ≡ [])
    × (ran.1.db.executions ≡ start_finished.db.executions)
    × (ran.1.db.step_executions ≡ start_finished.db.step_executions)
execute_execution_finished_example =
    execute_execution_finished memory memory_tables (List String) one_fails no_json args
      start_finished refl
