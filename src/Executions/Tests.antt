-- ===== src/Executions/Tests.antt =====
-- Triggers on a database and queues in memory.
use Prim.Native.Char.{Char, code}
use forge_gate.Base.{
  ap, arith, eq_refl, ◌+◌, ◌*◌, eq_iff, ne→test, Bool, false, Option, ℕ, suc, String, true, none,
  some, [], ◌≡◌, refl, ◌⊎◌, ◌=ₛ◌, if◌then◌else◌, ◌==◌,
}
use forge_gate.Js.Text.{trim, trim_start, trim_end, to_lower}
use forge_gate.Js.Json.{null}
use forge_gate.Js.Decimal.{show}
use forge_gate.Auth.Policy.{UserContext, workflow_execute, can, can_as, crosses_tenant}
use forge_gate.Queue.{add_execution_job, enqueue_workflow_execution}
use forge_gate.Idempotency.{
  RecordStatus, in_progress, completed, IdempotencyRecord, returned, gave, failed,
}
use forge_gate.Idempotency.Keys.{Keys, alive, server, alive-put, alive-del}
use forge_gate.Idempotency.Redis.{Codec, Shared, read_record}
use forge_gate.Idempotency.Works.{Works, IsLockFree, map_status}
use forge_gate.Queue.Memory.{bull, bull_jobs}
use forge_gate.Workflows.{Workflow, subject_of, is_denied}
use forge_gate.Executions.{
  TriggerExecutionDto, NewExecution, ExecutionRow, Triggered, Client, Creates, World, tenant_or,
  start_execution, execute_checked, execute_found, execute_operation, trigger_workflow,
}
use forge_gate.Executions.Trigger.{IsStarted, execute_operation_cases, trigger_workflow_again}

abbrev daily : Workflow
daily = record {
  id = "w1";
  name = "daily";
  description = none;
  trigger_type = "webhook";
  created_by_id = "ann";
  tenant_id = "acme";
  steps = [];
}

abbrev row_of : NewExecution → ℕ → ExecutionRow
row_of new n = record {
  id = show n;
  workflow_id = new.workflow_id;
  tenant_id = new.tenant_id;
  status = new.status;
}

-- The database counts the executions and has them by their id; there is one workflow, of one tenant.
abbrev client : Client
client = record {
  Db = ℕ × (String → Option ExecutionRow);
  LogRow = Unit;
  log_execution = λ l. "";
  find_workflow = λ id t db. (if t =ₛ "acme" then some daily else none);
  create_execution = λ new db. (
    row_of new db.0,
    (suc db.0, λ id. if id =ₛ show db.0 then some (row_of new db.0) else db.1 id),
  );
  find_execution = λ id db. db.1 id;
  executions = record { row_id = λ e. e.id; count = λ keep n. 0; find_many = λ keep a n. [] };
  logs = record { row_id = λ l. ""; count = λ keep n. 0; find_many = λ keep a n. [] };
}

abbrev ann : UserContext
ann = record { id = "ann"; email = "ann@acme"; role = "operator"; tenant_id = "acme" }

abbrev dto : TriggerExecutionDto
dto = record { tenant_id = ""; metadata = null }

abbrev creates : Creates client
creates = record {
  created = λ new db. refl;
  find_created = λ new db. rw (eq_refl (show db.0)) refl;
  find_others = λ new db id other. rw (ne→test id (show db.0) other) refl;
}

abbrev no_executions : client.Db
no_executions = (7, λ id. none)

abbrev idle : World client bull
idle = (no_executions, record { live = []; dead = [] })

execute_operation_cases_example :
    let out = execute_operation client bull "w1" dto (some ann) idle in
    ((message : String) × (out ≡ (failed message, idle)))
    ⊎ ((wf : Workflow) × (t : Triggered) × (client.find_workflow "w1" "acme" no_executions
          ≡ some wf)
        × (can ann workflow_execute (some (subject_of wf)) ≡ true)
        × (out.0 ≡ gave (some t))
        × IsStarted client bull bull_jobs wf ann t idle out.1)
execute_operation_cases_example =
    execute_operation_cases client bull creates bull_jobs "w1" dto ann idle refl

-- Records as texts: each character of a text behind a mark, and a dot at its end.
abbrev dot : Char
dot = "."

abbrev mark : Char
mark = "x"

encode : String → String → String
encode String.[] rest = String.◌∷◌ dot rest
encode (String.◌∷◌ a s) rest = String.◌∷◌ mark (String.◌∷◌ a (encode s rest))

abbrev with_char : Char → String × String → String × String
with_char a (s, rest) = (String.◌∷◌ a s, rest)

decode : String → String × String
decode String.[] = (String.[], String.[])
decode (String.◌∷◌ m String.[]) = (String.[], String.[])
decode (String.◌∷◌ m (String.◌∷◌ a more)) =
    let after = decode more in
    if code m == 46 then (String.[], String.◌∷◌ a more) else with_char a after

decode-encode : (s rest : String) → decode (encode s rest) ≡ (s, rest)
unfolding encode decode
decode-encode String.[] String.[] = refl
decode-encode String.[] (String.◌∷◌ a more) = refl
decode-encode (String.◌∷◌ a s) rest = rw (decode-encode s rest) refl

triggered_text : Triggered → String
triggered_text t = encode t.execution_id (encode t.status (encode t.job_id ""))

abbrev triggered_of : String → Triggered
triggered_of s =
    let one = decode s in
    let two = decode one.1 in
    record { execution_id = one.0; status = two.0; job_id = (decode two.1).0 }

triggered_of-text : (t : Triggered) → triggered_of (triggered_text t) ≡ t
unfolding triggered_text
triggered_of-text t =
    rw
      (
        decode-encode t.execution_id (encode t.status (encode t.job_id "")),
        decode-encode t.status (encode t.job_id ""),
        decode-encode t.job_id "",
      )
      refl

abbrev status_text : RecordStatus Triggered → String
status_text in_progress = "P"
status_text (completed none) = "N"
status_text (completed (some t)) = String.◌∷◌ mark (triggered_text t)

abbrev status_of : String → Option (IdempotencyRecord Triggered)
status_of String.[] = none
status_of (String.◌∷◌ a rest) = some (record {
  status =
      if code a == 80
      then in_progress
      else if code a == 78
      then completed none
      else completed (some (triggered_of rest));
  created_at = 0;
})

status_of-text :
    (status : RecordStatus Triggered) → map_status (status_of (status_text status)) ≡ some status
status_of-text in_progress = refl
status_of-text (completed none) = refl
status_of-text (completed (some t)) = ap (λ x. some (completed (some x))) (triggered_of-text t)

status_there : (status : RecordStatus Triggered) → (status_text status =ₛ "") ≡ false
status_there in_progress = refl
status_there (completed none) = refl
status_there (completed (some t)) = ne→test (status_text (completed (some t))) "" (λ e. cc)

abbrev codec : Codec Triggered
codec = record { parse = status_of; stringify = λ r. status_text r.status }

abbrev works : Works server codec
works = record {
  view = λ t s q. alive t (s q);
  get_lem = λ now k s. refl;
  set_ex_answers = λ now k v ttl s lasts. refl;
  set_ex_lem = λ now k v ttl s t q lasts. alive-put t k v (now + ttl * 1000) s q;
  set_nx_answers = λ now k v ttl s lasts new. rw new refl;
  set_nx_lem = λ now k v ttl s t q lasts new. rw new (alive-put t k v (now + ttl * 1000) s q);
  del_lem = λ now k s t q. alive-del t k s q;
  stringify_there = λ r. rw (status_there r.status) (rw (status_there r.status) refl);
  parse_lem = λ r. status_of-text r.status;
}

abbrev key_of_trigger : String
key_of_trigger = "idem:api:acme:trigger:w1:k1"

abbrev is_name : String → Bool
is_name q = q =ₛ key_of_trigger

is_name-IsLockFree : IsLockFree is_name
is_name-IsLockFree k h = rw ((eq_iff k key_of_trigger).0 h) refl

abbrev new_state : Shared Triggered (World client bull) Keys
new_state = record { server = λ q. none; memory = record { store = []; world = idle } }

abbrev started : Triggered
started = record { execution_id = "7"; status = "pending"; job_id = "j" }

trigger_workflow_again_example :
    let one =
      trigger_workflow client bull
        (some (server 1000))
        codec
        "w1"
        dto
        (some ann)
        "k1"
        1000
        []
        []
        new_state in
    let two =
      trigger_workflow client bull
        (some (server 2000))
        codec
        "w1"
        dto
        (some ann)
        "k1"
        2000
        []
        []
        one.1 in
    (one.0 ≡ returned (some started))
    × (two.0 ≡ returned (some started))
    × (one.1.memory.world ≡ (execute_operation client bull "w1" dto (some ann) idle).1)
    × (two.1.memory.world ≡ one.1.memory.world)
unfolding trim trim_start trim_end read_record tenant_or execute_operation execute_found
    execute_checked is_denied can crosses_tenant can_as to_lower start_execution show
    add_execution_job enqueue_workflow_execution
trigger_workflow_again_example =
    trigger_workflow_again client bull server codec works is_name "w1" dto dto (some ann) (some ann)
      "k1" 1000 2000 new_state (λ t q. none) started refl refl is_name-IsLockFree refl refl
      (λ t q there. (refl, refl)) refl (omega arith)
