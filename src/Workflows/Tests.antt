-- ===== src/Workflows/Tests.antt =====
-- A table of workflows in memory, and the operations on it.
use forge_gate.Base.{
  find, update_row, ℕ, String, not, ◌&&◌, Option, none, some, List, [], ◌∷◌, map, filter, ◌≡◌, refl,
  ◌=ₛ◌, length, take, drop, arith,
}
use forge_gate.Auth.Policy.{UserContext}
use forge_gate.Pagination.Query.{Table, Rows, since}
use forge_gate.Pagination.Cursors.{follow_cursors, follow_cursors-eq}
use forge_gate.Workflows.{Workflow, Client}
use forge_gate.Workflows.Stored.{of_others, Stored}
use forge_gate.Workflows.Isolation.{deletes, make_change, make_change-others}

abbrev row_of : String → String → Workflow
row_of id tenant_id = record {
  id = id;
  name = id;
  description = none;
  trigger_type = "webhook";
  created_by_id = "ann";
  tenant_id = tenant_id;
  steps = [];
}

find_from : Option String → ℕ → ℕ → List Workflow → List Workflow
find_from none skip n ws = take n (drop skip ws)
find_from (some id) skip n ws = take n (drop skip (since (λ w. w.id =ₛ id) ws))

abbrev table : Table (List Workflow) Workflow
table = record {
  row_id = λ w. w.id;
  count = λ keep db. length (filter keep db);
  find_many = λ keep a db. find_from a.cursor a.skip a.take_rows (filter keep db);
}

table_rows : Rows table
unfolding find_from
table_rows = record {
  rows = λ db. db;
  count_lem = λ keep db. refl;
  find_many_lem = λ keep skip n db. refl;
  find_many_from = λ keep id skip n db there. refl;
}

abbrev client : Client
client = record {
  Db = List Workflow;
  AuditRow = Unit;
  audit_tenant = λ a. none;
  workflows = table;
  audit_logs = record { row_id = λ a. ""; count = λ keep db. 0; find_many = λ keep a db. [] };
  create = λ new db.
      let row = record (row_of "new" new.tenant_id) { name = new.name } in (row, row ∷ db);
  find_first = λ id t db. find (λ w. w.id =ₛ id && w.tenant_id =ₛ t) db;
  find_unique = λ id db. find (λ w. w.id =ₛ id) db;
  update = λ id f db. (f (row_of id ""), map (update_row (λ w. w.id =ₛ id) f) db);
  remove = λ id db. filter (λ w. not (w.id =ₛ id)) db;
  create_audit = λ a db. db;
}

abbrev stored : Stored client
stored = record {
  rows = λ db. db;
  find_first_lem = λ id t db. refl;
  create_lem = λ new db keep h. rw h refl;
  create_tenant = λ new db. refl;
  update_lem = λ id f db. refl;
  delete_lem = λ id db. refl;
  create_audit_lem = λ a db. refl;
}

abbrev ann : UserContext
ann = record { id = "ann"; email = "ann@acme"; role = "admin"; tenant_id = "acme" }

abbrev three_rows : List Workflow
three_rows = row_of "w3" "acme" ∷ row_of "w2" "other" ∷ row_of "w1" "acme" ∷ []

follow_cursors-eq_example :
    follow_cursors table table_rows (λ w. w.tenant_id =ₛ "acme") three_rows 1 3 none
    ≡ row_of "w3" "acme" ∷ row_of "w1" "acme" ∷ []
unfolding table_rows
follow_cursors-eq_example =
    follow_cursors-eq table table_rows (λ w. w.tenant_id =ₛ "acme") three_rows 1 3 (omega arith)
      (omega arith) (refl, (refl, tt)) (omega arith)

make_change-others_example :
    of_others "acme" (make_change client ann (deletes "w3") three_rows) ≡ row_of "w2" "other" ∷ []
make_change-others_example =
    make_change-others client stored ann (deletes "w3") three_rows (omega arith)
