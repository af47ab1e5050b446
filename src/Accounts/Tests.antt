-- ===== src/Accounts/Tests.antt =====
-- Accounts in memory, with a hash and tokens that are readable, and runs of the service on them.
use forge_gate.Base.{
  String, ◌<>◌, true, false, Option, none, some, List, [], ◌∷◌, map, count_of, find, update_row,
  ◌≡◌, refl, sym, ap, ◌=ₛ◌, if◌then◌else◌, eq_refl, ne→test, some_eq, ◌∙◌, Bool-cases, inl, inr,
}
use forge_gate.Js.Text.{or_text}
use forge_gate.Js.Json.{undefined, text_field, object_fields, text, object, field, no_fields}
use forge_gate.Idempotency.Redis.{answered}
use forge_gate.Accounts.{
  RegisterDto, LoginDto, LoginContext, Tenant, Role, User, NewUser, RefreshToken, AccountAuditRow,
  unauthorized, Fresh, Client, Stores,
}
use forge_gate.Accounts.Laws.{Stored, Hashes, Reads, Refreshes}
use forge_gate.Accounts.Revocation.{jti_of, is_live_token_of, verify_token, revoke_token}
use forge_gate.Accounts.Logout.{revoke_token_revokes}
use forge_gate.Accounts.Audited.{
  Audits, IsMasked, Request, to_register, to_create_key, serve_all, serve_all-IsMasked,
}

abbrev acme : Tenant
acme = record { id = "t1"; name = "Acme"; slug = "acme" }

-- The tables; there is one tenant.
record Tables : Type 0 where
  users : List User
  roles : List Role
  refresh_tokens : List RefreshToken
  audit_log : List AccountAuditRow

abbrev user_of_new : NewUser → User
user_of_new new = record {
  id = "u:" <> new.email;
  email = new.email;
  name = new.name;
  password_hash = some new.password_hash;
  is_active = true;
  tenant_id = new.tenant_id;
  tenant = acme;
  role = record { id = new.role_id; name = new.role_id };
}

abbrev Keys : Type 0
Keys = String → Option String

abbrev client : Client
client = record {
  Db = Tables;
  Server = Keys;
  find_user = λ email db. find (λ u. u.email =ₛ email) db.users;
  create_user = λ new db. (user_of_new new, record db { users = user_of_new new ∷ db.users });
  update_user_role = λ id role_id db. (none, db);
  find_tenant = λ slug db. some acme;
  create_tenant = λ name slug db. (acme, db);
  update_tenant_row = λ id u db. (none, db);
  find_role = λ name db. some (record { id = name; name = name });
  create_role = λ name d db. (record { id = name; name = name }, db);
  create_refresh_token = λ t db. record db { refresh_tokens = t ∷ db.refresh_tokens };
  update_refresh_tokens =
      λ of f db. record db { refresh_tokens = map (update_row of f) db.refresh_tokens };
  create_audit = λ a db. record db { audit_log = a ∷ db.audit_log };
  users = record { row_id = λ u. u.id; count = λ keep db. 0; find_many = λ keep a db. [] };
  tenants = record { row_id = λ u. u.id; count = λ keep db. 0; find_many = λ keep a db. [] };
  audit_rows = record { row_id = λ a. ""; count = λ keep db. 0; find_many = λ keep a db. [] };
  setex = λ key ttl value s. (true, λ q. if key =ₛ q then some value else s q);
  get = λ key s. answered (s key);
  hash = λ salt plain. or_text plain "-";
  verify_hash = λ hashed plain. some (hashed =ₛ or_text plain "-");
  sign = λ payload lifetime at. lifetime;
  verify = λ token now. none;
  decode =
      λ token. if token =ₛ "with id" then object (field "jti" (text "j1") no_fields) else undefined;
}

same_role :
    (name : String) (r : Role) → some (record { id = name; name = name }) ≡ some r → r.name ≡ r.id
same_role name r h = sym (ap (λ x. x.name) (some_eq _ r h)) ∙ ap (λ x. x.id) (some_eq _ r h)

same_name :
    (name : String) (r : Role) → some (record { id = name; name = name }) ≡ some r → r.name ≡ name
same_name name r h = sym (ap (λ x. x.name) (some_eq _ r h))

abbrev stored : Stored client
stored = record {
  HasTenant = λ t db. t ≡ acme;
  HasRole = λ r db. r.name ≡ r.id;
  find_tenant_lem = λ slug db t h. cc;
  create_tenant_lem = λ name slug db. refl;
  find_role_lem = λ name db r h. same_role name r h;
  find_role_name = λ name db r h. same_name name r h;
  create_role_lem = λ name d db. refl;
  create_role_name = λ name d db. refl;
  create_role_tenants = λ name d db t h. h;
  create_user_email = λ new db. refl;
  create_user_hash = λ new db. refl;
  create_user_active = λ new db. refl;
  create_user_tenant = λ new db t h same. sym h;
  create_user_role = λ new db r h same. rw same (ap (λ n. record { id = r.id; name = n }) (sym h));
  create_user_lem = λ new db. rw (eq_refl new.email) refl;
  create_audit_users = λ a db email. refl;
  create_refresh_token_users = λ t db email. refl;
}

hash_there : (plain : String) → (or_text plain "-" =ₛ "") ≡ false
hash_there plain = elim (Bool-cases (plain =ₛ "")) [ inl h ↦ rw h refl | inr h ↦ rw h h ]

abbrev hashes : Hashes client
hashes = record {
  verify_lem = λ salt plain. rw (eq_refl (or_text plain "-")) refl;
  hash_there = λ salt plain. hash_there plain;
}

abbrev reads : Reads client
reads = record {
  setex_lem = λ key value ttl s ok. rw (eq_refl key) refl;
  setex_other = λ key q value ttl s other. rw (ne→test key q (λ e. other (sym e))) refl;
}

abbrev refreshes : Refreshes client
refreshes = record {
  tokens = λ db. db.refresh_tokens;
  update_lem = λ of f db. refl;
  create_audit_tokens = λ a db. refl;
}

abbrev log : Audits client
log = record {
  rows = λ db. db.audit_log;
  create_audit_lem = λ a db. refl;
  create_user_lem = λ new db. refl;
  update_user_lem = λ id role_id db. refl;
  create_tenant_lem = λ name slug db. refl;
  update_tenant_lem = λ id u db. refl;
  create_role_lem = λ name d db. refl;
  create_token_lem = λ t db. refl;
  update_tokens_lem = λ of f db. refl;
}

abbrev new_tables : Tables
new_tables = record { users = []; roles = []; refresh_tokens = []; audit_log = [] }

abbrev ann : RegisterDto
ann = record {
  email = "ann@acme";
  password = "pw";
  name = "Ann";
  tenant_slug = "acme";
  tenant_name = "";
  role_name = "admin";
}

abbrev fresh : Fresh
fresh = record { salt = "s1"; token_salt = "s2"; now = 1000 }

abbrev context : LoginContext
context = record { ip_address = "10.0.0.1"; user_agent = ""; correlation_id = "" }

abbrev wrong : LoginDto
wrong = record { email = "ann@acme"; password = "no" }

abbrev live : RefreshToken
live = record { user_id = "u1"; token_hash = "h"; expires_at = 9; revoked = false }

abbrev stores : Stores client
stores = record { db = record new_tables { refresh_tokens = live ∷ [] }; server = λ q. none }

revoke_token_revokes_example :
    let after = (revoke_token client "t" "u1" "t1" stores).1 in
    (verify_token client "t" 5 after.server ≡ unauthorized "Token has been revoked")
    × (count_of (is_live_token_of "u1") (refreshes.tokens after.db) ≡ 0)
unfolding jti_of text_field object_fields
revoke_token_revokes_example =
    revoke_token_revokes client reads refreshes "t" "u1" "t1" 5 stores refl refl

abbrev two_requests : List Request
two_requests = to_register ann fresh ∷ to_create_key "t1" "u1" "ci" 1000 1001 ∷ []

serve_all-IsMasked_example : IsMasked client log (serve_all client two_requests stores).db
serve_all-IsMasked_example = serve_all-IsMasked client log two_requests stores tt
