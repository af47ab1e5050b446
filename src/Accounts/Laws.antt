-- ===== src/Accounts/Laws.antt =====
-- What the accounts rely on of the database, of Redis and of argon2.
use forge_gate.Base.{
  ℕ, String, Bool, true, false, Option, some, List, map, ◌≡◌, ◌≢◌, update_row, ◌=ₛ◌,
}
use forge_gate.Idempotency.Redis.{answered}
use forge_gate.Accounts.{Tenant, Role, NewUser, RefreshToken, AccountAuditRow, Client}

-- The rows that the commands create and find.
pub record Stored (c : Client) : Type 1 where
  -- The row stands in its table.
  pub HasTenant : Tenant → c.Db → Type 0
  pub HasRole : Role → c.Db → Type 0
  pub find_tenant_lem :
      (slug : String) (db : c.Db) (t : Tenant) → c.find_tenant slug db ≡ some t → HasTenant t db
  pub create_tenant_lem :
      (name slug : String) (db : c.Db)
      → HasTenant (c.create_tenant name slug db).0 (c.create_tenant name slug db).1
  pub find_role_lem :
      (name : String) (db : c.Db) (r : Role) → c.find_role name db ≡ some r → HasRole r db
  pub find_role_name :
      (name : String) (db : c.Db) (r : Role) → c.find_role name db ≡ some r → r.name ≡ name
  pub create_role_lem :
      (name : String) (d : Option String) (db : c.Db)
      → HasRole (c.create_role name d db).0 (c.create_role name d db).1
  pub create_role_name :
      (name : String) (d : Option String) (db : c.Db) → (c.create_role name d db).0.name ≡ name
  pub create_role_tenants :
      (name : String) (d : Option String) (db : c.Db) (t : Tenant)
      → HasTenant t db
      → HasTenant t (c.create_role name d db).1
  -- A new user has the values that it was given, is active, and comes with its tenant and its role.
  pub create_user_email : (new : NewUser) (db : c.Db) → (c.create_user new db).0.email ≡ new.email
  pub create_user_hash :
      (new : NewUser) (db : c.Db) → (c.create_user new db).0.password_hash ≡ some new.password_hash
  pub create_user_active : (new : NewUser) (db : c.Db) → (c.create_user new db).0.is_active ≡ true
  pub create_user_tenant :
      (new : NewUser) (db : c.Db) (t : Tenant)
      → HasTenant t db
      → new.tenant_id ≡ t.id
      → (c.create_user new db).0.tenant ≡ t
  pub create_user_role :
      (new : NewUser) (db : c.Db) (r : Role)
      → HasRole r db
      → new.role_id ≡ r.id
      → (c.create_user new db).0.role ≡ r
  pub create_user_lem :
      (new : NewUser) (db : c.Db)
      → c.find_user new.email (c.create_user new db).1 ≡ some (c.create_user new db).0
  -- The other tables are none of the users'.
  pub create_audit_users :
      (a : AccountAuditRow) (db : c.Db) (email : String)
      → c.find_user email (c.create_audit a db) ≡ c.find_user email db
  pub create_refresh_token_users :
      (t : RefreshToken) (db : c.Db) (email : String)
      → c.find_user email (c.create_refresh_token t db) ≡ c.find_user email db

-- argon2 accepts the text that was hashed, and gives no empty hash.
pub record Hashes (c : Client) : Type 0 where
  pub verify_lem : (salt text : String) → c.verify_hash (c.hash salt text) text ≡ some true
  pub hash_there : (salt text : String) → (c.hash salt text =ₛ "") ≡ false

-- What `setex` has set is read until it expires, and no other key is changed.
pub record Reads (c : Client) : Type 0 where
  pub setex_lem :
      (key value : String) (ttl : ℕ) (s : c.Server)
      → (c.setex key ttl value s).0 ≡ true
      → c.get key (c.setex key ttl value s).1 ≡ answered (some value)
  pub setex_other :
      (key q value : String) (ttl : ℕ) (s : c.Server)
      → q ≢ key
      → c.get q (c.setex key ttl value s).1 ≡ c.get q s

-- The table of refresh tokens, which the audit log does not change.
pub record Refreshes (c : Client) : Type 0 where
  pub tokens : c.Db → List RefreshToken
  pub update_lem :
      (of : RefreshToken → Bool) (f : RefreshToken → RefreshToken) (db : c.Db)
      → tokens (c.update_refresh_tokens of f db) ≡ map (update_row of f) (tokens db)
  pub create_audit_tokens :
      (a : AccountAuditRow) (db : c.Db) → tokens (c.create_audit a db) ≡ tokens db
