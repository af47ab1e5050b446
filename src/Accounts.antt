-- ===== src/Accounts.antt =====
-- apps/auth-service/src/auth.service.ts and redis.service.ts beside it. The database client, the Redis
-- client, argon2 and the JWT library are parameters. A missing text of a request is the empty one: the
-- code asks for both alike. `auditLog` is there.
pub mod Sessions
pub mod Revocation
pub mod Administration
pub mod Laws
pub mod Login
pub mod Logout
pub mod Registration
pub mod Audited
mod Tests
use forge_gate.Base.{ℕ, String, Bool, Option, none, some, List, ◌=ₛ◌}
use forge_gate.Js.Json.{Json}
use forge_gate.Pagination.Query.{Table}
use forge_gate.Idempotency.Redis.{Answer}

pub record RegisterDto : Type 0 where
  pub email : String
  pub password : String
  pub name : String
  pub tenant_slug : String
  pub tenant_name : String
  pub role_name : String

pub record LoginDto : Type 0 where
  pub email : String
  pub password : String

-- What a request to log in came with.
pub record LoginContext : Type 0 where
  pub ip_address : String
  pub user_agent : String
  pub correlation_id : String

pub record Tenant : Type 0 where
  pub id : String
  pub name : String
  pub slug : String

pub record Role : Type 0 where
  pub id : String
  pub name : String

-- A row with the tenant and the role that are included.
pub record User : Type 0 where
  pub id : String
  pub email : String
  pub name : String
  pub password_hash : Option String
  pub is_active : Bool
  pub tenant_id : String
  pub tenant : Tenant
  pub role : Role

-- What `getUsers` selects of a row.
pub record ListedUser : Type 0 where
  pub id : String
  pub email : String
  pub name : String
  pub tenant_id : String
  pub role_id : String
  pub is_active : Bool
  pub created_at : ℕ
  pub tenant : Tenant
  pub role : Role

pub record NewUser : Type 0 where
  pub email : String
  pub name : String
  pub password_hash : String
  pub tenant_id : String
  pub role_id : String

pub record RefreshToken : Type 0 where
  pub user_id : String
  pub token_hash : String
  pub expires_at : ℕ
  pub revoked : Bool

pub record TenantUpdates : Type 0 where
  pub name : Option String
  pub slug : Option String
  pub is_active : Option Bool
  pub whole : Json

pub record AccountAudit : Type 0 where
  pub tenant_id : String
  pub user_id : String
  pub action : String
  pub correlation_id : String
  pub ip_address : String
  pub user_agent : String
  pub metadata : Json

pub record AccountAuditRow : Type 0 where
  pub tenant_id : Option String
  pub user_id : Option String
  pub action : String
  pub correlation_id : Option String
  pub ip_address : Option String
  pub user_agent : Option String
  pub metadata : Option Json

pub record UserView : Type 0 where
  pub id : String
  pub email : String
  pub name : String
  pub tenant : Tenant
  pub role : String

pub record Tokens : Type 0 where
  pub access_token : String
  pub refresh_token : String

pub record Session : Type 0 where
  pub user : UserView
  pub tokens : Tokens

-- What an operation gives, or the exception that it throws: one of the framework's with its message,
-- or one that the code does not make.
pub data AuthReply {ℓ} (A : Type ℓ) : Type ℓ where
  done : A → AuthReply A
  bad_request unauthorized not_found : String → AuthReply A
  crashed : AuthReply A

-- The salts of argon2 and the clock of a call.
pub record Fresh : Type 0 where
  pub salt : String
  pub token_salt : String
  pub now : ℕ

pub record Client : Type 1 where
  pub Db : Type 0
  pub Server : Type 0
  pub find_user : (email : String) → Db → Option User
  pub create_user : NewUser → Db → User × Db
  -- By id; `none` where there is no such row, which throws.
  pub update_user_role : (id role_id : String) → Db → Option User × Db
  pub find_tenant : (slug : String) → Db → Option Tenant
  pub create_tenant : (name slug : String) → Db → Tenant × Db
  pub update_tenant_row : (id : String) → TenantUpdates → Db → Option Tenant × Db
  pub find_role : (name : String) → Db → Option Role
  pub create_role : (name : String) → Option String → Db → Role × Db
  pub create_refresh_token : RefreshToken → Db → Db
  pub update_refresh_tokens : (RefreshToken → Bool) → (RefreshToken → RefreshToken) → Db → Db
  pub create_audit : AccountAuditRow → Db → Db
  -- In the order of the listings: the last created first.
  pub users : Table Db ListedUser
  pub tenants : Table Db Tenant
  pub audit_rows : Table Db AccountAuditRow
  -- `setex(key, ttl, value)`: whether it does not throw.
  pub setex : (key : String) → ℕ → (value : String) → Server → Bool × Server
  pub get : (key : String) → Server → Answer (Option String)
  -- argon2, with the salt written out; `none` where `verify` throws.
  pub hash : (salt text : String) → String
  pub verify_hash : (hashed text : String) → Option Bool
  -- The JWT library: the payload, the lifetime and the time of a token; `none` where it throws.
  pub sign : Json → (lifetime : String) → ℕ → String
  pub verify : String → ℕ → Option Json
  pub decode : String → Json

pub record Stores (c : Client) : Type 0 where
  pub db : c.Db
  pub server : c.Server
