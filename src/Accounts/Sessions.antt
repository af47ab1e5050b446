-- ===== src/Accounts/Sessions.antt =====
-- `register`, `login` and what they stand on.
use forge_gate.Base.{ℕ, ◌+◌, String, Bool, true, false, Option, none, some, ◌=ₛ◌, if◌then◌else◌}
use forge_gate.Js.Text.{or_text, or_text?}
use forge_gate.Js.Json.{Json, text, object, no_fields, field}
use forge_gate.Sanitize.{sanitize_audit_metadata}
use forge_gate.Accounts.{
  RegisterDto, LoginDto, LoginContext, Tenant, Role, User, RefreshToken, AccountAudit, UserView,
  Tokens, Session, AuthReply, done, bad_request, unauthorized, not_found, crashed, Fresh, Client,
}

-- `text || null`
abbrev text_or_null : String → Option String
text_or_null s = if s =ₛ "" then none else some s

-- An entry of the audit log with no more than who did what.
abbrev pub plain_audit : (tenant_id user_id action : String) → Json → AccountAudit
plain_audit tenant_id user_id action metadata = record {
  tenant_id = tenant_id;
  user_id = user_id;
  action = action;
  correlation_id = "";
  ip_address = "";
  user_agent = "";
  metadata = metadata;
}

abbrev pub view_of : User → Tenant → String → UserView
view_of u tenant role = record {
  id = u.id;
  email = u.email;
  name = u.name;
  tenant = tenant;
  role = role;
}

abbrev pub claims_of : (user_id email role tenant_id : String) → Json
claims_of user_id email role tenant_id = object (
    field "sub" (text user_id) (
      field "email" (text email)
        (field "role" (text role) (field "tenantId" (text tenant_id) no_fields))))

-- Seven days in milliseconds.
abbrev pub refresh_ms : ℕ
refresh_ms = 604800000

-- What was found, or what is made where nothing was.
unfoldable pub found_or {ℓ} : {A : Type ℓ} {Db : Type 0} → Option A → (Db → A × Db) → Db → A × Db
found_or (some a) make db = (a, db)
found_or none make db = make db

module _ (c : Client) where
  -- `recordAuditLog`
  unfoldable pub record_account_audit : AccountAudit → c.Db → c.Db
  record_account_audit p db =
      c.create_audit
        (record {
          tenant_id = text_or_null p.tenant_id;
          user_id = text_or_null p.user_id;
          action = p.action;
          correlation_id = text_or_null p.correlation_id;
          ip_address = text_or_null p.ip_address;
          user_agent = text_or_null p.user_agent;
          metadata = sanitize_audit_metadata p.metadata;
        })
        db

  -- `generateTokens`
  unfoldable pub generate_tokens :
      (user_id email role tenant_id : String) → Fresh → c.Db → Tokens × c.Db
  generate_tokens user_id email role tenant_id fresh db =
      let access = c.sign (claims_of user_id email role tenant_id) "15m" fresh.now in
      let refresh = c.sign (object (field "sub" (text user_id) no_fields)) "7d" fresh.now in
      let row : RefreshToken = record {
        user_id = user_id;
        token_hash = c.hash fresh.token_salt refresh;
        expires_at = fresh.now + refresh_ms;
        revoked = false;
      } in
      (record { access_token = access; refresh_token = refresh }, c.create_refresh_token row db)

  unfoldable pub resolve_tenant : RegisterDto → c.Db → Tenant × c.Db
  unfolding found_or
  resolve_tenant dto db =
      let slug = or_text dto.tenant_slug "default-tenant" in
      let name = or_text dto.tenant_name (or_text dto.tenant_slug "Default Tenant") in
      found_or (c.find_tenant slug db) (c.create_tenant name slug) db

  unfoldable pub resolve_role : String → Option String → c.Db → Role × c.Db
  unfolding found_or
  resolve_role name description db =
      found_or (c.find_role name db) (c.create_role name description) db

  -- The end of `register`: the entry in the audit log, and the tokens.
  unfoldable pub open_session :
      User → Tenant → (role : String) → AccountAudit → Fresh → c.Db → AuthReply Session × c.Db
  open_session u tenant role audit fresh db =
      let made =
        generate_tokens u.id u.email role tenant.id fresh (record_account_audit audit db) in
      (done (record { user = view_of u tenant role; tokens = made.0 }), made.1)

  -- `register` from the tenant on.
  unfoldable pub register_new : RegisterDto → Fresh → c.Db → AuthReply Session × c.Db
  register_new dto fresh db =
      let tenant = resolve_tenant dto db in
      let role = resolve_role (or_text dto.role_name "user") (some "Standard user role") tenant.1 in
      let user =
        c.create_user
          (record {
            email = dto.email;
            name = dto.name;
            password_hash = c.hash fresh.salt dto.password;
            tenant_id = tenant.0.id;
            role_id = role.0.id;
          })
          role.1 in
      let metadata =
        object (field "email" (text user.0.email) (field "role" (text role.0.name) no_fields)) in
      open_session user.0 tenant.0 role.0.name
        (plain_audit tenant.0.id user.0.id "user.registered" metadata) fresh user.1

  -- `register`
  unfoldable pub register : RegisterDto → Fresh → c.Db → AuthReply Session × c.Db
  unfolding register_new
  register dto fresh db = elim (c.find_user dto.email db) [
    | some existing ↦ (bad_request "User with this email already exists", db)
    | none ↦ register_new dto fresh db
  ]

  unfoldable pub check_verified : User → Option Bool → AuthReply User
  check_verified u none = crashed
  check_verified u (some false) = unauthorized "Invalid credentials"
  check_verified u (some true) = if u.is_active then done u else unauthorized "Account is disabled"

  -- The checks of `login` on the user that was found, or not.
  unfoldable pub check_login : Option User → (password : String) → AuthReply User
  unfolding check_verified
  check_login none password = unauthorized "Invalid credentials"
  check_login (some u) password =
      let hashed = or_text? u.password_hash "" in
      if hashed =ₛ ""
      then unauthorized "Invalid credentials"
      else check_verified u (c.verify_hash hashed password)

  unfoldable pub login_checked :
      AuthReply User → LoginContext → Fresh → c.Db → AuthReply Session × c.Db
  login_checked (done u) ctx fresh db =
      let audit : AccountAudit = record {
        tenant_id = u.tenant_id;
        user_id = u.id;
        action = "user.login";
        correlation_id = ctx.correlation_id;
        ip_address = ctx.ip_address;
        user_agent = ctx.user_agent;
        metadata = object (field "email" (text u.email) no_fields);
      } in
      let made =
        generate_tokens u.id u.email u.role.name u.tenant_id fresh
          (record_account_audit audit db) in
      (done (record { user = view_of u u.tenant u.role.name; tokens = made.0 }), made.1)
  login_checked (bad_request m) ctx fresh db = (bad_request m, db)
  login_checked (unauthorized m) ctx fresh db = (unauthorized m, db)
  login_checked (not_found m) ctx fresh db = (not_found m, db)
  login_checked crashed ctx fresh db = (crashed, db)

  -- `login`
  unfoldable pub login : LoginDto → LoginContext → Fresh → c.Db → AuthReply Session × c.Db
  unfolding check_login
  login dto ctx fresh db =
      login_checked (check_login (c.find_user dto.email db) dto.password) ctx fresh db
