-- ===== src/Accounts/Audited.antt =====
-- The audit log of the accounts under any sequence of operations.
use forge_gate.Base.{
  ℕ, String, Bool, true, false, Option, none, some, List, [], ◌∷◌, All, ◌≡◌, Option-cases, inl, inr,
}
use forge_gate.Js.Text.{or_text}
use forge_gate.Js.Json.{Json}
use forge_gate.Sanitize.Audit.{MayBeLogged, sanitize_audit_metadata-MayBeLogged}
use forge_gate.Accounts.{
  RegisterDto, LoginDto, LoginContext, Tenant, User, NewUser, RefreshToken, TenantUpdates,
  AccountAudit, AccountAuditRow, AuthReply, done, bad_request, unauthorized, not_found, crashed,
  Fresh, Client, Stores,
}
use forge_gate.Accounts.Sessions.{
  found_or, record_account_audit, generate_tokens, resolve_tenant, resolve_role, open_session,
  register_new, register, login_checked, login,
}
use forge_gate.Accounts.Revocation.{after_blacklist, revoke_token}
use forge_gate.Accounts.Administration.{
  role_changed, change_user_role, update_role_permissions, tenant_updated, update_tenant,
  create_api_key,
}

-- The audit log, which only the commands of its table change.
pub record Audits (c : Client) : Type 0 where
  pub rows : c.Db → List AccountAuditRow
  pub create_audit_lem :
      (a : AccountAuditRow) (db : c.Db) → rows (c.create_audit a db) ≡ a ∷ rows db
  pub create_user_lem : (new : NewUser) (db : c.Db) → rows (c.create_user new db).1 ≡ rows db
  pub update_user_lem :
      (id role_id : String) (db : c.Db) → rows (c.update_user_role id role_id db).1 ≡ rows db
  pub create_tenant_lem :
      (name slug : String) (db : c.Db) → rows (c.create_tenant name slug db).1 ≡ rows db
  pub update_tenant_lem :
      (id : String) (u : TenantUpdates) (db : c.Db) → rows (c.update_tenant_row id u db).1 ≡ rows db
  pub create_role_lem :
      (name : String) (d : Option String) (db : c.Db) → rows (c.create_role name d db).1 ≡ rows db
  pub create_token_lem :
      (t : RefreshToken) (db : c.Db) → rows (c.create_refresh_token t db) ≡ rows db
  pub update_tokens_lem :
      (of : RefreshToken → Bool) (f : RefreshToken → RefreshToken) (db : c.Db)
      → rows (c.update_refresh_tokens of f db) ≡ rows db

-- A request to the service that may change its state.
pub data Request : Type 0 where
  to_register : RegisterDto → Fresh → Request
  to_login : LoginDto → LoginContext → Fresh → Request
  to_log_out : (token user_id tenant_id : String) → Request
  to_change_role : (target_id role_name actor_id tenant_id : String) → Request
  to_set_permissions : (role_name : String) → List String → (actor_id tenant_id : String) → Request
  to_update_tenant : (tenant_id : String) → TenantUpdates → (actor_id : String) → Request
  to_create_key : (tenant_id user_id name : String) → (now later : ℕ) → Request

module _ (c : Client) where
  unfoldable pub serve : Request → Stores c → Stores c
  serve (to_register dto fresh) s = record s { db = (register c dto fresh s.db).1 }
  serve (to_login dto ctx fresh) s = record s { db = (login c dto ctx fresh s.db).1 }
  serve (to_log_out token user_id tenant_id) s = (revoke_token c token user_id tenant_id s).1
  serve (to_change_role target_id role_name actor_id tenant_id) s = record s {
    db = (change_user_role c target_id role_name actor_id tenant_id s.db).1;
  }
  serve (to_set_permissions role_name permissions actor_id tenant_id) s = record s {
    db = (update_role_permissions c role_name permissions actor_id tenant_id s.db).1;
  }
  serve (to_update_tenant tenant_id updates actor_id) s = record s {
    db = (update_tenant c tenant_id updates actor_id s.db).1;
  }
  serve (to_create_key tenant_id user_id name now later) s = record s {
    db = (create_api_key c tenant_id user_id name now later s.db).1;
  }

  unfoldable pub serve_all : List Request → Stores c → Stores c
  unfolding serve
  serve_all [] s = s
  serve_all (r ∷ rs) s = serve_all rs (serve r s)

  module _ (log : Audits c) where
    -- No entry of the log has a sensitive field that is not masked.
    abbrev pub IsMasked : c.Db → Type 0
    IsMasked db = All (λ row. MayBeLogged row.metadata) (log.rows db)

    audit-IsMasked :
        (a : AccountAudit) (db : c.Db) → IsMasked db → IsMasked (record_account_audit c a db)
    unfolding record_account_audit
    audit-IsMasked a db h =
        rw (log.create_audit_lem) (sanitize_audit_metadata-MayBeLogged a.metadata, h)

    tokens-IsMasked :
        (user_id email role tenant_id : String) (fresh : Fresh) (db : c.Db)
        → IsMasked db
        → IsMasked (generate_tokens c user_id email role tenant_id fresh db).1
    unfolding generate_tokens
    tokens-IsMasked user_id email role tenant_id fresh db h = rw log.create_token_lem h

    role-IsMasked :
        (name : String) (d : Option String) (db : c.Db)
        → IsMasked db
        → IsMasked (resolve_role c name d db).1
    unfolding resolve_role found_or
    role-IsMasked name d db h = elim (Option-cases (c.find_role name db)) [
      | inl new ↦ rw (new, found_or) (rw log.create_role_lem h)
      | inr (r, there) ↦ rw (there, found_or) h
    ]

    tenant-IsMasked :
        (dto : RegisterDto) (db : c.Db) → IsMasked db → IsMasked (resolve_tenant c dto db).1
    unfolding resolve_tenant found_or
    tenant-IsMasked dto db h =
        elim (Option-cases (c.find_tenant (or_text dto.tenant_slug "default-tenant") db)) [
          | inl new ↦ rw (new, found_or) (rw log.create_tenant_lem h)
          | inr (t, there) ↦ rw (there, found_or) h
        ]

    register_new-IsMasked :
        (dto : RegisterDto) (fresh : Fresh) (db : c.Db)
        → IsMasked db
        → IsMasked (register_new c dto fresh db).1
    unfolding register_new open_session
    register_new-IsMasked dto fresh db h = tokens-IsMasked _ _ _ _ fresh _ (
        audit-IsMasked _ _
          (rw log.create_user_lem (role-IsMasked _ _ _ (tenant-IsMasked dto db h))))

    register-IsMasked :
        (dto : RegisterDto) (fresh : Fresh) (db : c.Db)
        → IsMasked db
        → IsMasked (register c dto fresh db).1
    unfolding register
    register-IsMasked dto fresh db h = elim (Option-cases (c.find_user dto.email db)) [
      | inl new ↦ rw (new, register) (register_new-IsMasked dto fresh db h)
      | inr (u, there) ↦ rw (there, register) h
    ]

    login_checked-IsMasked :
        (r : AuthReply User) (ctx : LoginContext) (fresh : Fresh) (db : c.Db)
        → IsMasked db
        → IsMasked (login_checked c r ctx fresh db).1
    unfolding login_checked
    login_checked-IsMasked (done u) ctx fresh db h =
        tokens-IsMasked _ _ _ _ fresh _ (audit-IsMasked _ db h)
    login_checked-IsMasked (bad_request m) ctx fresh db h = h
    login_checked-IsMasked (unauthorized m) ctx fresh db h = h
    login_checked-IsMasked (not_found m) ctx fresh db h = h
    login_checked-IsMasked crashed ctx fresh db h = h

    after_blacklist-IsMasked :
        (b : Bool) (user_id tenant_id : String) (s : Stores c)
        → IsMasked s.db
        → IsMasked (after_blacklist c b user_id tenant_id s).1.db
    unfolding after_blacklist
    after_blacklist-IsMasked false user_id tenant_id s h = h
    after_blacklist-IsMasked true user_id tenant_id s h =
        audit-IsMasked _ _ (audit-IsMasked _ _ (rw log.update_tokens_lem h))

    role_changed-IsMasked :
        (target_id role_name actor_id tenant_id : String) (o : Option User) (db : c.Db)
        → IsMasked db
        → IsMasked (role_changed c target_id role_name actor_id tenant_id (o, db)).1
    unfolding role_changed
    role_changed-IsMasked target_id role_name actor_id tenant_id none db h = h
    role_changed-IsMasked target_id role_name actor_id tenant_id (some u) db h =
        audit-IsMasked _ db h

    change_user_role-IsMasked :
        (target_id role_name actor_id tenant_id : String) (db : c.Db)
        → IsMasked db
        → IsMasked (change_user_role c target_id role_name actor_id tenant_id db).1
    unfolding change_user_role
    change_user_role-IsMasked target_id role_name actor_id tenant_id db h =
        elim (Option-cases (c.find_role role_name db)) [
          | inl new ↦ rw (new, change_user_role) h
          | inr (r, there) ↦
              rw (there, change_user_role)
                (role_changed-IsMasked target_id role_name actor_id tenant_id _
                  (c.update_user_role target_id r.id db).1 (rw log.update_user_lem h))
        ]

    tenant_updated-IsMasked :
        (tenant_id actor_id : String) (updates : Json) (o : Option Tenant) (db : c.Db)
        → IsMasked db
        → IsMasked (tenant_updated c tenant_id actor_id updates (o, db)).1
    unfolding tenant_updated
    tenant_updated-IsMasked tenant_id actor_id updates none db h = h
    tenant_updated-IsMasked tenant_id actor_id updates (some t) db h = audit-IsMasked _ db h

    serve-IsMasked : (r : Request) (s : Stores c) → IsMasked s.db → IsMasked (serve r s).db
    unfolding serve login revoke_token update_role_permissions update_tenant create_api_key
    serve-IsMasked (to_register dto fresh) s h = register-IsMasked dto fresh s.db h
    serve-IsMasked (to_login dto ctx fresh) s h = login_checked-IsMasked _ ctx fresh s.db h
    serve-IsMasked (to_log_out token user_id tenant_id) s h =
        after_blacklist-IsMasked _ user_id tenant_id _ h
    serve-IsMasked (to_change_role target_id role_name actor_id tenant_id) s h =
        change_user_role-IsMasked target_id role_name actor_id tenant_id s.db h
    serve-IsMasked (to_set_permissions role_name permissions actor_id tenant_id) s h =
        audit-IsMasked _ _ (role-IsMasked role_name none s.db h)
    serve-IsMasked (to_update_tenant tenant_id updates actor_id) s h =
        tenant_updated-IsMasked tenant_id actor_id updates.whole _
          (c.update_tenant_row tenant_id updates s.db).1 (rw log.update_tenant_lem h)
    serve-IsMasked (to_create_key tenant_id user_id name now later) s h = audit-IsMasked _ s.db h

    -- Where no entry of the audit log has a sensitive field that is not masked, none has after any
    -- sequence of requests.
    pub serve_all-IsMasked :
        (rs : List Request) (s : Stores c) → IsMasked s.db → IsMasked (serve_all rs s).db
    unfolding serve_all
    serve_all-IsMasked [] s h = h
    serve_all-IsMasked (r ∷ rs) s h = serve_all-IsMasked rs (serve r s) (serve-IsMasked r s h)
