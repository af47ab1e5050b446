-- ===== src/Accounts/Administration.antt =====
-- The operations on roles, tenants and keys, and the listings.
use forge_gate.Base.{ℕ, String, ◌<>◌, true, Option, none, some, List, [], ◌∷◌}
use forge_gate.Js.Text.{or_text}
use forge_gate.Js.Decimal.{show}
use forge_gate.Js.Json.{Json, text, array, object, Items, no_items, item, no_fields, field}
use forge_gate.Pagination.{PaginationQuery, PaginatedResult, parse_pagination_params}
use forge_gate.Pagination.Query.{page_of_rows}
use forge_gate.Workflows.{is_of_tenant}
use forge_gate.Accounts.{
  Tenant, User, ListedUser, TenantUpdates, AccountAuditRow, AuthReply, done, not_found, crashed,
  Client,
}
use forge_gate.Accounts.Sessions.{record_account_audit, plain_audit, resolve_role}

abbrev texts : List String → Items
texts [] = no_items
texts (s ∷ rest) = item (text s) (texts rest)

module _ (c : Client) where
  unfoldable pub role_changed :
      (target_id role_name actor_id tenant_id : String) → Option User × c.Db → AuthReply User × c.Db
  role_changed target_id role_name actor_id tenant_id (none, db) = (crashed, db)
  role_changed target_id role_name actor_id tenant_id (some u, db) =
      let metadata =
        object (
          field "targetUserId" (text target_id) (field "newRoleName" (text role_name) no_fields)) in
      (
        done u,
        record_account_audit c
            (plain_audit (or_text tenant_id u.tenant_id) (or_text actor_id target_id)
              "user.role_changed" metadata)
            db,
      )

  -- `changeUserRole`
  unfoldable pub change_user_role :
      (target_id role_name actor_id tenant_id : String) → c.Db → AuthReply User × c.Db
  unfolding role_changed
  change_user_role target_id role_name actor_id tenant_id db = elim (c.find_role role_name db) [
    | none ↦ (not_found ("Role " <> role_name <> " not found"), db)
    | some role ↦
        role_changed target_id role_name actor_id tenant_id
          (c.update_user_role target_id role.id db)
  ]

  -- `updateRolePermissions`: the name and the permissions that it was given.
  unfoldable pub update_role_permissions :
      (role_name : String)
      → List String
      → (actor_id tenant_id : String) → c.Db
      → (String × List String) × c.Db
  unfolding resolve_role
  update_role_permissions role_name permissions actor_id tenant_id db =
      let role = resolve_role c role_name none db in
      let metadata = object (
        field "roleName" (text role_name)
          (field "permissions" (array (texts permissions)) no_fields)) in
      (
        (role_name, permissions),
        record_account_audit c (plain_audit tenant_id actor_id "role.permissions_updated" metadata)
            role.1,
      )

  unfoldable pub tenant_updated :
      (tenant_id actor_id : String) → Json → Option Tenant × c.Db → AuthReply Tenant × c.Db
  tenant_updated tenant_id actor_id updates (none, db) = (crashed, db)
  tenant_updated tenant_id actor_id updates (some t, db) = (
    done t,
    record_account_audit c
        (plain_audit tenant_id actor_id "tenant.updated"
          (object (field "updates" updates no_fields)))
        db,
  )

  -- `updateTenant`
  unfoldable pub update_tenant :
      (tenant_id : String) → TenantUpdates → (actor_id : String) → c.Db → AuthReply Tenant × c.Db
  unfolding tenant_updated
  update_tenant tenant_id updates actor_id db =
      tenant_updated tenant_id actor_id updates.whole (c.update_tenant_row tenant_id updates db)

  -- `createApiKey`: the id and the key, at two readings of the clock.
  unfoldable pub create_api_key :
      (tenant_id user_id name : String) → (now later : ℕ) → c.Db → (String × String) × c.Db
  create_api_key tenant_id user_id name now later db =
      let key_id = "key-" <> show now in
      let secret = "test_placeholder_" <> show later in
      let metadata = object (
        field "keyId" (text key_id) (
          field "name" (text name)
            (field "last4Digits" (text "1234") (field "secret" (text secret) no_fields)))) in
      (
        (key_id, secret),
        record_account_audit c (plain_audit tenant_id user_id "apikey.created" metadata) db,
      )

  -- `getAuditLogs`, `getUsers` and `getTenants`
  unfoldable pub get_account_audit_logs :
      Option String → PaginationQuery → c.Db → PaginatedResult AccountAuditRow
  get_account_audit_logs tenant_id query db =
      page_of_rows c.audit_rows (λ row. is_of_tenant tenant_id row.tenant_id)
        (parse_pagination_params query) db

  unfoldable pub get_users : Option String → PaginationQuery → c.Db → PaginatedResult ListedUser
  get_users tenant_id query db =
      page_of_rows c.users (λ u. is_of_tenant tenant_id (some u.tenant_id))
        (parse_pagination_params query) db

  unfoldable pub get_tenants : PaginationQuery → c.Db → PaginatedResult Tenant
  get_tenants query db = page_of_rows c.tenants (λ t. true) (parse_pagination_params query) db
