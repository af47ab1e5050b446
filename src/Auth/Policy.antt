-- ===== src/Auth/Policy.antt =====
-- policy.engine.ts and interfaces/jwt-payload.interface.ts. A missing text is the empty one: both
-- are falsy, and the policy only tests for that. A missing resource is `none`.
pub mod Roles
use forge_gate.Base.{
  String, Bool, true, false, not, ◌&&◌, ◌||◌, Option, none, some, ◌=ₛ◌, if◌then◌else◌,
}
use forge_gate.Js.Text.{to_lower}

pub record UserContext : Type 0 where
  pub id : String
  pub email : String
  pub role : String
  pub tenant_id : String

pub data AuthorizationAction : Type 0 where
  workflow_create workflow_read workflow_update workflow_delete workflow_execute :
      AuthorizationAction
  execution_read : AuthorizationAction

pub record ResourceSubject : Type 0 where
  pub tenant_id : String
  pub created_by_id : String

abbrev is_falsy : String → Bool
is_falsy s = s =ₛ ""

abbrev is_read : AuthorizationAction → Bool
is_read workflow_read = true
is_read execution_read = true
is_read _ = false

abbrev is_execute : AuthorizationAction → Bool
is_execute workflow_execute = true
is_execute _ = false

abbrev is_create : AuthorizationAction → Bool
is_create workflow_create = true
is_create _ = false

abbrev is_change : AuthorizationAction → Bool
is_change workflow_update = true
is_change workflow_delete = true
is_change _ = false

-- `resource && resource.tenantId && resource.tenantId !== user.tenantId`
unfoldable pub crosses_tenant : UserContext → Option ResourceSubject → Bool
crosses_tenant user none = false
crosses_tenant user (some r) = not (is_falsy r.tenant_id) && not (r.tenant_id =ₛ user.tenant_id)

-- Who may change a resource: its creator, or anyone where it names no creator.
may_change : UserContext → Option ResourceSubject → Bool
may_change user none = true
may_change user (some r) = if is_falsy r.created_by_id then true else r.created_by_id =ₛ user.id

unfoldable pub can_as : String → UserContext → AuthorizationAction → Option ResourceSubject → Bool
unfolding may_change
can_as role user action resource =
    if role =ₛ "admin"
    then true
    else if role =ₛ "viewer"
    then is_read action
    else if role =ₛ "operator"
    then is_read action || is_execute action
    else if role =ₛ "workflow_owner" || role =ₛ "user" || role =ₛ "moderator"
    then if is_create action || is_read action || is_execute action
      then true
      else if is_change action
      then may_change user resource
      else false
    else false

-- `AuthorizationPolicy.can`, for a user that is there.
unfoldable pub can : UserContext → AuthorizationAction → Option ResourceSubject → Bool
can user action resource =
    if is_falsy user.role || is_falsy user.tenant_id
    then false
    else if crosses_tenant user resource
    then false
    else can_as (to_lower user.role) user action resource
