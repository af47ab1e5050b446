-- ===== src/Auth/Policy/Roles.antt =====
-- What each role may do, and that no role reaches over the border of its tenant.
use forge_gate.Base.{
  String, ◌≡◌, refl, ◌≢◌, ◌↔◌, ◌⊎◌, true, false, Option, none, some, arith, eq_iff, ne_of_test, inl,
  inr,
}
use forge_gate.Js.Text.{to_lower}
use forge_gate.Auth.Policy.{
  UserContext, AuthorizationAction, workflow_create, workflow_read, workflow_update,
  workflow_delete, workflow_execute, execution_read, ResourceSubject, can, can_as, crosses_tenant,
  may_change,
}

-- A resource that is not there, that names no tenant, or that is the user's tenant's.
abbrev pub InTenant : UserContext → Option ResourceSubject → Type 0
InTenant user none = Unit
InTenant user (some r) = (r.tenant_id ≡ "") ⊎ (r.tenant_id ≡ user.tenant_id)

-- A resource that is not there, that names no creator, or that the user created.
abbrev pub Owns : UserContext → Option ResourceSubject → Type 0
Owns user none = Unit
Owns user (some r) = (r.created_by_id ≡ "") ⊎ (r.created_by_id ≡ user.id)

abbrev pub IsMember : String → Type 0
IsMember role = (role ≡ "workflow_owner") ⊎ ((role ≡ "user") ⊎ (role ≡ "moderator"))

abbrev pub IsOperator : String → Type 0
IsOperator role = (role ≡ "admin") ⊎ ((role ≡ "operator") ⊎ IsMember role)

-- The permissions by action: which roles may do it, and whether they must own the resource.
abbrev pub Grants : String → Type 0 → AuthorizationAction → Type 0
Grants role owns workflow_read = (role ≡ "viewer") ⊎ IsOperator role
Grants role owns execution_read = (role ≡ "viewer") ⊎ IsOperator role
Grants role owns workflow_execute = IsOperator role
Grants role owns workflow_create = (role ≡ "admin") ⊎ IsMember role
Grants role owns workflow_update = (role ≡ "admin") ⊎ (IsMember role × owns)
Grants role owns workflow_delete = (role ≡ "admin") ⊎ (IsMember role × owns)

may_change_iff :
    (user : UserContext) (r : Option ResourceSubject) → (may_change user r ≡ true) ↔ Owns user r
unfolding may_change
may_change_iff user none = ((λ _. tt), λ _. refl)
may_change_iff user (some r) =
    ground (arith, eq_iff r.created_by_id "", eq_iff r.created_by_id user.id)

roles_differ :
    (◌≢◌ {A = String} "viewer" "operator")
    × (◌≢◌ {A = String} "viewer" "workflow_owner")
    × (◌≢◌ {A = String} "viewer" "user")
    × (◌≢◌ {A = String} "viewer" "moderator")
    × (◌≢◌ {A = String} "operator" "workflow_owner")
    × (◌≢◌ {A = String} "operator" "user")
    × (◌≢◌ {A = String} "operator" "moderator")
roles_differ = (
  ne_of_test "viewer" "operator" refl,
  ne_of_test "viewer" "workflow_owner" refl,
  ne_of_test "viewer" "user" refl,
  ne_of_test "viewer" "moderator" refl,
  ne_of_test "operator" "workflow_owner" refl,
  ne_of_test "operator" "user" refl,
  ne_of_test "operator" "moderator" refl,
)

can_as_iff :
    (role : String) (user : UserContext) (a : AuthorizationAction) (r : Option ResourceSubject)
    → (can_as role user a r ≡ true) ↔ Grants role (may_change user r ≡ true) a
unfolding can_as
can_as_iff role user workflow_create r = ground (
  arith,
  roles_differ,
  eq_iff role "admin",
  eq_iff role "viewer",
  eq_iff role "operator",
  eq_iff role "workflow_owner",
  eq_iff role "user",
  eq_iff role "moderator",
)
can_as_iff role user _ r = ground (
  arith,
  roles_differ,
  eq_iff role "admin",
  eq_iff role "viewer",
  eq_iff role "operator",
  eq_iff role "workflow_owner",
  eq_iff role "user",
  eq_iff role "moderator",
)

InTenant-iff :
    (user : UserContext) (r : Option ResourceSubject)
    → (crosses_tenant user r ≡ false) ↔ InTenant user r
unfolding crosses_tenant
InTenant-iff user none = ((λ _. tt), λ _. refl)
InTenant-iff user (some r) =
    ground (arith, eq_iff r.tenant_id "", eq_iff r.tenant_id user.tenant_id)

Grants-map :
    (role : String) {P Q : Type 0} (a : AuthorizationAction)
    → (P → Q)
    → Grants role P a
    → Grants role Q a
Grants-map role workflow_update f (inl h) = inl h
Grants-map role workflow_update f (inr (h, p)) = inr (h, f p)
Grants-map role workflow_delete f (inl h) = inl h
Grants-map role workflow_delete f (inr (h, p)) = inr (h, f p)
Grants-map role workflow_create f g = g
Grants-map role workflow_read f g = g
Grants-map role workflow_execute f g = g
Grants-map role execution_read f g = g

-- An action is allowed exactly when the user has a role and a tenant, the resource does not belong
-- to another tenant, and the table of permissions grants the action to the role in small letters.
pub can_iff :
    (user : UserContext) (a : AuthorizationAction) (r : Option ResourceSubject)
    → (can user a r ≡ true) ↔ (
        (user.role ≢ "")
        × (user.tenant_id ≢ "")
        × InTenant user r
        × Grants (to_lower user.role) (Owns user r) a)
unfolding can
can_iff user a r =
    let role = to_lower user.role in
    let (inside, inside') = InTenant-iff user r in
    let (owns, owns') = may_change_iff user r in
    let (granted, granted') = can_as_iff role user a r in
    (
      (λ h. (
        ground (arith, eq_iff user.role ""),
        ground (arith, eq_iff user.tenant_id ""),
        inside (ground arith),
        Grants-map role a owns (granted (ground arith)),
      )),
      λ (named, placed, within, table). ground (
        arith,
        eq_iff user.role "",
        eq_iff user.tenant_id "",
        inside' within,
        granted' (Grants-map role a owns' table),
      ),
    )
