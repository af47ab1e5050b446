-- ===== src/Auth/Tests.antt =====
-- Runs of the policy and of the guards, and their theorems at inputs where the hypotheses hold.
use forge_gate.Base.{◌<>◌, ◌≡◌, refl, ◌≢◌, ◌↔◌, true, false, none, some, [], ◌∷◌}
use forge_gate.Js.Text.{to_lower}
use forge_gate.Auth.Policy.{
  UserContext, workflow_read, workflow_update, workflow_delete, ResourceSubject, can, can_as,
  crosses_tenant,
}
use forge_gate.Auth.Policy.Roles.{InTenant, Owns, Grants, can_iff}
use forge_gate.Auth.Guards.{
  denied, forbidden, Claims, payload, jwt_can_activate, roles_can_activate,
}
use forge_gate.Auth.Guards.Identity.{IsIdentified, jwt_can_activate-IsIdentified}
use forge_gate.Auth.Guards.Trust.{bearer}

abbrev owner : UserContext
owner = record { id = "u1"; email = "u1@a.test"; role = "Workflow_Owner"; tenant_id = "t1" }

abbrev own : ResourceSubject
own = record { tenant_id = "t1"; created_by_id = "u1" }

abbrev foreign : ResourceSubject
foreign = record { tenant_id = "t2"; created_by_id = "u1" }

policy_runs :
    (can owner workflow_delete (some own) ≡ true)
    × (can owner workflow_delete (some (record own { created_by_id = "u2" })) ≡ false)
    × (can owner workflow_read (some foreign) ≡ false)
    × (can (record owner { role = "viewer" }) workflow_update none ≡ false)
unfolding can can_as crosses_tenant to_lower
policy_runs = (refl, refl, refl, refl)

can_iff_example : (can owner workflow_update (some own) ≡ true) ↔ (
    (owner.role ≢ "")
    × (owner.tenant_id ≢ "")
    × InTenant owner (some own)
    × Grants (to_lower owner.role) (Owns owner (some own)) workflow_update)
can_iff_example = can_iff owner workflow_update (some own)

abbrev mallory : Claims
mallory = record { sub = "m"; email = ""; role = "admin"; tenant_id = "t1" }

roles_run :
    roles_can_activate (some ("admin" ∷ [])) (record (bearer "x") { user = some owner })
    ≡ denied (forbidden ("Role '" <> owner.role <> "' is not authorized for this resource"))
unfolding roles_can_activate
roles_run = refl

jwt_can_activate-IsIdentified_example :
    IsIdentified (jwt_can_activate (λ _. payload mallory) (bearer "h.p.s"))
jwt_can_activate-IsIdentified_example =
    jwt_can_activate-IsIdentified (λ _. payload mallory) (bearer "h.p.s")
