-- ===== src/Auth/Guards.antt =====
-- guards/jwt-auth.guard.ts and guards/roles.guard.ts. A guard gives the request, with the user that
-- it attached, or the exception. Decoding base64 and parsing JSON belong to the platform: `decode`
-- is a parameter, and its claims are texts, the empty one where a claim is missing.
pub mod Identity
pub mod Trust
use forge_gate.Base.{
  String, ◌<>◌, Bool, true, false, not, ◌&&◌, ◌||◌, Option, none, some, List, [], or_default,
  includes, ◌=ₛ◌, if◌then◌else◌,
}
use forge_gate.Js.Text.{or_text, or_text?}
use forge_gate.Js.Split.{split, first, second}
use forge_gate.Auth.Policy.{UserContext}

pub record Request : Type 0 where
  pub user : Option UserContext
  pub headers : String → Option String

-- The exceptions, with their messages.
pub data Denied : Type 0 where
  unauthorized forbidden : String → Denied

pub data Verdict : Type 0 where
  granted : Request → Verdict
  denied : Denied → Verdict

pub record Claims : Type 0 where
  pub sub : String
  pub email : String
  pub role : String
  pub tenant_id : String

-- What `JSON.parse(Buffer.from(part, 'base64').toString('utf-8'))` does: it throws, or gives `null`
-- or another falsy value, or an object with claims.
pub data Decoded : Type 0 where
  throws falsy : Decoded
  payload : Claims → Decoded

-- `request.user && request.user.id && request.user.tenantId`
abbrev pub is_identified : Option UserContext → Bool
is_identified none = false
is_identified (some u) = not (u.id =ₛ "") && not (u.tenant_id =ₛ "")

attach : Request → UserContext → Verdict
attach request user = granted (record request { user = some user })

-- A header by either spelling; the empty text where it is missing.
authorization : Request → String
authorization request =
    or_text? (request.headers "authorization") (or_text? (request.headers "Authorization") "")

-- Without the header: the identity that the `x-user-…` headers state.
from_headers : Request → Verdict
unfolding attach
from_headers request =
    let id = or_text? (request.headers "x-user-id") "" in
    let tenant = or_text? (request.headers "x-tenant-id") "" in
    let role = or_text? (request.headers "x-user-role") "user" in
    if not (id =ₛ "") && not (tenant =ₛ "")
    then attach request
        (record { id = id; email = id <> "@forgegate.internal"; role = role; tenant_id = tenant })
    else denied (unauthorized "Missing authorization token")

-- The user that a decoded token stands for.
from_claims : Request → Decoded → Verdict
unfolding attach
from_claims request throws = denied (unauthorized "Failed to authenticate token")
from_claims request falsy = denied (unauthorized "Invalid JWT payload claims")
from_claims request (payload c) =
    if c.sub =ₛ "" || c.tenant_id =ₛ ""
    then denied (unauthorized "Invalid JWT payload claims")
    else attach request (record {
      id = c.sub;
      email = c.email;
      role = or_text c.role "user";
      tenant_id = c.tenant_id;
    })

module _ (decode : String → Decoded) where
  -- `token.split('.')[1]`, decoded.
  from_token : Request → String → Verdict
  unfolding from_claims
  from_token request token =
      let part = or_text? (second (split b'.' token)) "" in
      if part =ₛ ""
      then denied (unauthorized "Malformed JWT token")
      else from_claims request (decode part)

  -- `const [scheme, token] = authHeader.split(' ')`
  from_authorization : Request → String → Verdict
  unfolding from_token
  from_authorization request header =
      let pieces = split b' ' header in
      let token = or_text? (second pieces) "" in
      if not (or_text? (first pieces) "" =ₛ "Bearer") || token =ₛ ""
      then denied (unauthorized "Invalid authorization header format")
      else from_token request token

  unfoldable pub jwt_can_activate : Request → Verdict
  unfolding authorization from_headers from_authorization
  jwt_can_activate request =
      if is_identified request.user
      then granted request
      else if authorization request =ₛ ""
      then from_headers request
      else from_authorization request (authorization request)

abbrev pub user_of : Verdict → Option UserContext
user_of (granted r) = r.user
user_of (denied _) = none

-- `RolesGuard.canActivate`; the roles of the handler's decorator are an argument.
unfoldable pub roles_can_activate : Option (List String) → Request → Verdict
roles_can_activate none request = granted request
roles_can_activate (some []) request = granted request
roles_can_activate (some required) request = elim request.user [
  | none ↦ denied (forbidden "User context or role missing")
  | some u ↦
      if u.role =ₛ ""
      then denied (forbidden "User context or role missing")
      else if includes required u.role
      then granted request
      else denied (forbidden ("Role '" <> u.role <> "' is not authorized for this resource"))
]
