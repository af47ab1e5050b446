-- ===== src/Auth/Guards/Identity.antt =====
-- Whose identity a request has once the guards let it through.
use forge_gate.Base.{String, ◌≡◌, true, arith, not, ◌&&◌, ◌||◌, ◌=ₛ◌, Bool-cases, inl, inr}
use forge_gate.Js.Text.{or_text?}
use forge_gate.Js.Split.{first, split, second}
use forge_gate.Auth.Guards.{
  Request, Verdict, granted, denied, Decoded, throws, falsy, payload, is_identified, from_headers,
  from_claims, from_token, from_authorization, authorization, jwt_can_activate,
}

abbrev pub IsIdentified : Verdict → Type 0
IsIdentified (granted r) = is_identified r.user ≡ true
IsIdentified (denied _) = Unit

from_headers-IsIdentified : (request : Request) → IsIdentified (from_headers request)
unfolding from_headers
from_headers-IsIdentified request =
    elim (Bool-cases (
      not (or_text? (request.headers "x-user-id") "" =ₛ "")
      && not (or_text? (request.headers "x-tenant-id") "" =ₛ ""))) [
        | inl named ↦ rw named named
        | inr unnamed ↦ rw unnamed tt
      ]

from_claims-IsIdentified : (request : Request) (d : Decoded) → IsIdentified (from_claims request d)
unfolding from_claims
from_claims-IsIdentified request throws = tt
from_claims-IsIdentified request falsy = tt
from_claims-IsIdentified request (payload c) =
    elim (Bool-cases (c.sub =ₛ "" || c.tenant_id =ₛ "")) [
      | inl missing ↦ rw missing tt
      | inr full ↦ rw full (ground arith)
    ]

module _ (decode : String → Decoded) where
  from_token-IsIdentified :
      (request : Request) (token : String) → IsIdentified (from_token decode request token)
  unfolding from_token
  from_token-IsIdentified request token =
      elim (Bool-cases (or_text? (second (split b'.' token)) "" =ₛ "")) [
        | inl missing ↦ rw missing tt
        | inr full ↦
            rw full
              (from_claims-IsIdentified request (decode (or_text? (second (split b'.' token)) "")))
      ]

  from_authorization-IsIdentified :
      (request : Request) (header : String)
      → IsIdentified (from_authorization decode request header)
  unfolding from_authorization
  from_authorization-IsIdentified request header =
      let token = or_text? (second (split b' ' header)) "" in
      elim (Bool-cases (
        not (or_text? (first (split b' ' header)) "" =ₛ "Bearer")
        || or_text? (second (split b' ' header)) "" =ₛ "")) [
          | inl bad ↦ rw bad tt
          | inr good ↦ rw good (from_token-IsIdentified request token)
        ]

  -- A request that the guard lets through has a user with an id and a tenant, neither of them
  -- empty.
  pub jwt_can_activate-IsIdentified :
      (request : Request) → IsIdentified (jwt_can_activate decode request)
  unfolding jwt_can_activate
  jwt_can_activate-IsIdentified request = elim (Bool-cases (is_identified request.user)) [
    | inl known ↦ rw known known
    | inr unknown ↦ elim (Bool-cases (authorization request =ₛ "")) [
      | inl absent ↦ rw unknown (rw absent (from_headers-IsIdentified request))
      | inr given ↦
          rw unknown (rw given (from_authorization-IsIdentified request (authorization request)))
    ]
  ]
