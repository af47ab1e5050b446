-- ===== src/Gateway/Forwarded.antt =====
-- A request that has come through the proxy, before the guard of the service.
use forge_gate.Base.{String, none, ◌≡◌, refl}
use forge_gate.Js.Text.{or_text?}
use forge_gate.Auth.Guards.{Request, unauthorized, denied, Decoded, jwt_can_activate}
use forge_gate.Gateway.{ServiceUrls, Incoming, forwarded_headers, config_of}

-- What the service gets.
abbrev pub received : ServiceUrls → Incoming → (generated : String) → Request
received urls i generated = record { user = none; headers = (config_of urls i generated).headers }

-- A request without a token that comes through the proxy is refused by the JWT guard, whatever its
-- other headers state.
pub jwt_can_activate-received :
    (decode : String → Decoded) (urls : ServiceUrls) (i : Incoming) (generated : String)
    → or_text? (i.headers "authorization") "" ≡ ""
    → jwt_can_activate decode (received urls i generated)
      ≡ denied (unauthorized "Missing authorization token")
unfolding jwt_can_activate config_of forwarded_headers
jwt_can_activate-received decode urls i generated without = rw without refl
