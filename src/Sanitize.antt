-- ===== src/Sanitize.antt =====
-- `sanitizePayload` of apps/workflow-service/src/workflow-engine/workflow-engine.service.ts and
-- `sanitizeAuditMetadata` of packages/common/src/audit/audit-sanitizer.ts.
pub mod Payload
pub mod Audit
mod Tests
use forge_gate.Base.{
  ℕ, suc, String, Bool, true, false, ◌||◌, Option, none, some, List, [], ◌∷◌, includes, ◌≡◌, refl,
  sym, ◌==◌, if◌then◌else◌,
}
use Prim.Native.Char.{Char, code}
use forge_gate.Js.Text.{to_lower, contains}
use forge_gate.Js.Decimal.{show}
use forge_gate.Js.Json.{
  Json, undefined, null, boolean, number, text, array, object, Items, no_items, item, Fields,
  no_fields, field,
}

abbrev pub redacted : Json
redacted = text "[REDACTED]"

-- What becomes of a field's value: the mark if the name is sensitive.
abbrev pub mark : Bool → Json → Json
mark true v = redacted
mark false v = v

abbrev pub IsMarked : Bool → Json → Type 0 → Type 0
IsMarked true v P = v ≡ redacted
IsMarked false v P = P

-- A value in which, at every depth, each field whose name is sensitive holds the mark.
unfoldable mutual
  pub IsClean : (String → Bool) → Json → Type 0
  IsClean secret (array xs) = AreClean secret xs
  IsClean secret (object fs) = HasCleanFields secret fs
  IsClean secret _ = Unit

  pub AreClean : (String → Bool) → Items → Type 0
  AreClean secret no_items = Unit
  AreClean secret (item v rest) = IsClean secret v × AreClean secret rest

  pub HasCleanFields : (String → Bool) → Fields → Type 0
  HasCleanFields secret no_fields = Unit
  HasCleanFields secret (field k v rest) =
      IsMarked (secret k) v (IsClean secret v) × HasCleanFields secret rest

pub mark-IsMarked :
    (b : Bool) (v : Json) (P : Json → Type 0) → P v → IsMarked b (mark b v) (P (mark b v))
mark-IsMarked true v P p = refl
mark-IsMarked false v P p = p

pub mark-of_IsMarked :
    (b : Bool) (v v' : Json) (P : Type 0) → (P → v' ≡ v) → IsMarked b v P → mark b v' ≡ v
mark-of_IsMarked true v v' P same marked = sym marked
mark-of_IsMarked false v v' P same marked = same marked

abbrev payload_keys : List String
payload_keys =
    "authorization" ∷ "auth" ∷ "cookie" ∷ "x-api-key" ∷ "apikey" ∷ "token" ∷ "secret" ∷ "password"
    ∷ "bearer" ∷ "private_key" ∷ "access_token" ∷ []

-- `sensitiveKeys.includes(key.toLowerCase())`
unfoldable pub is_sensitive : String → Bool
is_sensitive key = includes payload_keys (to_lower key)

unfoldable mutual
  pub sanitize_payload : Json → Json
  sanitize_payload (array xs) = array (sanitize_items xs)
  sanitize_payload (object fs) = object (sanitize_fields fs)
  sanitize_payload v = v

  pub sanitize_items : Items → Items
  sanitize_items no_items = no_items
  sanitize_items (item v rest) = item (sanitize_payload v) (sanitize_items rest)

  pub sanitize_fields : Fields → Fields
  sanitize_fields no_fields = no_fields
  sanitize_fields (field k v rest) =
      field k (mark (is_sensitive k) (sanitize_payload v)) (sanitize_fields rest)

abbrev audit_keys : List String
audit_keys =
    "password" ∷ "passwordhash" ∷ "password_hash" ∷ "token" ∷ "accesstoken" ∷ "access_token"
    ∷ "refreshtoken" ∷ "refresh_token" ∷ "authorization" ∷ "authheader" ∷ "secret" ∷ "apikey"
    ∷ "api_key" ∷ "jwt" ∷ "cookie" ∷ "credentials" ∷ "privatekey" ∷ "private_key" ∷ []

-- `s.replace(/[-_]/g, '')`
unfoldable pub drop_dashes : String → String
drop_dashes String.[] = String.[]
drop_dashes (String.◌∷◌ c s) =
    let rest = drop_dashes s in if code c == 45 || code c == 95 then rest else String.◌∷◌ c rest

-- `keys.some(s => name.includes(s))`
unfoldable pub contains_some : List String → String → Bool
contains_some [] name = false
contains_some (s ∷ rest) name = contains name s || contains_some rest name

unfoldable pub is_sensitive_name : String → Bool
is_sensitive_name key =
    let name = drop_dashes (to_lower key) in
    includes audit_keys name || contains_some audit_keys name

-- `sanitizeAuditMetadata` on the fields of an object or of an array, on the value of a field that is
-- not sensitive, and on the items of such an array. An array among the items is read as an object.
unfoldable mutual
  pub audit_fields : Fields → Fields
  audit_fields no_fields = no_fields
  audit_fields (field k v rest) =
      field k (mark (is_sensitive_name k) (audit_value v)) (audit_fields rest)

  pub audit_value : Json → Json
  audit_value (object fs) = object (audit_fields fs)
  audit_value (array xs) = array (audit_items xs)
  audit_value v = v

  pub audit_items : Items → Items
  audit_items no_items = no_items
  audit_items (item (object fs) rest) = item (object (audit_fields fs)) (audit_items rest)
  audit_items (item (array xs) rest) = item (object (audit_indexed 0 xs)) (audit_items rest)
  audit_items (item v rest) = item v (audit_items rest)

  pub audit_indexed : ℕ → Items → Fields
  audit_indexed n no_items = no_fields
  audit_indexed n (item v rest) =
      field (show n) (mark (is_sensitive_name (show n)) (audit_value v))
        (audit_indexed (suc n) rest)

-- `undefined` where there is no metadata, or where it is not an object.
unfoldable pub sanitize_audit_metadata : Json → Option Json
unfolding audit_fields
sanitize_audit_metadata (object fs) = some (object (audit_fields fs))
sanitize_audit_metadata (array xs) = some (object (audit_indexed 0 xs))
sanitize_audit_metadata _ = none
