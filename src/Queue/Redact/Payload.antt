-- ===== src/Queue/Redact/Payload.antt =====
-- `sanitizePayloadObject` of queue.service.ts leaves no field with a sensitive name as it was.
use forge_gate.Base.{String, Bool, List, [], ◌∷◌, includes}
use forge_gate.Js.Text.{to_lower}
use forge_gate.Js.Json.{
  Json, undefined, null, boolean, number, text, array, object, Items, no_items, item, Fields,
  no_fields, field,
}
use forge_gate.Sanitize.{mark, IsClean, AreClean, HasCleanFields, mark-IsMarked}
use forge_gate.Queue.Redact.{sanitize_payload_string}

abbrev sensitive_keys : List String
sensitive_keys =
    "authorization" ∷ "auth" ∷ "cookie" ∷ "x-api-key" ∷ "apikey" ∷ "api_key" ∷ "token" ∷ "secret"
    ∷ "password" ∷ "bearer" ∷ "jwt" ∷ "access_token" ∷ "refresh_token" ∷ "private_key"
    ∷ "credentials" ∷ []

-- `sensitiveKeys.includes(key.toLowerCase())`
unfoldable pub is_payload_secret : String → Bool
is_payload_secret key = includes sensitive_keys (to_lower key)

unfoldable mutual
  pub sanitize_payload_object : Json → Json
  sanitize_payload_object (text s) = text (sanitize_payload_string s)
  sanitize_payload_object (array xs) = array (sanitize_payload_items xs)
  sanitize_payload_object (object fs) = object (sanitize_payload_fields fs)
  sanitize_payload_object v = v

  pub sanitize_payload_items : Items → Items
  sanitize_payload_items no_items = no_items
  sanitize_payload_items (item v rest) =
      item (sanitize_payload_object v) (sanitize_payload_items rest)

  pub sanitize_payload_fields : Fields → Fields
  sanitize_payload_fields no_fields = no_fields
  sanitize_payload_fields (field k v rest) =
      field k (mark (is_payload_secret k) (sanitize_payload_object v))
        (sanitize_payload_fields rest)

mutual
  unfolding sanitize_payload_object sanitize_payload_items sanitize_payload_fields IsClean AreClean
      HasCleanFields

  object_IsClean : (v : Json) → IsClean is_payload_secret (sanitize_payload_object v)
  object_IsClean undefined = tt
  object_IsClean null = tt
  object_IsClean (boolean b) = tt
  object_IsClean (number n) = tt
  object_IsClean (text s) = tt
  object_IsClean (array xs) = items_AreClean xs
  object_IsClean (object fs) = fields_HaveCleanFields fs

  items_AreClean : (xs : Items) → AreClean is_payload_secret (sanitize_payload_items xs)
  items_AreClean no_items = tt
  items_AreClean (item v rest) = (object_IsClean v, items_AreClean rest)

  fields_HaveCleanFields :
      (fs : Fields) → HasCleanFields is_payload_secret (sanitize_payload_fields fs)
  fields_HaveCleanFields no_fields = tt
  fields_HaveCleanFields (field k v rest) = (
    mark-IsMarked (is_payload_secret k) (sanitize_payload_object v) (IsClean is_payload_secret)
        (object_IsClean v),
    fields_HaveCleanFields rest,
  )

-- At every depth of what `sanitizePayloadObject` gives, each field with a sensitive name holds the
-- mark.
pub sanitize_payload_object-IsClean :
    (v : Json) → IsClean is_payload_secret (sanitize_payload_object v)
sanitize_payload_object-IsClean v = object_IsClean v
