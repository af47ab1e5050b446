-- ===== src/Sanitize/Payload.antt =====
-- `sanitizePayload` leaves no sensitive field, and has nothing more to do on what it gave.
use forge_gate.Base.{◌≡◌, refl}
use forge_gate.Js.Json.{
  Json, undefined, null, boolean, number, text, array, object, Items, no_items, item, Fields,
  no_fields, field,
}
use forge_gate.Sanitize.{
  mark-IsMarked, mark-of_IsMarked, IsClean, AreClean, HasCleanFields, is_sensitive,
  sanitize_payload, sanitize_items, sanitize_fields,
}

mutual
  unfolding sanitize_payload sanitize_items sanitize_fields IsClean AreClean HasCleanFields

  payload_IsClean : (v : Json) → IsClean is_sensitive (sanitize_payload v)
  payload_IsClean undefined = tt
  payload_IsClean null = tt
  payload_IsClean (boolean b) = tt
  payload_IsClean (number n) = tt
  payload_IsClean (text s) = tt
  payload_IsClean (array xs) = items_AreClean xs
  payload_IsClean (object fs) = fields_HaveCleanFields fs

  items_AreClean : (xs : Items) → AreClean is_sensitive (sanitize_items xs)
  items_AreClean no_items = tt
  items_AreClean (item v rest) = (payload_IsClean v, items_AreClean rest)

  fields_HaveCleanFields : (fs : Fields) → HasCleanFields is_sensitive (sanitize_fields fs)
  fields_HaveCleanFields no_fields = tt
  fields_HaveCleanFields (field k v rest) = (
    mark-IsMarked (is_sensitive k) (sanitize_payload v) (IsClean is_sensitive) (payload_IsClean v),
    fields_HaveCleanFields rest,
  )

mutual
  unfolding sanitize_payload sanitize_items sanitize_fields IsClean AreClean HasCleanFields

  payload_unchanged : (v : Json) → IsClean is_sensitive v → sanitize_payload v ≡ v
  payload_unchanged undefined clean = refl
  payload_unchanged null clean = refl
  payload_unchanged (boolean b) clean = refl
  payload_unchanged (number n) clean = refl
  payload_unchanged (text s) clean = refl
  payload_unchanged (array xs) clean = rw (items_unchanged xs clean) refl
  payload_unchanged (object fs) clean = rw (fields_unchanged fs clean) refl

  items_unchanged : (xs : Items) → AreClean is_sensitive xs → sanitize_items xs ≡ xs
  items_unchanged no_items clean = refl
  items_unchanged (item v rest) (here, there) =
      rw (payload_unchanged v here, items_unchanged rest there) refl

  fields_unchanged : (fs : Fields) → HasCleanFields is_sensitive fs → sanitize_fields fs ≡ fs
  fields_unchanged no_fields clean = refl
  fields_unchanged (field k v rest) (here, there) =
      rw
        (
          mark-of_IsMarked (is_sensitive k) v (sanitize_payload v) (IsClean is_sensitive v)
              (payload_unchanged v) here,
          fields_unchanged rest there,
        )
        refl

-- At every depth of what `sanitizePayload` gives, each field with a sensitive name holds the mark.
pub sanitize_payload-IsClean : (v : Json) → IsClean is_sensitive (sanitize_payload v)
sanitize_payload-IsClean v = payload_IsClean v

-- A value whose sensitive fields hold the mark already stays as it is.
pub sanitize_payload-of_IsClean : (v : Json) → IsClean is_sensitive v → sanitize_payload v ≡ v
sanitize_payload-of_IsClean v clean = payload_unchanged v clean
