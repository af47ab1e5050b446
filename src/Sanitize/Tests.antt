-- ===== src/Sanitize/Tests.antt =====
-- Runs of the sanitizers.
use forge_gate.Base.{refl}
use forge_gate.Js.Text.{to_lower}
use forge_gate.Js.Json.{Json, text, array, object, no_items, item, no_fields, field}
use forge_gate.Sanitize.{redacted, IsClean, HasCleanFields, is_sensitive, sanitize_payload}
use forge_gate.Sanitize.Payload.{sanitize_payload-IsClean}

abbrev nested : Json
nested = object (
    field "Items" (array (item (object (field "Token" (text "abc") no_fields)) no_items)) no_fields)

abbrev cleaned : Json
cleaned = object (field "Token" redacted (field "name" (text "x") no_fields))

sanitize_payload-IsClean_example : IsClean is_sensitive (sanitize_payload nested)
sanitize_payload-IsClean_example = sanitize_payload-IsClean nested

cleaned-IsClean : IsClean is_sensitive cleaned
unfolding IsClean HasCleanFields is_sensitive to_lower
cleaned-IsClean = (refl, (tt, tt))
