-- ===== src/Js/Json.antt =====
-- JSON values. An object's fields stand in their order, with different names.
use forge_gate.Base.{ℕ, zero, suc, false, String, Option, none, some, ◌=ₛ◌, if◌then◌else◌}
use forge_gate.Base.Int.{ℤ, pos}
use forge_gate.Base.{Bool}
use forge_gate.Js.Decimal.{show}

mutual
  pub data Json : Type 0 where
    undefined null : Json
    boolean : Bool → Json
    number : ℤ → Json
    text : String → Json
    array : Items → Json
    object : Fields → Json

  pub data Items : Type 0 where
    no_items : Items
    item : Json → Items → Items

  pub data Fields : Type 0 where
    no_fields : Fields
    field : String → Json → Fields → Fields

-- `fields[key] = value`
unfoldable pub set_field : String → Json → Fields → Fields
set_field key value no_fields = field key value no_fields
set_field key value (field k v rest) =
    let after = set_field key value rest in
    if k =ₛ key then field key value rest else field k v after

-- The fields of `{ ...[a, b] }`.
unfoldable pub index_fields : ℕ → Items → Fields
index_fields n no_items = no_fields
index_fields n (item v rest) = field (show n) v (index_fields (suc n) rest)

-- `payload && typeof payload === 'object' ? payload : {}`, as fields.
unfoldable pub object_fields : Json → Fields
unfolding index_fields
object_fields (object fs) = fs
object_fields (array xs) = index_fields 0 xs
object_fields _ = no_fields

-- A field that holds a text, if there is one: `fields.key`.
unfoldable pub text_field : String → Fields → Option String
text_field key no_fields = none
text_field key (field k (text s) rest) =
    let after = text_field key rest in if k =ₛ key then some s else after
text_field key (field k v rest) =
    let after = text_field key rest in if k =ₛ key then none else after

-- `fields.key`, `undefined` where it is missing.
unfoldable pub get_field : String → Fields → Json
get_field key no_fields = undefined
get_field key (field k v rest) = let found = get_field key rest in if k =ₛ key then v else found

-- A text; the empty one is falsy, as a missing one is.
abbrev pub text_of : Json → Option String
text_of (text s) = some s
text_of _ = none

-- `v || d`
unfoldable pub or_json : Json → Json → Json
or_json undefined d = d
or_json null d = d
or_json (boolean false) d = d
or_json (number (pos zero)) d = d
or_json (text s) d = if s =ₛ "" then d else text s
or_json v d = v
