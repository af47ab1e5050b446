-- ===== src/Sanitize/Audit.antt =====
-- `sanitizeAuditMetadata` leaves no sensitive field.
use forge_gate.Base.{ℕ, suc, Option, none, some}
use forge_gate.Js.Decimal.{show}
use forge_gate.Js.Json.{
  Json, undefined, null, boolean, number, text, array, object, Items, no_items, item, Fields,
  no_fields, field,
}
use forge_gate.Sanitize.{
  mark-IsMarked, IsClean, AreClean, HasCleanFields, is_sensitive_name, audit_fields, audit_value,
  audit_items, audit_indexed, sanitize_audit_metadata,
}

mutual
  unfolding audit_fields audit_value audit_items audit_indexed IsClean AreClean HasCleanFields

  audit_fields-HasCleanFields : (fs : Fields) → HasCleanFields is_sensitive_name (audit_fields fs)
  audit_fields-HasCleanFields no_fields = tt
  audit_fields-HasCleanFields (field k v rest) = (
    mark-IsMarked (is_sensitive_name k) (audit_value v) (IsClean is_sensitive_name)
        (audit_value-IsClean v),
    audit_fields-HasCleanFields rest,
  )

  audit_value-IsClean : (v : Json) → IsClean is_sensitive_name (audit_value v)
  audit_value-IsClean undefined = tt
  audit_value-IsClean null = tt
  audit_value-IsClean (boolean b) = tt
  audit_value-IsClean (number n) = tt
  audit_value-IsClean (text s) = tt
  audit_value-IsClean (array xs) = audit_items-AreClean xs
  audit_value-IsClean (object fs) = audit_fields-HasCleanFields fs

  audit_items-AreClean : (xs : Items) → AreClean is_sensitive_name (audit_items xs)
  audit_items-AreClean no_items = tt
  audit_items-AreClean (item undefined rest) = (tt, audit_items-AreClean rest)
  audit_items-AreClean (item null rest) = (tt, audit_items-AreClean rest)
  audit_items-AreClean (item (boolean b) rest) = (tt, audit_items-AreClean rest)
  audit_items-AreClean (item (number n) rest) = (tt, audit_items-AreClean rest)
  audit_items-AreClean (item (text s) rest) = (tt, audit_items-AreClean rest)
  audit_items-AreClean (item (array xs) rest) =
      (audit_indexed-HasCleanFields 0 xs, audit_items-AreClean rest)
  audit_items-AreClean (item (object fs) rest) =
      (audit_fields-HasCleanFields fs, audit_items-AreClean rest)

  audit_indexed-HasCleanFields :
      (n : ℕ) (xs : Items) → HasCleanFields is_sensitive_name (audit_indexed n xs)
  audit_indexed-HasCleanFields n no_items = tt
  audit_indexed-HasCleanFields n (item v rest) = (
    mark-IsMarked (is_sensitive_name (show n)) (audit_value v) (IsClean is_sensitive_name)
        (audit_value-IsClean v),
    audit_indexed-HasCleanFields (suc n) rest,
  )

-- What an audit log may hold as metadata.
abbrev pub MayBeLogged : Option Json → Type 0
MayBeLogged none = Unit
MayBeLogged (some v) = IsClean is_sensitive_name v

-- At every depth of what `sanitizeAuditMetadata` gives, each field whose name contains a sensitive
-- word, in any case and with dashes left out, holds the mark.
pub sanitize_audit_metadata-MayBeLogged : (v : Json) → MayBeLogged (sanitize_audit_metadata v)
unfolding sanitize_audit_metadata IsClean
sanitize_audit_metadata-MayBeLogged undefined = tt
sanitize_audit_metadata-MayBeLogged null = tt
sanitize_audit_metadata-MayBeLogged (boolean b) = tt
sanitize_audit_metadata-MayBeLogged (number n) = tt
sanitize_audit_metadata-MayBeLogged (text s) = tt
sanitize_audit_metadata-MayBeLogged (array xs) = audit_indexed-HasCleanFields 0 xs
sanitize_audit_metadata-MayBeLogged (object fs) = audit_fields-HasCleanFields fs
