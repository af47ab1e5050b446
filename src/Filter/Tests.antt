-- ===== src/Filter/Tests.antt =====
-- Exceptions and their responses.
use forge_gate.Base.{String, ◌||◌, some, ◌≡◌, refl}
use forge_gate.Js.Json.{text, object, field, no_fields}
use forge_gate.Sanitize.{contains_some}
use forge_gate.Filter.{HttpException, Exception, is_infrastructure, is_network, respond}
use forge_gate.Filter.Public.{IsPublic, respond-IsPublic}
use forge_gate.Filter.Status.{KeepsStatus, respond-KeepsStatus}

-- `NotFoundException` with a message, as the framework makes it.
abbrev not_found_of : String → HttpException
not_found_of message = record {
  status = 404;
  response = object (field "message" (text message) (field "error" (text "Not Found") no_fields));
}

abbrev exception_of : String → Exception
exception_of message = record {
  name = "NotFoundException";
  constructor_name = "NotFoundException";
  message = message;
  printed = message;
  code = "";
  http = some (not_found_of message);
}

respond-IsPublic_example : IsPublic (respond (exception_of "no row: SELECT secret=1 FROM users"))
respond-IsPublic_example = respond-IsPublic (exception_of "no row: SELECT secret=1 FROM users")

respond-KeepsStatus_example :
    KeepsStatus
      (is_infrastructure (exception_of "Role ops not found")
        || is_network (exception_of "Role ops not found"))
      404
      (respond (exception_of "Role ops not found"))
respond-KeepsStatus_example =
    respond-KeepsStatus (exception_of "Role ops not found") (not_found_of "Role ops not found") refl

-- The name of a missing role decides that the caller is told of an error of the service.
named_as_table : (respond (exception_of "Role pg_admin not found")).status ≡ 500
unfolding respond contains_some
named_as_table = refl
