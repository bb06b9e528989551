-- ===== src/Management/Protocol.antt =====
-- management/protocol.py and management/models.py: the checks of a request, on the value that `json`
-- makes of its line; `none` is a JSONDecodeError.
use yyr4_linux_control.Base.{
  String, Bool, true, false, not, Option, none, some, [], ◌∷◌, Result, ok, err, raise_if, ◌>>◌,
  ◌>>=◌, ◌==◌, string_eq, if◌then◌else◌,
}
use yyr4_linux_control.Base.Value.{
  Value, str, table, Fields, no_fields, field, get, unknown_field, one_of, equals_nat,
}
use yyr4_linux_control.Base.Dict.{is_some}
use yyr4_linux_control.Control.Config.{get_table}

pub record ProtocolRequest : Type 0 where
  pub protocol_version : Value
  pub request_id : String
  pub command : String
  pub params : Fields

-- the message and the code of the exception
pub record ProtocolError : Type 0 where
  pub message : String
  pub code : String

abbrev pub protocol_error : String → String → ProtocolError
protocol_error message code = record { message = message; code = code }

-- `name in data`
unfoldable pub has_field : String → Fields → Bool
has_field name no_fields = false
has_field name (field k v rest) =
    let found = has_field name rest in if name == k then true else found

abbrev pub text_field : Value → ProtocolError → Result ProtocolError String
text_field (str s) e = ok s
text_field v e = err e

abbrev pub table_field : Value → ProtocolError → Result ProtocolError Fields
table_field (table found) e = ok found
table_field v e = err e

-- the checks of the fields
abbrev pub parse_fields : Fields → Result ProtocolError ProtocolRequest
parse_fields data_ = do
  raise_if (not (has_field "protocol_version" data_))
      (protocol_error "Missing protocol_version" "MISSING_VERSION")
  raise_if (not (equals_nat 1 (get "protocol_version" data_)))
      (protocol_error "Unsupported protocol version" "UNSUPPORTED_VERSION")
  request_id ←
      text_field (get "request_id" data_)
        (protocol_error "Missing or invalid request_id" "INVALID_REQUEST_ID")
  command ←
      text_field (get "command" data_)
        (protocol_error "Missing or invalid command" "INVALID_COMMAND")
  params ←
      table_field (get_table "params" data_)
        (protocol_error "params must be an object" "INVALID_PARAMS")
  raise_if
      (is_some (
        unknown_field (one_of ("protocol_version" ∷ "request_id" ∷ "command" ∷ "params" ∷ []))
          data_))
      (protocol_error "Unknown fields in request" "UNKNOWN_FIELDS")
  ok (record {
    protocol_version = get "protocol_version" data_;
    request_id = request_id;
    command = command;
    params = params;
  })

unfoldable pub parse_request : Option Value → Result ProtocolError ProtocolRequest
parse_request none = err (protocol_error "Invalid JSON" "INVALID_JSON")
parse_request (some (table data_)) = parse_fields data_
parse_request (some v) = err (protocol_error "Request must be a JSON object" "INVALID_FORMAT")
