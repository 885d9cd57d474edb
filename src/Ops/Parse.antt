-- ===== src/Ops/Parse.antt =====
-- The parsers of mobile/src/ops-protocol.ts.
use one_autojs.Base.{
  String, Bool, true, false, ◌&&◌, ◌||◌, List, [], ◌∷◌, Option, none, some, Json, Fields, get,
  as_record, as_string, as_number, is_number, is_string, Number, of_ℕ, number_lt, number_le,
  number_add, is_identifier, is_device_id, str_eq, Outcome, ok, ◌>>=◌, ◌>>◌, require, or_throw,
  if◌then◌else◌,
}
use one_autojs.Protocol.Parse.{finite_only, record_of}
use one_autojs.Ops.{
  DeviceOpsOperation, operation_name, device_ops, DeviceOpsOpenSessionCommand, DeviceOpsRequest,
}

-- What `new URL` gives of a text: its parts as the code reads them, or a TypeError.
pub record Url : Type 0 where
  pub protocol : String
  pub hostname : String
  pub username : String
  pub password : String
  pub search : String
  pub hash : String
  pub origin : String
  pub href : String

-- An operand of the envelope's test that must be of a certain form.
abbrev pub checked : (String → Bool) → Option String → Option String
checked test none = none
checked test (some s) = if test s then some s else none

unfoldable pub text_field : (String → Bool) → String → Fields → String → Outcome String
text_field test key value message = or_throw (checked test (as_string (get key value))) message

unfoldable pub time_field : String → Fields → String → Outcome Number
unfolding finite_only
time_field key value message = or_throw (finite_only (as_number (get key value))) message

abbrev pub any_text : String → Bool
any_text s = true

abbrev is_loopback : Url → Bool
is_loopback url = str_eq url.hostname "localhost" || str_eq url.hostname "127.0.0.1"

-- The endpoint is WSS, or plain WS on the loopback interface.
abbrev pub is_secure : Url → Bool
is_secure url = str_eq url.protocol "wss:" || str_eq url.protocol "ws:" && is_loopback url

abbrev is_empty : String → Bool
is_empty String.[] = true
is_empty _ = false

abbrev pub is_bare : Url → Bool
is_bare url =
    is_empty url.username && is_empty url.password && is_empty url.search && is_empty url.hash

-- `parseDeviceOpsOpenSessionCommand`; `parse_url` is `new URL`. The many operands of the envelope's
-- test throw the same error.
unfoldable pub parse_open_session :
    (String → Outcome Url) → Json → Outcome DeviceOpsOpenSessionCommand
parse_open_session parse_url payload = do
  value ← or_throw (as_record payload) "Ops command must be an object"
  require
      (is_number (of_ℕ 1) (get "protocolVersion" value)
        && is_string "OPEN_SESSION" (get "type" value))
      "Invalid ops open-session envelope"
  session_id ← text_field is_identifier "sessionId" value "Invalid ops open-session envelope"
  device_id ← text_field is_device_id "deviceId" value "Invalid ops open-session envelope"
  nonce ← text_field is_identifier "nonce" value "Invalid ops open-session envelope"
  ws_url ← text_field any_text "wsUrl" value "Invalid ops open-session envelope"
  issued_at ← time_field "issuedAt" value "Invalid ops open-session envelope"
  expires_at ← time_field "expiresAt" value "Invalid ops open-session envelope"
  require (number_lt issued_at expires_at) "Ops session expiry must be later than issue time"
  require (number_le expires_at (number_add issued_at 1800000))
      "Ops session exceeds the 30 minute maximum"
  url ← parse_url ws_url
  require (is_secure url) "Ops endpoint must use WSS"
  require (is_bare url) "Ops endpoint must not contain credentials or query data"
  ok (record {
    session_id = session_id;
    device_id = device_id;
    ws_url = url.href;
    nonce = nonce;
    issued_at = issued_at;
    expires_at = expires_at;
  })

-- `DEVICE_OPS.some((operation) => operation === value.operation)`, with the operation found.
abbrev pub find_operation : String → List DeviceOpsOperation → Option DeviceOpsOperation
find_operation name [] = none
find_operation name (o ∷ rest) =
    if str_eq (operation_name o) name then some o else find_operation name rest

abbrev pub named_operation : Option String → Option DeviceOpsOperation
named_operation none = none
named_operation (some name) = find_operation name device_ops

-- `parseDeviceOpsRequest`
unfoldable pub parse_request : Json → String → Outcome DeviceOpsRequest
parse_request payload expected_session_id = do
  value ← or_throw (as_record payload) "Ops frame must be an object"
  require
      (is_number (of_ℕ 1) (get "protocolVersion" value)
        && is_string "request" (get "type" value)
        && is_string expected_session_id (get "sessionId" value))
      "Invalid ops request envelope"
  request_id ← text_field is_identifier "requestId" value "Invalid ops request envelope"
  operation ←
      or_throw (named_operation (as_string (get "operation" value))) "Invalid ops request envelope"
  params ← or_throw (record_of (get "params" value)) "Invalid ops request envelope"
  created_at ← time_field "createdAt" value "Invalid ops request envelope"
  expires_at ← time_field "expiresAt" value "Invalid ops request envelope"
  require (number_lt created_at expires_at) "Ops request expiry must be later than creation time"
  require (number_le expires_at (number_add created_at 15000))
      "Ops request exceeds the 15 second maximum"
  ok (record {
    session_id = expected_session_id;
    request_id = request_id;
    operation = operation;
    params = params;
    created_at = created_at;
    expires_at = expires_at;
  })
