-- ===== src/OpsServer/Input.antt =====
-- `parseDeviceOpsCreateInput` of pc/src/device-ops-protocol.ts, and the request that `sendTask` of
-- pc/src/service/device-ops.service.ts makes of an input.
use one_autojs.Base.{
  ℕ, String, not, [], ◌∷◌, Option, none, some, Json, Fields, num, str, obj, end, field, get,
  as_record, as_string, Number, of_ℕ, number_add, number_min, is_device_id, ltb, Outcome, ok, ◌>>=◌,
  ◌>>◌, require, or_throw,
}
use one_autojs.Ops.{DeviceOpsOperation, operation_name, DeviceOpsRequest}
use one_autojs.Ops.Parse.{text_field, find_operation}
use one_autojs.Ops.Artifact.{only_keys}
use one_autojs.OpsServer.{device_ops_operations, integer_in}
use one_autojs.OpsServer.Params.{or_default, parse_operation_params}

-- `DeviceOpsCreateInput`
pub record DeviceOpsCreateInput : Type 0 where
  pub client_id : String
  pub operation : DeviceOpsOperation
  pub params : Fields
  pub timeout_ms : Number

-- The operation of the allowlist that a name names.
abbrev pub listed : Option String → Option DeviceOpsOperation
listed none = none
listed (some name) = find_operation name device_ops_operations

-- `parseDeviceOpsCreateInput`; `params_bytes` is the length of the JSON text of an object.
unfoldable pub parse_create_input : (Fields → ℕ) → Json → Outcome DeviceOpsCreateInput
parse_create_input params_bytes body = do
  value ← or_throw (as_record body) "Request body must be an object"
  require (only_keys ("clientId" ∷ "operation" ∷ "params" ∷ "timeoutMs" ∷ []) value)
      "request contains unknown field"
  client_id ← text_field is_device_id "clientId" value "clientId has an invalid format"
  operation ←
      or_throw (listed (as_string (get "operation" value)))
        "operation is not in the device operations allowlist"
  timeout_ms ←
      or_throw (integer_in 1000 15000 (or_default (num (of_ℕ 10000)) (get "timeoutMs" value)))
        "timeoutMs must be an integer between 1000 and 15000"
  params ← parse_operation_params operation (get "params" value)
  require (not (ltb 49152 (params_bytes params))) "params exceeds the operations payload limit"
  ok (record {
    client_id = client_id;
    operation = operation;
    params = params;
    timeout_ms = timeout_ms;
  })

-- The request that `sendTask` builds when it first sends a task: `session_id` and `session_end` are
-- those of the session's command.
unfoldable pub request_of : String → Number → String → DeviceOpsCreateInput → ℕ → DeviceOpsRequest
request_of session_id session_end task_id input now = record {
  session_id = session_id;
  request_id = task_id;
  operation = input.operation;
  params = input.params;
  created_at = of_ℕ now;
  expires_at = number_min (number_add input.timeout_ms now) session_end;
}

-- The request as an object.
unfoldable pub request_fields : DeviceOpsRequest → Fields
request_fields r = field "protocolVersion" (num (of_ℕ 1)) (
    field "type" (str "request") (
      field "sessionId" (str r.session_id) (
        field "requestId" (str r.request_id) (
          field "operation" (str (operation_name r.operation)) (
            field "params" (obj r.params)
              (field "createdAt" (num r.created_at) (field "expiresAt" (num r.expires_at) end)))))))
