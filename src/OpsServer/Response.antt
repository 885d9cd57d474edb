-- ===== src/OpsServer/Response.antt =====
-- `parseDeviceOpsResponse` of pc/src/device-ops-protocol.ts, and the object that the device sends.
use Prim.Native.String
use one_autojs.Base.{
  String, Bool, true, false, not, ◌&&◌, List, [], ◌∷◌, Option, none, some, Json, Fields, obj, num,
  str, end, field, get, as_record, as_string, is_number, is_string, Number, of_ℕ, number_lt, str_eq,
  Outcome, ok, throw, ◌>>=◌, ◌>>◌, require, or_throw, if◌then◌else◌, is_some,
}
use one_autojs.Ops.{
  operation_name, DeviceOpsResponse, DeviceOpsResponseStatus, success, failure, timeout, rejected,
  cancelled,
}
use one_autojs.Ops.Parse.{time_field}
use one_autojs.Ops.Artifact.{only_keys}
use one_autojs.OpsServer.{includes, is_device_ops_id, string_of}
use one_autojs.OpsServer.Input.{listed}
use one_autojs.OpsServer.Frames.{is_short}
use one_autojs.OpsServer.Target.{DeviceUiTargetAtResult}
use one_autojs.OpsServer.Lookup.{parse_target_at}

-- `data`: as it came, or of the operation `device.ui.target-at`.
pub data ResponseData : Type 0 where
  unread : Json → ResponseData
  target_at : DeviceUiTargetAtResult → ResponseData

-- `{ ...value, message, data }`
pub record ParsedResponse : Type 0 where
  pub value : Fields
  pub message : String
  pub contents : ResponseData

abbrev pub response_statuses : List String
response_statuses = "SUCCESS" ∷ "FAILURE" ∷ "TIMEOUT" ∷ "REJECTED" ∷ "CANCELLED" ∷ []

abbrev pub response_keys : List String
response_keys =
    "protocolVersion" ∷ "type" ∷ "sessionId" ∷ "requestId" ∷ "operation" ∷ "status" ∷ "code"
    ∷ "message" ∷ "data" ∷ "startedAt" ∷ "finishedAt" ∷ "durationMs" ∷ []

-- `DEVICE_UI_TARGET_RESPONSE_MESSAGES`
abbrev pub target_messages : List (String × String)
target_messages =
    ("SUCCESS:OPS_OPERATION_SUCCEEDED", "Operation completed")
    ∷ ("FAILURE:UI_HIERARCHY_TOO_LARGE", "Android UI hierarchy exceeded the read limit")
    ∷ ("FAILURE:UI_HIERARCHY_DUMP_FAILED", "Android UI hierarchy dump failed")
    ∷ ("FAILURE:UI_HIERARCHY_CLEANUP_FAILED", "Android UI hierarchy temporary file cleanup failed")
    ∷ ("FAILURE:UI_HIERARCHY_INVALID", "Android returned an invalid UI hierarchy")
    ∷ ("FAILURE:OPS_OPERATION_FAILED", "Android UI target lookup failed")
    ∷ ("FAILURE:OPS_RESPONSE_TOO_LARGE", "Operation result exceeded the frame limit")
    ∷ ("TIMEOUT:OPS_REQUEST_EXPIRED", "Operation request expired")
    ∷ ("TIMEOUT:OPS_OPERATION_TIMEOUT", "Operation timed out")
    ∷ ("REJECTED:UI_TARGET_COORDINATES_INVALID", "UI target coordinates were rejected")
    ∷ ("REJECTED:DEPLOYMENT_DRAINING", "Device deployment is draining")
    ∷ ("REJECTED:OPS_CONCURRENCY_LIMIT", "Operations concurrency limit reached")
    ∷ []

unfoldable pub message_for : String → List (String × String) → Option String
message_for key [] = none
message_for key ((k, message) ∷ rest) = if str_eq k key then some message else message_for key rest

abbrev pub is_empty_object : Option Json → Bool
is_empty_object (some (obj end)) = true
is_empty_object _ = false

module _ (number_text : Number → String) where
  -- The tests on the envelope, less those on its times.
  unfoldable pub is_response : Fields → Bool
  unfolding is_device_ops_id is_short
  is_response value =
      is_number (of_ℕ 1) (get "protocolVersion" value)
      && is_string "response" (get "type" value)
      && is_device_ops_id (get "sessionId" value)
      && is_device_ops_id (get "requestId" value)
      && is_some (listed (as_string (get "operation" value)))
      && includes (string_of number_text (get "status" value)) response_statuses
      && is_short 100 (get "code" value)
      && is_short 1000 (get "message" value)
      && is_some (get "data" value)

  -- The data of a lookup that succeeded.
  unfoldable pub found_data : Option Json → Outcome ResponseData
  found_data contents = do
    found ← or_throw contents "device.ui.target-at data must be an object"
    result ← parse_target_at number_text found
    ok (target_at result)

  -- The data of a lookup: a target, or nothing.
  unfoldable pub target_data : Fields → Outcome ResponseData
  unfolding found_data
  target_data value =
      if is_string "SUCCESS" (get "status" value)
      then found_data (get "data" value)
      else if is_empty_object (get "data" value)
      then ok (unread (obj end))
      else throw "device.ui.target-at failure data must be an empty object"

  -- The key of the table of messages.
  abbrev pub message_key : Fields → String → String
  message_key value code =
      String.◌++◌ (string_of number_text (get "status" value)) (String.◌++◌ ":" code)

  -- A response to a lookup of the screen's elements.
  unfoldable pub target_response : Fields → String → Outcome ParsedResponse
  unfolding target_data
  target_response value code = do
    message ←
        or_throw (message_for (message_key value code) target_messages)
          "device.ui.target-at response code is not allowlisted"
    contents ← target_data value
    ok (record { value = value; message = message; contents = contents })

  -- `parseDeviceOpsResponse`
  unfoldable pub parse_response : Json → Outcome ParsedResponse
  unfolding is_response target_response
  parse_response frame = do
    value ← or_throw (as_record frame) "Ops response must be an object"
    require (only_keys response_keys value) "response contains unknown field"
    require (is_response value) "Invalid device operations response"
    code ← or_throw (as_string (get "code" value)) "Invalid device operations response"
    message ← or_throw (as_string (get "message" value)) "Invalid device operations response"
    contents ← or_throw (get "data" value) "Invalid device operations response"
    started_at ← time_field "startedAt" value "Invalid device operations response"
    finished_at ← time_field "finishedAt" value "Invalid device operations response"
    duration ← time_field "durationMs" value "Invalid device operations response"
    require (not (number_lt finished_at started_at) && not (number_lt duration (of_ℕ 0)))
        "Invalid device operations response"
    (if is_string "device.ui.target-at" (get "operation" value)
        then target_response value code
        else ok (record { value = value; message = message; contents = unread contents }))

abbrev pub status_name : DeviceOpsResponseStatus → String
status_name success = "SUCCESS"
status_name failure = "FAILURE"
status_name timeout = "TIMEOUT"
status_name rejected = "REJECTED"
status_name cancelled = "CANCELLED"

-- A response of the device as an object.
unfoldable pub response_fields : DeviceOpsResponse → Fields
response_fields r = field "protocolVersion" (num (of_ℕ 1)) (
    field "type" (str "response") (
      field "sessionId" (str r.session_id) (
        field "requestId" (str r.request_id) (
          field "operation" (str (operation_name r.operation)) (
            field "status" (str (status_name r.status)) (
              field "code" (str r.code) (
                field "message" (str r.message) (
                  field "data" r.details (
                    field "startedAt" (num (of_ℕ r.started_at)) (
                      field "finishedAt" (num (of_ℕ r.finished_at))
                        (field "durationMs" (num (of_ℕ r.duration_ms)) end)))))))))))
