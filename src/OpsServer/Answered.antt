-- ===== src/OpsServer/Answered.antt =====
-- The way of a response: from the device to the server.
use one_autojs.Base.{
  ℕ, ◌≤◌, ◌≡◌, refl, arith, String, Bool, true, false, not, some, str, obj, get, as_record,
  as_string, as_number, is_number, is_string, Number, of_ℕ, number_lt, number_eq, is_finite,
  is_identifier, str_eq, codes, ltb, ok,
}
use one_autojs.Protocol.Parse.{finite_only}
use one_autojs.Ops.{
  DeviceOpsOperation, operation_name, ops_capabilities, ui_target_at, DeviceOpsResponse,
  DeviceOpsResponseStatus, success, failure, timeout, rejected, cancelled,
}
use one_autojs.Ops.Parse.{time_field}
use one_autojs.Ops.Artifact.{only_keys}
use one_autojs.OpsServer.{units, includes, is_device_ops_id, text_of, string_of}
use one_autojs.OpsServer.Frames.{is_short}
use one_autojs.OpsServer.Delivered.{listed-name}
use one_autojs.OpsServer.Response.{
  unread, response_statuses, is_response, parse_response, status_name, response_fields,
}

-- What the server asks of a response, in the device's terms.
pub record IsAcceptable (r : DeviceOpsResponse) : Type 0 where
  pub session_id : is_identifier r.session_id ≡ true
  pub request_id : is_identifier r.request_id ≡ true
  pub code : units (codes r.code) ≤ 100
  pub message : units (codes r.message) ≤ 1000
  pub ordered : r.started_at ≤ r.finished_at

abbrev pub is_lookup : DeviceOpsOperation → Bool
is_lookup ui_target_at = true
is_lookup _ = false

is_string-operation :
    (o : DeviceOpsOperation)
    → is_string "device.ui.target-at" (some (str (operation_name o))) ≡ is_lookup o
unfolding is_string str_eq
is_string-operation ops_capabilities = refl
is_string-operation o = refl

includes-status : (s : DeviceOpsResponseStatus) → includes (status_name s) response_statuses ≡ true
unfolding str_eq
includes-status success = refl
includes-status failure = refl
includes-status timeout = refl
includes-status rejected = refl
includes-status cancelled = refl

is_response-response :
    (number_text : Number → String) (r : DeviceOpsResponse)
    → IsAcceptable r
    → is_response number_text (response_fields r) ≡ true
unfolding is_response response_fields get str_eq is_string is_number number_eq as_string
    is_device_ops_id is_short string_of text_of
is_response-response number_text r v = rw (
  v.session_id,
  v.request_id,
  listed-name r.operation,
  includes-status r.status,
  short 100 (units (codes r.code)) v.code,
  short 1000 (units (codes r.message)) v.message,
)
  where
    short : (most n : ℕ) → n ≤ most → not (ltb most n) ≡ true
    short most n h = ground arith

-- A response of the device to any operation but the lookup of a UI element is read by the server as
-- it is: if its ids are well-formed, its code and message are within 100 and 1000 code units, and it
-- does not end before it starts.
pub parse_response-response :
    (number_text : Number → String) (r : DeviceOpsResponse)
    → IsAcceptable r
    → is_lookup r.operation ≡ false
    → parse_response number_text (obj (response_fields r))
      ≡ ok (record { value = response_fields r; message = r.message; contents = unread r.details })
unfolding parse_response response_fields get str_eq only_keys time_field as_string as_number
    as_record finite_only is_finite number_lt
parse_response-response number_text r v other =
    rw (is_response-response number_text r v, ordered, is_string-operation r.operation, other)
      (rw (positive r.duration_ms) refl)
  where
    ordered : not (number_lt (of_ℕ r.finished_at) (of_ℕ r.started_at)) ≡ true
    ordered = ground (arith, v.ordered)

    positive : (n : ℕ) → not (number_lt (of_ℕ n) (of_ℕ 0)) ≡ true
    positive n = ground arith
