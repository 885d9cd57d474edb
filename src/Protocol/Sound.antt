-- ===== src/Protocol/Sound.antt =====
-- What the task parser guarantees of the requests that it accepts.
use one_autojs.Base.{
  ◌≡◌, String, true, Json, Fields, Number, of_ℕ, number_lt, is_finite, is_identifier, is_device_id,
  is_script_id, ok, >>=-eq-ok, require-eq-ok, ok-injective, subst, or_throw-eq-ok, get, as_record,
  arith,
}
use one_autojs.Protocol.{DeviceTaskRequest}
use one_autojs.Protocol.Parse.{
  parse_device_task_request, string_field, number_field, priority_of, preempt_of, record_of,
}

-- What the client relies on once a request is accepted.
pub record IsWellFormed (r : DeviceTaskRequest) : Type 0 where
  pub task_id : is_identifier r.task_id ≡ true
  pub device_id : is_device_id r.device_id ≡ true
  pub script_id : is_script_id r.script_id ≡ true
  pub trace_id : is_identifier r.trace_id ≡ true
  pub timed : is_finite r.timeout_ms ≡ true
  pub created : is_finite r.created_at ≡ true
  pub expiring : is_finite r.expires_at ≡ true
  pub positive : number_lt (of_ℕ 0) r.timeout_ms ≡ true
  pub ordered : number_lt r.created_at r.expires_at ≡ true

number_field-is_finite :
    (key : String) (value : Fields) {n : Number}
    → number_field key value ≡ ok n
    → is_finite n ≡ true
unfolding number_field
number_field-is_finite key value {n} h = ground arith

-- A payload that the parser accepts gives a request with identifiers of the allowed characters and
-- lengths, finite times, a positive timeout and an expiry after its creation.
pub parse-IsWellFormed :
    (payload : Json) {r : DeviceTaskRequest}
    → parse_device_task_request payload ≡ ok r
    → IsWellFormed r
unfolding parse_device_task_request
parse-IsWellFormed payload h0 =
    let (value, _, h1) = or_throw-eq-ok (as_record payload) _ _ h0 in
    let (_, h2) = require-eq-ok _ _ _ h1 in
    let (task_id, _, h3) = >>=-eq-ok (string_field "taskId" value) _ h2 in
    let (device_id, _, h4) = >>=-eq-ok (string_field "deviceId" value) _ h3 in
    let (script_id, _, h5) = >>=-eq-ok (string_field "scriptId" value) _ h4 in
    let (trace_id, _, h6) = >>=-eq-ok (string_field "traceId" value) _ h5 in
    let (ok_task, h7) = require-eq-ok (is_identifier task_id) _ _ h6 in
    let (ok_device, h8) = require-eq-ok (is_device_id device_id) _ _ h7 in
    let (ok_script, h9) = require-eq-ok (is_script_id script_id) _ _ h8 in
    let (ok_trace, h10) = require-eq-ok (is_identifier trace_id) _ _ h9 in
    let (timeout_ms, t, h11) = >>=-eq-ok (number_field "timeoutMs" value) _ h10 in
    let (created_at, c, h12) = >>=-eq-ok (number_field "createdAt" value) _ h11 in
    let (expires_at, x, h13) = >>=-eq-ok (number_field "expiresAt" value) _ h12 in
    let (params, _, h14) = or_throw-eq-ok (record_of (get "params" value)) _ _ h13 in
    let (priority, _, h15) = >>=-eq-ok (priority_of (get "priority" value) script_id) _ h14 in
    let (preempt, _, h16) = >>=-eq-ok (preempt_of (get "preemptRunning" value)) _ h15 in
    let (positive, h17) = require-eq-ok (number_lt (of_ℕ 0) timeout_ms) _ _ h16 in
    let (ordered, h18) = require-eq-ok (number_lt created_at expires_at) _ _ h17 in
    subst IsWellFormed (ok-injective h18) (record {
      task_id = ok_task;
      device_id = ok_device;
      script_id = ok_script;
      trace_id = ok_trace;
      timed = number_field-is_finite "timeoutMs" value t;
      created = number_field-is_finite "createdAt" value c;
      expiring = number_field-is_finite "expiresAt" value x;
      positive = positive;
      ordered = ordered;
    })
