-- ===== src/Protocol/Parse.antt =====
-- `parseDeviceTaskRequest` of mobile/src/protocol.ts.
use Prim.Native.String
use one_autojs.Base.{
  String, Bool, false, Option, none, some, Json, Fields, bool, str, Number, of_ℕ, number_lt,
  is_finite, get, as_record, as_string, as_number, is_number, str_eq, is_identifier, is_device_id,
  is_script_id, Outcome, ok, throw, ◌>>=◌, ◌>>◌, require, or_throw, if◌then◌else◌,
}
use one_autojs.Protocol.{TaskPriority, low, normal, high, DeviceTaskRequest}

-- `typeof value[key] !== "string" || value[key].length === 0`
unfoldable pub non_empty : Option String → Option String
non_empty none = none
non_empty (some String.[]) = none
non_empty (some s) = some s

-- One round of the loop over `stringKeys`, with the value that the code reads again later.
unfoldable pub string_field : String → Fields → Outcome String
unfolding non_empty as_string get
string_field key value =
    or_throw (non_empty (as_string (get key value))) (String.◌++◌ "Missing or invalid " key)

unfoldable pub finite_only : Option Number → Option Number
finite_only none = none
finite_only (some n) = if is_finite n then some n else none

-- One round of the loop over `numberKeys`.
unfoldable pub number_field : String → Fields → Outcome Number
unfolding finite_only as_number get is_finite
number_field key value =
    or_throw (finite_only (as_number (get key value))) (String.◌++◌ "Missing or invalid " key)

unfoldable pub default_priority : String → TaskPriority
default_priority script_id = if str_eq script_id "device.network.switch" then high else normal

-- The two tests on `value.priority`, in one pass.
unfoldable pub priority_of : Option Json → String → Outcome TaskPriority
unfolding default_priority
priority_of none script_id = ok (default_priority script_id)
priority_of (some (str s)) script_id =
    if str_eq s "LOW"
    then ok low
    else if str_eq s "NORMAL"
    then ok normal
    else if str_eq s "HIGH"
    then ok high
    else throw "priority must be LOW, NORMAL or HIGH"
priority_of (some _) script_id = throw "priority must be LOW, NORMAL or HIGH"

-- `value.preemptRunning`, which may be absent.
unfoldable pub preempt_of : Option Json → Outcome Bool
preempt_of none = ok false
preempt_of (some (bool b)) = ok b
preempt_of (some _) = throw "preemptRunning must be a boolean"

unfoldable pub record_of : Option Json → Option Fields
record_of none = none
record_of (some v) = as_record v

unfoldable pub parse_device_task_request : Json → Outcome DeviceTaskRequest
parse_device_task_request payload = do
  value ← or_throw (as_record payload) "Task payload must be an object"
  require (is_number (of_ℕ 2) (get "protocolVersion" value)) "Unsupported protocol version"
  task_id ← string_field "taskId" value
  device_id ← string_field "deviceId" value
  script_id ← string_field "scriptId" value
  trace_id ← string_field "traceId" value
  require (is_identifier task_id) "taskId contains unsupported characters"
  require (is_device_id device_id) "deviceId contains unsupported characters"
  require (is_script_id script_id) "scriptId contains unsupported characters"
  require (is_identifier trace_id) "traceId contains unsupported characters"
  timeout_ms ← number_field "timeoutMs" value
  created_at ← number_field "createdAt" value
  expires_at ← number_field "expiresAt" value
  params ← or_throw (record_of (get "params" value)) "params must be an object"
  priority ← priority_of (get "priority" value) script_id
  preempt_running ← preempt_of (get "preemptRunning" value)
  require (number_lt (of_ℕ 0) timeout_ms) "timeoutMs must be positive"
  require (number_lt created_at expires_at) "expiresAt must be later than createdAt"
  ok (record {
    task_id = task_id;
    device_id = device_id;
    script_id = script_id;
    script_version = as_number (get "scriptVersion" value);
    params = params;
    timeout_ms = timeout_ms;
    created_at = created_at;
    expires_at = expires_at;
    trace_id = trace_id;
    callback_url = as_string (get "callbackUrl" value);
    priority = priority;
    preempt_running = preempt_running;
  })
