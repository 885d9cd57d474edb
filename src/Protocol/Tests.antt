-- ===== src/Protocol/Tests.antt =====
-- Runs of the parser, and instances of its theorems.
use one_autojs.Base.{
  str_eq, ◌≡◌, refl, false, none, obj, str, num, end, field, of_ℕ, number_lt, is_finite, get,
  as_record, as_string, as_number, is_number, number_eq, is_identifier, is_device_id, is_script_id,
  ok, throw, Fields,
}
use one_autojs.Protocol.{DeviceTaskRequest, high}
use one_autojs.Protocol.Parse.{
  parse_device_task_request, string_field, number_field, priority_of, preempt_of, record_of,
  finite_only, non_empty, default_priority,
}
use one_autojs.Protocol.Sound.{IsWellFormed, parse-IsWellFormed}
use one_autojs.Protocol.RoundTrip.{encode, parse-encode}

abbrev switch_request : DeviceTaskRequest
switch_request = record {
  task_id = "task_0001";
  device_id = "phone:1";
  script_id = "device.network.switch";
  script_version = none;
  params = field "target" (str "wifi") end;
  timeout_ms = of_ℕ 60000;
  created_at = of_ℕ 1000;
  expires_at = of_ℕ 2000;
  trace_id = "trace_0001";
  callback_url = none;
  priority = high;
  preempt_running = false;
}

abbrev bare_fields : Fields
bare_fields = field "protocolVersion" (num (of_ℕ 2)) (
    field "taskId" (str "task_0001") (
      field "deviceId" (str "phone:1") (
        field "scriptId" (str "device.network.switch") (
          field "traceId" (str "trace_0001") (
            field "timeoutMs" (num (of_ℕ 60000)) (
              field "createdAt" (num (of_ℕ 1000)) (
                field "expiresAt" (num (of_ℕ 2000))
                  (field "params" (obj (field "target" (str "wifi") end)) end))))))))

-- Without a priority, a network switch is of high priority.
bare_is_high : parse_device_task_request (obj bare_fields) ≡ ok switch_request
unfolding parse_device_task_request string_field number_field priority_of preempt_of record_of
    finite_only default_priority get as_record as_string as_number is_number is_finite number_lt
    is_identifier is_device_id is_script_id number_eq str_eq non_empty
bare_is_high = refl

short_id :
    parse_device_task_request (obj (field "taskId" (str "short") bare_fields))
    ≡ throw "taskId contains unsupported characters"
unfolding parse_device_task_request string_field number_field get as_record as_string as_number
    is_number is_identifier is_device_id is_script_id number_eq str_eq non_empty
short_id = refl

parse-IsWellFormed_example : IsWellFormed switch_request
parse-IsWellFormed_example = parse-IsWellFormed (obj bare_fields) bare_is_high

parse-encode_example : parse_device_task_request (encode switch_request) ≡ ok switch_request
parse-encode_example =
    parse-encode switch_request (parse-IsWellFormed (obj bare_fields) bare_is_high)
