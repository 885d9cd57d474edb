-- ===== src/Protocol/RoundTrip.antt =====
-- A request written as JSON, and `parseDeviceTaskRequest` on it.
use one_autojs.Base.{
  ◌≡◌, refl, String, true, Option, some, none, Json, obj, str, num, bool, Fields, end, field,
  Number, of_ℕ, get, as_record, as_string, as_number, is_number, is_identifier, is_device_id,
  is_script_id, ok,
}
use one_autojs.Protocol.{DeviceTaskRequest, TaskPriority, low, normal, high}
use one_autojs.Protocol.Parse.{
  parse_device_task_request, string_field, number_field, priority_of, preempt_of, record_of,
  finite_only, non_empty,
}
use one_autojs.Protocol.Sound.{IsWellFormed}

abbrev priority_text : TaskPriority → String
priority_text low = "LOW"
priority_text normal = "NORMAL"
priority_text high = "HIGH"

-- `JSON.stringify` leaves a field out that is undefined.
abbrev optional : String → Option Json → Fields → Fields
optional key none rest = rest
optional key (some v) rest = field key v rest

abbrev string_json : Option String → Option Json
string_json none = none
string_json (some s) = some (str s)

abbrev number_json : Option Number → Option Json
number_json none = none
number_json (some n) = some (num n)

-- The JSON object of a request, as the server sends it.
unfoldable pub encode : DeviceTaskRequest → Json
encode r = obj (
    field "protocolVersion" (num (of_ℕ 2)) (
      field "taskId" (str r.task_id) (
        field "deviceId" (str r.device_id) (
          field "scriptId" (str r.script_id) (
            field "params" (obj r.params) (
              field "timeoutMs" (num r.timeout_ms) (
                field "createdAt" (num r.created_at) (
                  field "expiresAt" (num r.expires_at) (
                    field "traceId" (str r.trace_id) (
                      field "priority" (str (priority_text r.priority)) (
                        field "preemptRunning" (bool r.preempt_running) (
                          optional "scriptVersion" (number_json r.script_version)
                            (optional "callbackUrl" (string_json r.callback_url) end)))))))))))))

-- A text of a class of characters, of at least one, is not empty.
non_empty_of_is_identifier : (s : String) → is_identifier s ≡ true → non_empty (some s) ≡ some s
unfolding is_identifier non_empty
non_empty_of_is_identifier String.[] h = cc
non_empty_of_is_identifier (String.◌∷◌ c s) h = refl

non_empty_of_is_device_id : (s : String) → is_device_id s ≡ true → non_empty (some s) ≡ some s
unfolding is_device_id non_empty
non_empty_of_is_device_id String.[] h = cc
non_empty_of_is_device_id (String.◌∷◌ c s) h = refl

non_empty_of_is_script_id : (s : String) → is_script_id s ≡ true → non_empty (some s) ≡ some s
unfolding is_script_id non_empty
non_empty_of_is_script_id String.[] h = cc
non_empty_of_is_script_id (String.◌∷◌ c s) h = refl

priority_of_text :
    (p : TaskPriority) (s : String) → priority_of (some (str (priority_text p))) s ≡ ok p
unfolding priority_of
priority_of_text low s = refl
priority_of_text normal s = refl
priority_of_text high s = refl

-- The optional fields at the end of the object.
abbrev tail_fields : Option Number → Option String → Fields
tail_fields v c =
    optional "scriptVersion" (number_json v) (optional "callbackUrl" (string_json c) end)

get-script_version :
    (v : Option Number) (c : Option String) → as_number (get "scriptVersion" (tail_fields v c)) ≡ v
unfolding get as_number
get-script_version none none = refl
get-script_version none (some c) = refl
get-script_version (some v) c = refl

get-callback_url :
    (v : Option Number) (c : Option String) → as_string (get "callbackUrl" (tail_fields v c)) ≡ c
unfolding get as_string
get-callback_url none none = refl
get-callback_url none (some c) = refl
get-callback_url (some v) none = refl
get-callback_url (some v) (some c) = refl

-- A well-formed request, written as the server sends it, is parsed to itself.
pub parse-encode :
    (r : DeviceTaskRequest) → IsWellFormed r → parse_device_task_request (encode r) ≡ ok r
unfolding parse_device_task_request encode string_field number_field preempt_of record_of get
    as_record is_number finite_only as_string as_number
parse-encode r w = simp (
  non_empty_of_is_identifier r.task_id w.task_id,
  non_empty_of_is_device_id r.device_id w.device_id,
  non_empty_of_is_script_id r.script_id w.script_id,
  non_empty_of_is_identifier r.trace_id w.trace_id,
  w.task_id,
  w.device_id,
  w.script_id,
  w.trace_id,
  w.timed,
  w.created,
  w.expiring,
  w.positive,
  w.ordered,
  priority_of_text,
  get-script_version,
  get-callback_url,
)
