-- ===== src/OpsServer/Delivered.antt =====
-- The way of a request: from the body that a caller posts, through the server, to the device.
use one_autojs.Base.{
  ℕ, ◌≡◌, refl, arith, String, Bool, true, false, not, [], ◌∷◌, Option, none, some, Json, Fields,
  num, str, obj, end, field, get, as_record, as_string, as_number, is_number, number_eq, Number,
  finite, infinite, pos, negsuc, ◌≤◌, of_ℕ, number_lt, number_le, number_add, number_min,
  is_integer, is_finite, is_identifier, is_device_id, is_string, str_eq, eq_refl, ltb, ok,
  >>=-eq-ok, require-eq-ok, or_throw-eq-ok, ok-injective, subst,
}
use one_autojs.Protocol.Parse.{finite_only, record_of}
use one_autojs.Ops.{DeviceOpsOperation, operation_name, ops_capabilities}
use one_autojs.Ops.Parse.{checked, text_field, time_field, named_operation, parse_request}
use one_autojs.Ops.Artifact.{only_keys}
use one_autojs.OpsServer.{integer_in}
use one_autojs.OpsServer.Params.{or_default, parse_operation_params}
use one_autojs.OpsServer.Input.{
  DeviceOpsCreateInput, listed, parse_create_input, request_of, request_fields,
}
use one_autojs.OpsServer.Again.{integer_in-some}
use one_autojs.OpsServer.Stable.{params_of_again}

-- An input written as the body of a request.
abbrev pub body_of : DeviceOpsCreateInput → Json
body_of input = obj (
    field "clientId" (str input.client_id) (
      field "operation" (str (operation_name input.operation))
        (field "params" (obj input.params) (field "timeoutMs" (num input.timeout_ms) end))))

-- What the parser has found of an accepted body.
record IsInput (params_bytes : Fields → ℕ) (input : DeviceOpsCreateInput) : Type 0 where
  client_id : is_device_id input.client_id ≡ true
  timeout : integer_in 1000 15000 (some (num input.timeout_ms)) ≡ some input.timeout_ms
  params : parse_operation_params input.operation (some (obj input.params)) ≡ ok input.params
  small : ltb 49152 (params_bytes input.params) ≡ false

parse_operation_params_again :
    (operation : DeviceOpsOperation) (o : Option Json) {p : Fields}
    → parse_operation_params operation o ≡ ok p
    → parse_operation_params operation (some (obj p)) ≡ ok p
unfolding parse_operation_params record_of as_record
parse_operation_params_again operation none h = params_of_again operation end _ h
parse_operation_params_again operation (some value) h =
    let (params, e, k) = or_throw-eq-ok (as_record value) _ _ h in
    params_of_again operation params _ k

checked-holds :
    (test : String → Bool) (o : Option String) {s : String}
    → checked test o ≡ some s
    → test s ≡ true
checked-holds test (some t) h = ground arith
checked-holds test none h = cc

not-true : (a : Bool) → not a ≡ true → a ≡ false
not-true true e = cc
not-true false e = refl

parse_create_input-IsInput :
    (params_bytes : Fields → ℕ) (body : Json) {input : DeviceOpsCreateInput}
    → parse_create_input params_bytes body ≡ ok input
    → IsInput params_bytes input
unfolding parse_create_input text_field
parse_create_input-IsInput params_bytes body {input} h =
    let (value, _, h) = or_throw-eq-ok (as_record body) _ _ h in
    let (only, h) =
      require-eq-ok (only_keys ("clientId" ∷ "operation" ∷ "params" ∷ "timeoutMs" ∷ []) value) _ _
        h in
    let (client, c, h) =
      or_throw-eq-ok (checked is_device_id (as_string (get "clientId" value))) _ _ h in
    let (operation, o, h) = or_throw-eq-ok (listed (as_string (get "operation" value))) _ _ h in
    let given : Option Json = or_default (num (of_ℕ 10000)) (get "timeoutMs" value) in
    let (timeout, t, h) = or_throw-eq-ok (integer_in 1000 15000 given) _ _ h in
    let (params, p, h) = >>=-eq-ok (parse_operation_params operation (get "params" value)) _ h in
    let (small, h) = require-eq-ok (not (ltb 49152 (params_bytes params))) _ _ h in
    subst (IsInput params_bytes) (ok-injective h) (record {
      client_id = checked-holds is_device_id (as_string (get "clientId" value)) c;
      timeout = integer_in-some 1000 15000 given t;
      params = parse_operation_params_again operation (get "params" value) p;
      small = not-true _ small;
    })

pub listed-name : (o : DeviceOpsOperation) → listed (some (operation_name o)) ≡ some o
unfolding str_eq
listed-name ops_capabilities = refl
listed-name o = refl

named-name : (o : DeviceOpsOperation) → named_operation (some (operation_name o)) ≡ some o
unfolding str_eq
named-name ops_capabilities = refl
named-name o = refl

-- A body that is accepted is normalised to one that is accepted and stays as it is.
pub parse_create_input-body_of :
    (params_bytes : Fields → ℕ) (body : Json) {input : DeviceOpsCreateInput}
    → parse_create_input params_bytes body ≡ ok input
    → parse_create_input params_bytes (body_of input) ≡ ok input
unfolding parse_create_input get str_eq only_keys text_field as_string as_record
parse_create_input-body_of params_bytes body {input} h =
    let v = parse_create_input-IsInput params_bytes body h in
    rw (v.client_id, listed-name input.operation, v.timeout, v.params, v.small)

-- What the parser says of a timeout.
timeout_bounds :
    (timeout : Number)
    → integer_in 1000 15000 (some (num timeout)) ≡ some timeout
    → (n : ℕ) × (timeout ≡ of_ℕ n) × (1000 ≤ n) × (n ≤ 15000)
unfolding integer_in number_lt is_integer
timeout_bounds (finite (pos n) p) h = (n, ground arith, ground arith, ground arith)
timeout_bounds (finite (negsuc n) p) h = ground arith
timeout_bounds (infinite negative) h = cc

-- The bounds of an expiry, as the device reads the times of a request.
expiry_fits :
    (n now : ℕ) (session_end : Number)
    → 1000 ≤ n
    → n ≤ 15000
    → number_lt (of_ℕ now) session_end ≡ true
    → (finite_only (some (number_min (number_add (of_ℕ n) now) session_end))
        ≡ some (number_min (number_add (of_ℕ n) now) session_end))
      × (number_lt (of_ℕ now) (number_min (number_add (of_ℕ n) now) session_end) ≡ true)
      × (number_le (number_min (number_add (of_ℕ n) now) session_end) (number_add (of_ℕ now) 15000)
          ≡ true)
unfolding finite_only number_lt number_add number_le is_finite
expiry_fits n now (finite (pos m) p) lo hi before = ground arith
expiry_fits n now (finite (negsuc m) p) lo hi before = ground arith
expiry_fits n now (infinite negative) lo hi before = ground arith

-- The request that the server makes of an accepted body, with the well-formed id of a task and before
-- the session's end, is read by the device as it is: with the operation and the parameters of the
-- body.
pub parse_request-request_of :
    (params_bytes : Fields → ℕ) (body : Json) {input : DeviceOpsCreateInput} (session_id : String)
    (session_end : Number) (task_id : String) (now : ℕ)
    → parse_create_input params_bytes body ≡ ok input
    → is_identifier task_id ≡ true
    → number_lt (of_ℕ now) session_end ≡ true
    → parse_request
        (obj (request_fields (request_of session_id session_end task_id input now)))
        session_id
      ≡ ok (request_of session_id session_end task_id input now)
unfolding parse_request request_fields request_of get str_eq is_string is_number number_eq
    text_field time_field as_string as_number as_record record_of finite_only is_finite number_lt
parse_request-request_of params_bytes body {input} session_id session_end task_id now h id before =
    let v = parse_create_input-IsInput params_bytes body h in
    let (n, t, lo, hi) = timeout_bounds input.timeout_ms v.timeout in
    let (fin, later, soon) = expiry_fits n now session_end lo hi before in
    rw (t, eq_refl session_id, id, named-name input.operation, fin, later, soon)
