-- ===== src/OpsServer/Tests.antt =====
-- Runs of the server's parsers on concrete data.
use one_autojs.Base.{
  ◌≡◌, refl, arith, String, true, false, none, some, Json, Fields, null, bool, num, str, arr, obj,
  nil, cons, end, field, get, as_string, of_ℕ, is_string, codes, Outcome, Bool, is_identifier,
  is_device_id, as_record, is_integer, number_lt, as_number, is_finite, is_number, number_eq,
  is_safe_integer, str_eq, [], ◌∷◌,
}
use one_autojs.Ops.{audio_get, DeviceOpsResponse, success}
use one_autojs.Protocol.Parse.{finite_only, record_of}
use one_autojs.Ops.Parse.{parse_request, text_field, time_field}
use one_autojs.Ops.Artifact.{only_keys}
use one_autojs.OpsServer.{units, integer_in, safe_in, is_device_ops_id, string_of, text_of}
use one_autojs.OpsServer.Params.{parse_operation_params, goes_up}
use one_autojs.OpsServer.Input.{
  DeviceOpsCreateInput, parse_create_input, request_of, request_fields,
}
use one_autojs.OpsServer.Target.{literal, is_public, component_only, parse_classified_text}
use one_autojs.OpsServer.Lookup.{parse_target_at}
use one_autojs.OpsServer.Response.{
  ParsedResponse, unread, target_at, found_data, target_messages, message_for, message_key,
  parse_response, response_fields,
}
use one_autojs.OpsServer.Delivered.{body_of, parse_create_input-body_of, parse_request-request_of}
use one_autojs.OpsServer.Answered.{IsAcceptable, parse_response-response}
use one_autojs.OpsServer.Private.{IsPrivateData, parse_response-IsPrivateData}

-- An absent stream is the aggregate one.
abbrev body : Json
body = obj (field "clientId" (str "phone-1") (field "operation" (str "device.audio.get") end))

abbrev input : DeviceOpsCreateInput
input = record {
  client_id = "phone-1";
  operation = audio_get;
  params = field "stream" (str "all") end;
  timeout_ms = of_ℕ 10000;
}

accepted : parse_create_input (λ p. 16) body ≡ Outcome.ok input
unfolding parse_create_input as_record only_keys text_field as_string get is_device_id integer_in
    is_integer number_lt parse_operation_params
accepted = refl

too_large :
    parse_create_input (λ p. 49153) body
    ≡ Outcome.throw "params exceeds the operations payload limit"
unfolding parse_create_input as_record only_keys text_field as_string get is_device_id integer_in
    is_integer number_lt parse_operation_params
too_large = refl

-- An unknown key that is empty hides itself and every one after it.
unnamed : only_keys ("stream" ∷ []) (field "" null (field "other" null end)) ≡ true
unfolding only_keys str_eq
unnamed = refl

unknown : only_keys ("stream" ∷ []) (field "other" null (field "" null end)) ≡ false
unfolding only_keys str_eq
unknown = refl

upwards : goes_up (codes "a/..\\b") 0 ≡ true
unfolding goes_up
upwards = refl

three_dots : goes_up (codes "a/.../b..") 0 ≡ false
unfolding goes_up
three_dots = refl

label : is_public "Sign In" ≡ true
unfolding is_public
label = refl

spaced_label : is_public "Sign  In" ≡ false
unfolding is_public
spaced_label = refl

parse_create_input-body_of_example : parse_create_input (λ p. 16) (body_of input) ≡ Outcome.ok input
parse_create_input-body_of_example = parse_create_input-body_of (λ p. 16) body accepted

parse_request-request_of_example :
    parse_request
      (obj (request_fields (request_of "session-1" (of_ℕ 90000) "task-0001" input 5000)))
      "session-1"
    ≡ Outcome.ok (request_of "session-1" (of_ℕ 90000) "task-0001" input 5000)
unfolding is_identifier number_lt
parse_request-request_of_example =
    parse_request-request_of (λ p. 16) body "session-1" (of_ℕ 90000) "task-0001" 5000 accepted refl
      refl

abbrev reply : DeviceOpsResponse
reply = record {
  session_id = "session-1";
  request_id = "task-0001";
  operation = audio_get;
  status = success;
  code = "OPS_OPERATION_SUCCEEDED";
  message = "Operation completed";
  details = obj end;
  started_at = 5000;
  finished_at = 5200;
  duration_ms = 200;
}

acceptable : IsAcceptable reply
unfolding is_identifier units
acceptable = record {
  session_id = refl;
  request_id = refl;
  code = omega arith;
  message = omega arith;
  ordered = omega arith;
}

parse_response-response_example :
    parse_response (λ n. "0") (obj (response_fields reply))
    ≡ Outcome.ok (record {
      value = response_fields reply;
      message = reply.message;
      contents = unread (obj end);
    })
parse_response-response_example = parse_response-response (λ n. "0") reply acceptable refl

-- A button that was found at a point of the screen.
abbrev button : Json → Fields
button confidence = field "source" (str "android-uiautomator") (
    field "confidence" confidence (
      field "packageName" (str "com.example") (
        field "activityName" null (
          field "className" (str "android.widget.Button") (
            field "text"
              (obj (
                field "mode" (str "literal")
                  (field "value" (str "Publish") (field "reviewed" (bool true) end))))
              (field "bounds"
                (obj (
                  field "left" (num (of_ℕ 10)) (
                    field "top" (num (of_ℕ 20)) (
                      field "right" (num (of_ℕ 110)) (
                        field "bottom" (num (of_ℕ 60)) (
                          field "screenWidth" (num (of_ℕ 1080))
                            (field "screenHeight" (num (of_ℕ 2400)) end)))))))
                (field "clickable" (bool true) (field "editable" (bool false) end))))))))

abbrev lookup_answer : Json → Json → Fields
lookup_answer status confidence = field "protocolVersion" (num (of_ℕ 1)) (
    field "type" (str "response") (
      field "sessionId" (str "session-1") (
        field "requestId" (str "task-0001") (
          field "operation" (str "device.ui.target-at") (
            field "status" status (
              field "code" (str "OPS_OPERATION_SUCCEEDED") (
                field "message" (str "secret text") (
                  field "data"
                    (obj (
                      field "target" (obj (button confidence)) (
                        field "foreground"
                          (obj (field "packageName" null (field "activityName" null end)))
                          (field "display"
                            (obj (
                              field "width" (num (of_ℕ 1080))
                                (field "height" (num (of_ℕ 2400)) end)))
                            (field "capturedAt" (num (of_ℕ 5100)) end)))))
                    (field "startedAt" (num (of_ℕ 5000)) (
                      field "finishedAt" (num (of_ℕ 5200))
                        (field "durationMs" (num (of_ℕ 200)) end)))))))))))

abbrev is_ok {ℓ} : {A : Type ℓ} → Outcome A → Bool
is_ok (Outcome.ok a) = true
is_ok (Outcome.throw e) = false

abbrev message_of : Outcome ParsedResponse → String
message_of (Outcome.ok r) = r.message
message_of (Outcome.throw e) = e

-- The device's own message does not get through.
fixed_message :
    message_of (parse_response (λ n. "0") (obj (lookup_answer (str "SUCCESS") (str "composite"))))
    ≡ "Operation completed"
unfolding parse_response as_record as_string as_number get only_keys time_field finite_only
    is_finite is_number number_eq number_lt is_string is_device_ops_id is_identifier string_of
    text_of units parse_target_at safe_in is_safe_integer record_of parse_classified_text is_public
    component_only message_for found_data
fixed_message = refl

-- A heuristic target has no texts; a list that holds the one text `heuristic` is not seen as that.
heuristic_text :
    is_ok (parse_response (λ n. "0") (obj (lookup_answer (str "SUCCESS") (str "heuristic"))))
    ≡ false
unfolding parse_response as_record as_string as_number get only_keys time_field finite_only
    is_finite is_number number_eq number_lt is_string is_device_ops_id is_identifier string_of
    text_of units parse_target_at safe_in is_safe_integer record_of parse_classified_text is_public
    component_only message_for found_data
heuristic_text = refl

heuristic_list :
    is_ok (
      parse_response
        (λ n. "0")
        (obj (lookup_answer (str "SUCCESS") (arr (cons (str "heuristic") nil)))))
    ≡ true
unfolding parse_response as_record as_string as_number get only_keys time_field finite_only
    is_finite is_number number_eq number_lt is_string is_device_ops_id is_identifier string_of
    text_of units parse_target_at safe_in is_safe_integer record_of parse_classified_text is_public
    component_only message_for found_data
heuristic_list = refl

abbrev parsed : ParsedResponse
parsed = record {
  value = lookup_answer (str "SUCCESS") (str "composite");
  message = "Operation completed";
  contents = target_at (record {
    target = some (record {
      confidence = some (str "composite");
      package_name = some "com.example";
      activity_name = none;
      class_name = "android.widget.Button";
      resource_id = none;
      text = some (literal "Publish");
      description = none;
      bounds = record { left = of_ℕ 10; top = of_ℕ 20; right = of_ℕ 110; bottom = of_ℕ 60 };
      clickable = true;
      editable = false;
    });
    foreground = record { package_name = none; activity_name = none };
    display = record { width = of_ℕ 1080; height = of_ℕ 2400 };
    captured_at = of_ℕ 5100;
  });
}

parsed_lem :
    parse_response (λ n. "0") (obj (lookup_answer (str "SUCCESS") (str "composite")))
    ≡ Outcome.ok parsed
unfolding parse_response as_record as_string as_number get only_keys time_field finite_only
    is_finite is_number number_eq number_lt is_string is_device_ops_id is_identifier string_of
    text_of units parse_target_at safe_in is_safe_integer record_of parse_classified_text is_public
    component_only message_for found_data
parsed_lem = refl

parse_response-IsPrivateData_example :
    ((code : String) × (as_string (get "code" parsed.value) ≡ some code)
      × (message_for (message_key (λ n. "0") parsed.value code) target_messages
          ≡ some "Operation completed"))
    × IsPrivateData parsed.value parsed.contents
unfolding get is_string
parse_response-IsPrivateData_example =
    parse_response-IsPrivateData (λ n. "0") (obj (lookup_answer (str "SUCCESS") (str "composite")))
      parsed_lem refl
