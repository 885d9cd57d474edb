-- ===== src/Ops/Tests.antt =====
-- Runs of the maintenance channel, and instances of its theorems.
use one_autojs.Base.{
  arith, ℕ, ◌≡◌, refl, String, true, false, Option, none, some, List, [], ◌∷◌, Json, obj, str, num,
  field, end, Outcome, ok, get_elem?, of_ℕ, get, as_record, as_string, as_number, is_number,
  is_string, number_eq, number_lt, number_le, number_add, is_finite, is_identifier, is_device_id,
  is_sha256, str_eq, find,
}
use one_autojs.Protocol.Parse.{finite_only, record_of}
use one_autojs.Ops.{
  DeviceOpsOpenSessionCommand, DeviceOpsRequest, DeviceOpsResponse, audio_set, screen_capture,
  is_mutating,
}
use one_autojs.Ops.Parse.{Url, parse_open_session, parse_request, text_field, time_field}
use one_autojs.Ops.Sound.{IsOpenable, parse_open_session-IsOpenable}
use one_autojs.Ops.Session.{ActiveSession, Running, open_socket}
use one_autojs.Ops.Handle.{
  succeeded, finished, handle_request, finish_request, admit_request, begin_operation, at_limit,
}
use one_autojs.Ops.Bounds.{IsLimited}
use one_autojs.Ops.Runs.{SessionRun, start, step, received, opened, SessionRun-IsLimited}
use one_autojs.Ops.Idempotent.{IsRepeated, finish_request-IsRepeated}
use one_autojs.Ops.Manager.{DeviceOpsSessionManager, Options, new_session, handle_open_command}
use one_autojs.Ops.Single.{IsAnswered, handle_open_command_lem}
use one_autojs.Ops.Artifact.{
  DeviceOpsArtifact, artifact_header, encode_artifact_frame, parse_artifact_frame, write_uint32_be,
}
use one_autojs.Ops.Capture.{artifact, sending, after_execute, after_send, metadata, matches_header}
use one_autojs.Ops.Captured.{IsSent, after_execute-matches}
use one_autojs.Ops.Transfer.{IsSound, parse_artifact_frame-encode}

-- A URL parser that knows one endpoint.
abbrev endpoint : Url
endpoint = record {
  protocol = "wss:";
  hostname = "ops.example";
  username = "";
  password = "";
  search = "";
  hash = "";
  origin = "wss://ops.example";
  href = "wss://ops.example/ops";
}

abbrev parse_url : String → Outcome Url
parse_url text = ok endpoint

abbrev origin_of : String → String
origin_of text = "wss://ops.example"

abbrev open_payload : String → Json
open_payload session_id = obj (
    field "protocolVersion" (num (of_ℕ 1)) (
      field "type" (str "OPEN_SESSION") (
        field "sessionId" (str session_id) (
          field "deviceId" (str "phone:1") (
            field "nonce" (str "nonce_0001") (
              field "wsUrl" (str "wss://ops.example/ops") (
                field "issuedAt" (num (of_ℕ 1000))
                  (field "expiresAt" (num (of_ℕ 601000)) end))))))))

abbrev open_command : String → DeviceOpsOpenSessionCommand
open_command session_id = record {
  session_id = session_id;
  device_id = "phone:1";
  ws_url = "wss://ops.example/ops";
  nonce = "nonce_0001";
  issued_at = of_ℕ 1000;
  expires_at = of_ℕ 601000;
}

opens : parse_open_session parse_url (open_payload "session_1") ≡ ok (open_command "session_1")
unfolding parse_open_session text_field time_field get as_record as_string as_number is_number
    is_string number_eq number_lt number_le number_add is_finite finite_only is_identifier
    is_device_id str_eq
opens = refl

parse_open_session-IsOpenable_example :
    (text : String) × (url : Url) × (parse_url text ≡ ok url)
    × IsOpenable url (open_command "session_1")
parse_open_session-IsOpenable_example =
    parse_open_session-IsOpenable parse_url (open_payload "session_1") opens

abbrev frame : Json
frame = obj (
    field "protocolVersion" (num (of_ℕ 1)) (
      field "type" (str "request") (
        field "sessionId" (str "session_1") (
          field "requestId" (str "request_1") (
            field "operation" (str "device.audio.set") (
              field "params" (obj (field "volume" (num (of_ℕ 3)) end)) (
                field "createdAt" (num (of_ℕ 2000))
                  (field "expiresAt" (num (of_ℕ 12000)) end))))))))

abbrev volume_request : DeviceOpsRequest
volume_request = record {
  session_id = "session_1";
  request_id = "request_1";
  operation = audio_set;
  params = field "volume" (num (of_ℕ 3)) end;
  created_at = of_ℕ 2000;
  expires_at = of_ℕ 12000;
}

abbrev frame_bytes : DeviceOpsResponse → ℕ
frame_bytes r = 300

abbrev fresh : ActiveSession
fresh = new_session 0 1500 (open_command "session_1")

fresh-IsLimited : IsLimited fresh
fresh-IsLimited = record {
  writing = refl;
  reading = refl;
  capturing = refl;
  one_writer = omega arith;
  four_readers = omega arith;
  kept = omega arith;
}

abbrev serving : ActiveSession
serving = handle_request frame_bytes false 2100 frame (open_socket 1600 fresh)

serving_run : SessionRun frame_bytes fresh serving
serving_run = step (step start (opened 1600 refl)) (received false 2100 frame refl)

SessionRun-IsLimited_example : IsLimited serving
SessionRun-IsLimited_example = SessionRun-IsLimited frame_bytes fresh-IsLimited serving_run

abbrev volume_running : Running
volume_running = record { request = volume_request; started_at = 2100 }

serves : get_elem? serving.running 0 ≡ some volume_running
unfolding handle_request parse_request text_field time_field get as_record as_string as_number
    is_number is_string number_eq number_lt number_le number_add is_finite finite_only record_of
    is_identifier str_eq find admit_request begin_operation at_limit is_mutating
serves = refl

-- One writer at a time.
one_writer : serving.write_in_flight ≡ 1
unfolding handle_request parse_request text_field time_field get as_record as_string as_number
    is_number is_string number_eq number_lt number_le number_add is_finite finite_only record_of
    is_identifier str_eq find admit_request begin_operation at_limit is_mutating
one_writer = refl

same_command : parse_request frame serving.command.session_id ≡ ok volume_request
unfolding handle_request parse_request text_field time_field get as_record as_string as_number
    is_number is_string number_eq number_lt number_le number_add is_finite finite_only record_of
    is_identifier str_eq find admit_request begin_operation at_limit is_mutating
same_command = refl

finish_request-IsRepeated_example :
    let t = finish_request frame_bytes 2500 0 (succeeded (obj end)) serving in
    IsRepeated frame_bytes
      (finished 2500 volume_running (succeeded (obj end)))
      t
      (handle_request frame_bytes false 3000 frame t)
finish_request-IsRepeated_example =
    finish_request-IsRepeated frame_bytes 2500 3000 0 (succeeded (obj end)) false frame
      volume_request serving SessionRun-limited serves same_command refl
  where
    SessionRun-limited : IsLimited serving
    SessionRun-limited = SessionRun-IsLimited frame_bytes fresh-IsLimited serving_run

abbrev options : Options
options = record {
  device_id = "phone:1";
  allowed_ws_origins = "wss://ops.example" ∷ [];
  deployment_blocked = false;
  remote_control_blocked = false;
}

abbrev no_session : DeviceOpsSessionManager
no_session = record { active = none; events = []; reconnecting = []; next_identity = 0 }

abbrev one_session : DeviceOpsSessionManager
one_session = record { active = some fresh; events = []; reconnecting = []; next_identity = 1 }

handle_open_command_example :
    IsAnswered options 1500 "wss://ops.example"
      (open_command "session_1")
      no_session
      (handle_open_command parse_url origin_of options 1500 (open_payload "session_1") no_session)
handle_open_command_example =
    handle_open_command_lem parse_url origin_of options 1500 (open_payload "session_1")
      (open_command "session_1") no_session refl opens

-- A screenshot of three bytes, with a digest and a JSON text that stand for real ones.
abbrev hex : String
hex = "00112233445566778899aabbccddeeff00112233445566778899aabbccddeeff"

abbrev shot : DeviceOpsArtifact
shot = record {
  artifact_id = "artifact_1";
  content = 1 ∷ 2 ∷ 3 ∷ [];
  size_bytes = 3;
  sha256 = hex;
  width = 1080;
  height = 2400;
  captured_at = 5000;
}

abbrev stringify : Json → List ℕ
stringify v = 123 ∷ 125 ∷ []

abbrev parse_json : List ℕ → Option Json
parse_json text = some (obj (artifact_header "session_1" "request_1" shot))

abbrev digest : List ℕ → String
digest content = hex

shot-IsSound : IsSound digest "session_1" "request_1" shot
unfolding is_identifier is_sha256
shot-IsSound = record {
  session_id = refl;
  request_id = refl;
  artifact_id = refl;
  sha256 = refl;
  digested = refl;
  wide = (omega arith, omega arith);
  high = (omega arith, omega arith);
}

encodes :
    encode_artifact_frame stringify "session_1" "request_1" shot
    ≡ ok (0 ∷ 0 ∷ 0 ∷ 2 ∷ 123 ∷ 125 ∷ 1 ∷ 2 ∷ 3 ∷ [])
unfolding encode_artifact_frame write_uint32_be
encodes = refl

parse_artifact_frame-encode_example :
    parse_artifact_frame parse_json digest (0 ∷ 0 ∷ 0 ∷ 2 ∷ 123 ∷ 125 ∷ 1 ∷ 2 ∷ 3 ∷ [])
    ≡ ok (record { header = artifact_header "session_1" "request_1" shot; content = shot.content })
parse_artifact_frame-encode_example =
    parse_artifact_frame-encode parse_json digest stringify "session_1" "request_1" shot
      shot-IsSound (omega arith) refl encodes

abbrev shot_request : DeviceOpsRequest
shot_request = record {
  session_id = "session_1";
  request_id = "request_1";
  operation = screen_capture;
  params = end;
  created_at = of_ℕ 2000;
  expires_at = of_ℕ 9000;
}

sends :
    after_execute stringify shot_request true 5000
      (record { is_open = true; buffered = 100 })
      (artifact shot)
    ≡ sending (0 ∷ 0 ∷ 0 ∷ 2 ∷ 123 ∷ 125 ∷ 1 ∷ 2 ∷ 3 ∷ []) shot
unfolding after_execute encode_artifact_frame write_uint32_be number_le
sends = refl

after_execute-matches_example :
    IsSent shot_request true 5000 (record { is_open = true; buffered = 100 })
    × (parse_artifact_frame parse_json digest (0 ∷ 0 ∷ 0 ∷ 2 ∷ 123 ∷ 125 ∷ 1 ∷ 2 ∷ 3 ∷ [])
        ≡ ok (record {
          header = artifact_header "session_1" "request_1" shot;
          content = shot.content;
        }))
    × (after_send true shot ≡ succeeded (obj (metadata shot)))
    × (matches_header (metadata shot) (artifact_header "session_1" "request_1" shot) ≡ true)
after_execute-matches_example =
    after_execute-matches parse_json digest stringify shot_request true 5000
      (record { is_open = true; buffered = 100 }) (artifact shot) shot-IsSound (omega arith) refl
      sends
