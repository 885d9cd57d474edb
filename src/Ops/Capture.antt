-- ===== src/Ops/Capture.antt =====
-- A screenshot on its way: `executeAndTransfer` of mobile/src/ops-session.ts, whose two `await`s split
-- it in three, and the test of `handleResponse` of pc/src/service/device-ops.service.ts that meets
-- its response with its frame.
use one_autojs.Base.{
  ℕ, String, Bool, true, false, not, ◌&&◌, ◌||◌, List, Option, none, some, Json, Fields, num, str,
  obj, bool, null, end, field, get, of_ℕ, number_le, number_eq, str_eq, leb, Outcome, ok, throw,
  if◌then◌else◌,
}
use one_autojs.Ops.{
  DeviceOpsOperation, DeviceOpsRequest, DeviceOpsResponseStatus, failure, is_capture,
}
use one_autojs.Ops.Handle.{Finish, succeeded, failed}
use one_autojs.Ops.Artifact.{DeviceOpsArtifact, encode_artifact_frame}

-- `socket` at one moment: whether its state is OPEN, and its `bufferedAmount`.
pub record Socket : Type 0 where
  pub is_open : Bool
  pub buffered : ℕ

abbrev pub is_free : Socket → Bool
is_free socket = socket.is_open && leb socket.buffered 1048576

abbrev pub busy : Finish
busy = failed failure "SCREENSHOT_TRANSFER_BUSY" "Operations channel is busy"

-- Up to the executor's call: `none` if it is called.
unfoldable pub begin_transfer : DeviceOpsOperation → Socket → Option Finish
begin_transfer operation socket =
    if is_capture operation && not (is_free socket) then some busy else none

-- What the executor answers: a screenshot, for which `isDeviceOpsArtifact` holds, other data, or an
-- error.
pub data Executed : Type 0 where
  artifact : DeviceOpsArtifact → Executed
  plain : Json → Executed
  raised : DeviceOpsResponseStatus → String → String → Executed

-- The operation is at its end, or a frame is being sent.
pub data Transfer : Type 0 where
  finish : Finish → Transfer
  sending : List ℕ → DeviceOpsArtifact → Transfer

-- The message of a code that the encoder throws.
abbrev encoding_message : String → String
encoding_message code =
    if str_eq code "SCREENSHOT_TOO_LARGE"
    then "Screenshot exceeded the operations artifact limit"
    else "Screenshot artifact header exceeded the operations limit"

abbrev pub send_frame : Outcome (List ℕ) → DeviceOpsArtifact → Transfer
send_frame (ok frame) a = sending frame a
send_frame (throw code) a = finish (failed failure code (encoding_message code))

-- From the executor's answer on; `active` says that the session is the manager's and is not closed.
unfoldable pub after_execute :
    (Json → List ℕ) → DeviceOpsRequest → Bool → ℕ → Socket → Executed → Transfer
after_execute stringify request active now socket (plain details) = finish (succeeded details)
after_execute stringify request active now socket (raised status code message) =
    finish (failed status code message)
after_execute stringify request active now socket (artifact a) =
    if not (is_capture request.operation) || not active || number_le request.expires_at (of_ℕ now)
    then finish
        (failed failure "SCREENSHOT_TRANSFER_FAILED" "Screenshot transfer could not be completed")
    else if not (is_free socket)
    then finish busy
    else send_frame (encode_artifact_frame stringify request.session_id request.request_id a) a

-- The data of the response to a screenshot.
unfoldable pub metadata : DeviceOpsArtifact → Fields
metadata a = field "artifactId" (str a.artifact_id) (
    field "mimeType" (str "image/png") (
      field "sizeBytes" (num (of_ℕ a.size_bytes)) (
        field "sha256" (str a.sha256) (
          field "width" (num (of_ℕ a.width)) (
            field "height" (num (of_ℕ a.height))
              (field "capturedAt" (num (of_ℕ a.captured_at)) end))))))

-- From the callback of `socket.send` on.
unfoldable pub after_send : Bool → DeviceOpsArtifact → Finish
after_send true a = succeeded (obj (metadata a))
after_send false a = failed failure "SCREENSHOT_TRANSFER_FAILED" "Screenshot transfer failed"

-- `a === b`; two objects that were parsed from different texts are never the same.
unfoldable pub same_value : Option Json → Option Json → Bool
same_value none none = true
same_value (some null) (some null) = true
same_value (some (bool true)) (some (bool b)) = b
same_value (some (bool false)) (some (bool b)) = not b
same_value (some (num n)) (some (num m)) = number_eq n m
same_value (some (str s)) (some (str t)) = str_eq s t
same_value _ _ = false

abbrev same_field : String → Fields → Fields → Bool
same_field key a b = same_value (get key a) (get key b)

-- The server's test of a response's data against the header of the frame before.
unfoldable pub matches_header : Fields → Fields → Bool
matches_header details header =
    same_field "artifactId" details header
    && same_field "mimeType" details header
    && same_field "sizeBytes" details header
    && same_field "sha256" details header
    && same_field "width" details header
    && same_field "height" details header
    && same_field "capturedAt" details header
