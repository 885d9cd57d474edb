-- ===== src/Ops/Artifact.antt =====
-- The binary screenshot frame: `encodeDeviceOpsArtifactFrame` of mobile/src/ops-protocol.ts, and
-- `parseDeviceOpsArtifactFrame` of pc/src/device-ops-protocol.ts, which reads it on the server.
use Prim.Native.Nat.{◌/◌, ◌%◌, ◌*◌}
use one_autojs.Base.{
  ℕ, zero, suc, ◌+◌, String, Bool, true, false, not, ◌&&◌, ◌||◌, List, [], ◌∷◌, ◌++◌, Option, none,
  some, Json, Fields, obj, str, num, field, end, get, as_record, as_string, as_number, is_number,
  is_string, Number, of_ℕ, number_lt, number_eq, is_integer, is_finite, is_identifier, is_sha256,
  str_eq, length, ltb, ◌==◌, Outcome, ok, ◌>>=◌, ◌>>◌, require, or_throw, if◌then◌else◌,
}

-- `DeviceOpsArtifact`; its fields of one value are left out, and its measures are counts.
pub record DeviceOpsArtifact : Type 0 where
  pub artifact_id : String
  pub content : List ℕ
  pub size_bytes : ℕ
  pub sha256 : String
  pub width : ℕ
  pub height : ℕ
  pub captured_at : ℕ

-- The object `header`.
unfoldable pub artifact_header : String → String → DeviceOpsArtifact → Fields
artifact_header session_id request_id a = field "protocolVersion" (num (of_ℕ 1)) (
    field "type" (str "artifact") (
      field "sessionId" (str session_id) (
        field "requestId" (str request_id) (
          field "operation" (str "device.screen.capture") (
            field "artifactId" (str a.artifact_id) (
              field "mimeType" (str "image/png") (
                field "sizeBytes" (num (of_ℕ a.size_bytes)) (
                  field "sha256" (str a.sha256) (
                    field "width" (num (of_ℕ a.width)) (
                      field "height" (num (of_ℕ a.height))
                        (field "capturedAt" (num (of_ℕ a.captured_at)) end)))))))))))

-- `writeUInt32BE` and `readUInt32BE`
unfoldable pub write_uint32_be : ℕ → List ℕ
write_uint32_be n = n / 16777216 % 256 ∷ n / 65536 % 256 ∷ n / 256 % 256 ∷ n % 256 ∷ []

unfoldable pub read_uint32_be : List ℕ → ℕ
read_uint32_be (a ∷ b ∷ c ∷ d ∷ rest) = a * 16777216 + b * 65536 + c * 256 + d
read_uint32_be _ = 0

abbrev pub take : ℕ → List ℕ → List ℕ
take zero xs = []
take (suc n) [] = []
take (suc n) (x ∷ xs) = x ∷ take n xs

abbrev pub drop : ℕ → List ℕ → List ℕ
drop zero xs = xs
drop (suc n) [] = []
drop (suc n) (x ∷ xs) = drop n xs

-- `encodeDeviceOpsArtifactFrame`; `stringify` is JSON.stringify as UTF-8 bytes, and a failure is
-- thrown as its code.
unfoldable pub encode_artifact_frame :
    (Json → List ℕ) → String → String → DeviceOpsArtifact → Outcome (List ℕ)
unfolding artifact_header write_uint32_be
encode_artifact_frame stringify session_id request_id a = do
  require
      (length a.content == a.size_bytes && ltb 0 a.size_bytes && not (ltb 16777216 a.size_bytes))
      "SCREENSHOT_TOO_LARGE"
  let header = stringify (obj (artifact_header session_id request_id a))
  require (not (ltb 4096 (length header))) "SCREENSHOT_FORMAT_INVALID"
  ok (write_uint32_be (length header) ++ header ++ a.content)

abbrev pub artifact_keys : List String
artifact_keys =
    "protocolVersion" ∷ "type" ∷ "sessionId" ∷ "requestId" ∷ "operation" ∷ "artifactId" ∷ "mimeType"
    ∷ "sizeBytes" ∷ "sha256" ∷ "width" ∷ "height" ∷ "capturedAt" ∷ []

abbrev includes_key : String → List String → Bool
includes_key key [] = false
includes_key key (k ∷ ks) = str_eq k key || includes_key key ks

-- `Object.keys(value).find((key) => !allowed.includes(key))`
abbrev unknown_key : List String → Fields → Option String
unknown_key allowed end = none
unknown_key allowed (field k v fs) =
    if includes_key k allowed then unknown_key allowed fs else some k

abbrev is_falsy : Option String → Bool
is_falsy none = true
is_falsy (some s) = str_eq s ""

-- `requireOnlyKeys`, which takes an unknown key that is empty for none.
unfoldable pub only_keys : List String → Fields → Bool
only_keys allowed value = is_falsy (unknown_key allowed value)

abbrev is_id : Option String → Bool
is_id none = false
is_id (some s) = is_identifier s

abbrev is_digest : Option String → Bool
is_digest none = false
is_digest (some s) = is_sha256 s

-- An integer from 1 to a maximum.
abbrev is_count : ℕ → Option Number → Bool
is_count most none = false
is_count most (some n) = is_integer n && not (number_lt n (of_ℕ 1)) && not (number_lt (of_ℕ most) n)

abbrev is_time : Option Number → Bool
is_time none = false
is_time (some n) = is_finite n

-- The test of the header's fields.
unfoldable pub is_artifact_header : Fields → Bool
is_artifact_header parsed =
    is_number (of_ℕ 1) (get "protocolVersion" parsed)
    && is_string "artifact" (get "type" parsed)
    && is_id (as_string (get "sessionId" parsed))
    && is_id (as_string (get "requestId" parsed))
    && is_string "device.screen.capture" (get "operation" parsed)
    && is_id (as_string (get "artifactId" parsed))
    && is_string "image/png" (get "mimeType" parsed)
    && is_count 16777216 (as_number (get "sizeBytes" parsed))
    && is_digest (as_string (get "sha256" parsed))
    && is_count 16384 (as_number (get "width" parsed))
    && is_count 16384 (as_number (get "height" parsed))
    && is_time (as_number (get "capturedAt" parsed))

abbrev pub has_size : Option Number → ℕ → Bool
has_size none n = false
has_size (some size) n = number_eq (of_ℕ n) size

abbrev pub has_digest : Option String → String → Bool
has_digest none digest = false
has_digest (some expected) digest = str_eq digest expected

-- The server's `DeviceOpsArtifact`.
pub record ReceivedArtifact : Type 0 where
  pub header : Fields
  pub content : List ℕ

-- `parseDeviceOpsArtifactFrame` once the frame is cut in two; `parse_json` is JSON.parse on UTF-8
-- bytes, `digest` is the SHA-256 in hexadecimal.
unfoldable pub parse_parts :
    (List ℕ → Option Json) → (List ℕ → String) → List ℕ → List ℕ → Outcome ReceivedArtifact
unfolding only_keys is_artifact_header
parse_parts parse_json digest header content = do
  json ← or_throw (parse_json header) "Invalid device operations artifact header JSON"
  parsed ← or_throw (as_record json) "Invalid device operations artifact header"
  require (only_keys artifact_keys parsed) "artifact contains unknown field"
  require (is_artifact_header parsed) "Invalid device operations artifact header"
  require (has_size (as_number (get "sizeBytes" parsed)) (length content))
      "Device operations artifact length does not match header"
  require (has_digest (as_string (get "sha256" parsed)) (digest content))
      "Device operations artifact checksum mismatch"
  ok (record { header = parsed; content = content })

abbrev pub has_frame_size : List ℕ → Bool
has_frame_size frame = not (ltb (length frame) 5) && not (ltb 16781316 (length frame))

abbrev pub has_header_size : List ℕ → ℕ → Bool
has_header_size frame n = not (ltb n 2) && not (ltb 4096 n) && not (ltb (length frame) (4 + n))

-- `parseDeviceOpsArtifactFrame`
unfoldable pub parse_artifact_frame :
    (List ℕ → Option Json) → (List ℕ → String) → List ℕ → Outcome ReceivedArtifact
unfolding parse_parts
parse_artifact_frame parse_json digest frame = do
  require (has_frame_size frame) "Invalid device operations artifact size"
  let header_size = read_uint32_be frame
  require (has_header_size frame header_size) "Invalid device operations artifact header size"
  parse_parts parse_json digest (take header_size (drop 4 frame)) (drop (4 + header_size) frame)
