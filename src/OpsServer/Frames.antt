-- ===== src/OpsServer/Frames.antt =====
-- The frames of pc/src/device-ops-protocol.ts that carry no result, `parseDeviceOpsHello` and
-- `parseDeviceOpsClose`, and what stands before a session: its endpoint and its secrets.
use one_autojs.Base.{
  ℕ, String, Bool, true, false, not, as_string, str_eq, length, ◌==◌, ◌&&◌, List, [], ◌∷◌, Option,
  some, Json, Fields, str, num, get, as_record, is_number, is_string, of_ℕ, is_finite, codes, ltb,
  Outcome, ok, ◌>>=◌, ◌>>◌, require, or_throw,
}
use one_autojs.Ops.Parse.{Url, is_secure, is_bare}
use one_autojs.Ops.Artifact.{only_keys}
use one_autojs.OpsServer.{units, is_device_ops_id, is_device_ops_client_id, is_device_ops_record}

-- `typeof value.key === "number" && Number.isFinite(value.key)`
unfoldable pub is_instant : Option Json → Bool
is_instant (some (num n)) = is_finite n
is_instant _ = false

-- `typeof value.key === "string" && value.key.length <= most`
unfoldable pub is_short : ℕ → Option Json → Bool
unfolding units
is_short most (some (str s)) = not (ltb most (units (codes s)))
is_short most _ = false

abbrev hello_keys : List String
hello_keys =
    "protocolVersion" ∷ "type" ∷ "role" ∷ "sessionId" ∷ "deviceId" ∷ "nonce" ∷ "capabilities"
    ∷ "timestamp" ∷ []

unfoldable pub is_hello : Fields → Bool
is_hello value =
    is_number (of_ℕ 1) (get "protocolVersion" value)
    && is_string "hello" (get "type" value)
    && is_string "device" (get "role" value)
    && is_device_ops_id (get "sessionId" value)
    && is_device_ops_client_id (get "deviceId" value)
    && is_device_ops_id (get "nonce" value)
    && is_device_ops_record (get "capabilities" value)
    && is_instant (get "timestamp" value)

-- `parseDeviceOpsHello`
unfoldable pub parse_hello : Json → Outcome Fields
unfolding is_hello
parse_hello frame = do
  value ← or_throw (as_record frame) "Ops hello must be an object"
  require (only_keys hello_keys value) "hello contains unknown field"
  require (is_hello value) "Invalid device operations hello"
  ok value

abbrev close_keys : List String
close_keys = "protocolVersion" ∷ "type" ∷ "sessionId" ∷ "code" ∷ "message" ∷ "timestamp" ∷ []

unfoldable pub is_close : Fields → Bool
unfolding is_short
is_close value =
    is_number (of_ℕ 1) (get "protocolVersion" value)
    && is_string "close" (get "type" value)
    && is_device_ops_id (get "sessionId" value)
    && is_short 100 (get "code" value)
    && is_short 1000 (get "message" value)
    && is_instant (get "timestamp" value)

-- `parseDeviceOpsClose`
unfoldable pub parse_close : Json → Outcome Fields
unfolding is_close
parse_close frame = do
  value ← or_throw (as_record frame) "Ops close must be an object"
  require (only_keys close_keys value) "close contains unknown field"
  require (is_close value) "Invalid device operations close"
  ok value

-- `normalizeDeviceOpsWsUrl`; `parse_url` is `new URL`, and `trim` is of the language.
unfoldable pub normalize_ws_url :
    (String → Outcome Url) → (String → String) → Option Json → Outcome String
normalize_ws_url parse_url trim value = do
  text ← or_throw (as_string value) "DEVICE_OPS_WS_URL is required"
  require (not (str_eq (trim text) "")) "DEVICE_OPS_WS_URL is required"
  url ← parse_url (trim text)
  require (is_secure url) "DEVICE_OPS_WS_URL must use WSS except on loopback"
  require (is_bare url) "DEVICE_OPS_WS_URL must not contain credentials, query data, or a fragment"
  ok url.href

abbrev same_bytes : List ℕ → List ℕ → Bool
same_bytes [] [] = true
same_bytes (a ∷ xs) (b ∷ bs) = a == b && same_bytes xs bs
same_bytes _ _ = false

-- `safeDeviceOpsSecretEqual`; `utf8` gives the bytes of a text.
unfoldable pub secret_equal : (String → List ℕ) → String → String → Bool
secret_equal utf8 actual expected =
    length (utf8 actual) == length (utf8 expected) && same_bytes (utf8 actual) (utf8 expected)
