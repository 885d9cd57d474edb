-- ===== src/OpsServer/Params.antt =====
-- `parseOperationParams` of pc/src/device-ops-protocol.ts.
use Prim.Native.String
use one_autojs.Base.{
  ℕ, ◌+◌, String, Bool, true, false, not, ◌&&◌, ◌||◌, List, [], ◌∷◌, Option, none, some, Json,
  Fields, num, str, end, field, get, as_string, Number, of_ℕ, number_lt, str_eq, codes,
  matches_class, is_upper, is_lower, is_digit, ltb, ◌==◌, Outcome, ok, throw, ◌>>=◌, ◌>>◌, require,
  or_throw, if◌then◌else◌, is_some,
}
use one_autojs.Protocol.Parse.{record_of}
use one_autojs.Ops.{
  DeviceOpsOperation, ops_capabilities, audio_get, audio_set, audio_mute, audio_unmute,
  brightness_get, brightness_set, storage_stat, files_list, foreground_get, ui_target_at,
  network_get, telephony_get, alert_find, screen_capture,
}
use one_autojs.Ops.Artifact.{only_keys}
use one_autojs.OpsServer.{units, includes, integer_in, safe_in}

-- `DEVICE_OPS_AUDIO_STREAMS`
abbrev pub audio_streams : List String
audio_streams =
    "voiceCall" ∷ "system" ∷ "ring" ∷ "media" ∷ "alarm" ∷ "notification" ∷ "bluetoothSco" ∷ "dtmf"
    ∷ "accessibility" ∷ []

-- `parseAudioStream`
unfoldable pub parse_audio_stream : Option Json → Bool → Outcome String
parse_audio_stream (some (str s)) allow_all =
    if includes s audio_streams || allow_all && str_eq s "all"
    then ok s
    else throw "params.stream is not an allowlisted Android audio stream"
parse_audio_stream _ allow_all = throw "params.stream is not an allowlisted Android audio stream"

-- A field that is left out has a default; any other value is itself.
abbrev pub or_default : Json → Option Json → Option Json
or_default default none = some default
or_default default (some value) = some value

abbrev point_message : String
point_message = "params x/y must be safe integers inside screenWidth/screenHeight from 1 to 16384"

abbrev level_message : String
level_message =
    String.◌++◌ "params.level must be a non-negative absolute Android stream index; "
      "query device.audio.get for the dynamic maximum"

unfoldable pub target_params : Fields → Outcome Fields
target_params params = do
  require (only_keys ("x" ∷ "y" ∷ "screenWidth" ∷ "screenHeight" ∷ []) params)
      "params contains unknown field"
  width ← or_throw (safe_in 1 (some 16384) (get "screenWidth" params)) point_message
  height ← or_throw (safe_in 1 (some 16384) (get "screenHeight" params)) point_message
  x ← or_throw (safe_in 0 none (get "x" params)) point_message
  y ← or_throw (safe_in 0 none (get "y" params)) point_message
  require (number_lt x width && number_lt y height) point_message
  ok (
      field "x" (num x) (
        field "y" (num y)
          (field "screenWidth" (num width) (field "screenHeight" (num height) end))))

unfoldable pub no_params : Fields → Outcome Fields
no_params params = do require (only_keys [] params) "params contains unknown field"; ok end

-- An absent stream is `all`, where the aggregate is allowed.
unfoldable pub stream_params : Bool → Fields → Outcome Fields
unfolding parse_audio_stream
stream_params allow_all params = do
  require (only_keys ("stream" ∷ []) params) "params contains unknown field"
  stream ←
      parse_audio_stream
        (if allow_all then or_default (str "all") (get "stream" params) else get "stream" params)
        allow_all
  ok (field "stream" (str stream) end)

unfoldable pub level_params : Fields → Outcome Fields
unfolding parse_audio_stream
level_params params = do
  require (only_keys ("stream" ∷ "level" ∷ []) params) "params contains unknown field"
  level ← or_throw (safe_in 0 none (get "level" params)) level_message
  stream ← parse_audio_stream (get "stream" params) false
  ok (field "stream" (str stream) (field "level" (num level) end))

-- The two optional fields of a brightness; what the fields after the first are is given.
unfoldable pub brightness_level : Option Json → Outcome (Option Number)
brightness_level none = ok none
brightness_level (some value) = do
  level ←
      or_throw (integer_in 1 255 (some value)) "params.level must be an integer between 1 and 255"
  ok (some level)

abbrev pub mode_only : Option String → Option String
mode_only none = none
mode_only (some s) = if str_eq s "manual" || str_eq s "automatic" then some s else none

unfoldable pub brightness_mode : Option Json → Outcome (Option String)
brightness_mode none = ok none
brightness_mode (some value) = do
  mode ← or_throw (mode_only (as_string (some value))) "params.mode must be manual or automatic"
  ok (some mode)

unfoldable pub with_mode : Option String → Fields
with_mode none = end
with_mode (some mode) = field "mode" (str mode) end

unfoldable pub with_level : Option Number → Fields → Fields
with_level none rest = rest
with_level (some level) rest = field "level" (num level) rest

unfoldable pub brightness_params : Fields → Outcome Fields
unfolding brightness_level brightness_mode with_mode with_level
brightness_params params = do
  require (only_keys ("level" ∷ "mode" ∷ []) params) "params contains unknown field"
  require (is_some (get "level" params) || is_some (get "mode" params))
      "brightness set requires level or mode"
  level ← brightness_level (get "level" params)
  mode ← brightness_mode (get "mode" params)
  ok (with_level level (with_mode mode))

unfoldable pub alert_params : Fields → Outcome Fields
alert_params params = do
  require (only_keys ("durationMs" ∷ []) params) "params contains unknown field"
  duration ←
      or_throw (integer_in 500 5000 (or_default (num (of_ℕ 2000)) (get "durationMs" params)))
        "params.durationMs must be an integer between 500 and 5000"
  ok (field "durationMs" (num duration) end)

abbrev root_char : ℕ → Bool
root_char c = is_lower c || is_digit c || c == b'-'

-- `/^[a-z0-9-]{1,40}$/`
unfoldable pub root_only : Option String → Option String
root_only none = none
root_only (some s) = if matches_class root_char 1 40 s then some s else none

unfoldable pub storage_params : Fields → Outcome Fields
storage_params params = do
  require (only_keys ("rootId" ∷ []) params) "params contains unknown field"
  root ←
      or_throw (root_only (as_string (get "rootId" params))) "params.rootId has an invalid format"
  ok (field "rootId" (str root) end)

abbrev is_separator : ℕ → Bool
is_separator c = c == b'/' || c == b'\\'

abbrev has_null : List ℕ → Bool
has_null [] = false
has_null (c ∷ s) = c == 0 || has_null s

-- `/^(?:[A-Za-z]:|[\\/])/`
abbrev is_rooted : List ℕ → Bool
is_rooted [] = false
is_rooted (c ∷ []) = is_separator c
is_rooted (c ∷ d ∷ s) = is_separator c || (is_upper c || is_lower c) && d == b':'

-- What is read of a part between separators: nothing, one dot, two dots, or 3 for anything else.
abbrev part_after : ℕ → ℕ → ℕ
part_after c part = if is_separator c then 0 else if c == b'.' && ltb part 2 then part + 1 else 3

-- `split(/[\\/]+/).includes("..")`
unfoldable pub goes_up : List ℕ → ℕ → Bool
goes_up [] part = part == 2
goes_up (c ∷ s) part = is_separator c && part == 2 || goes_up s (part_after c part)

abbrev is_relative : List ℕ → Bool
is_relative path =
    not (ltb 1024 (units path))
    && not (has_null path)
    && not (is_rooted path)
    && not (goes_up path 0)

unfoldable pub relative_only : Option String → Option String
unfolding units goes_up
relative_only none = none
relative_only (some s) = if is_relative (codes s) then some s else none

-- `/^\d{0,12}$/`
unfoldable pub cursor_only : Option String → Option String
cursor_only none = none
cursor_only (some s) = if matches_class is_digit 0 12 s then some s else none

unfoldable pub list_params : Fields → Outcome Fields
unfolding root_only relative_only cursor_only
list_params params = do
  require (only_keys ("rootId" ∷ "path" ∷ "pageSize" ∷ "cursor" ∷ []) params)
      "params contains unknown field"
  root ←
      or_throw (root_only (as_string (get "rootId" params))) "params.rootId has an invalid format"
  path ←
      or_throw (relative_only (as_string (or_default (str "") (get "path" params))))
        "params.path must be a safe relative path"
  page_size ←
      or_throw (integer_in 1 200 (or_default (num (of_ℕ 100)) (get "pageSize" params)))
        "params.pageSize must be an integer between 1 and 200"
  cursor ←
      or_throw (cursor_only (as_string (or_default (str "") (get "cursor" params))))
        "params.cursor must be a bounded numeric cursor"
  ok (
      field "rootId" (str root) (
        field "path" (str path)
          (field "pageSize" (num page_size) (field "cursor" (str cursor) end))))

-- The parameters of an operation, once they are an object.
unfoldable pub params_of : DeviceOpsOperation → Fields → Outcome Fields
unfolding target_params no_params stream_params level_params brightness_params alert_params
    storage_params list_params
params_of ui_target_at params = target_params params
params_of ops_capabilities params = no_params params
params_of foreground_get params = no_params params
params_of network_get params = no_params params
params_of brightness_get params = no_params params
params_of telephony_get params = no_params params
params_of screen_capture params = no_params params
params_of audio_get params = stream_params true params
params_of audio_mute params = stream_params false params
params_of audio_unmute params = stream_params false params
params_of audio_set params = level_params params
params_of brightness_set params = brightness_params params
params_of alert_find params = alert_params params
params_of storage_stat params = storage_params params
params_of files_list params = list_params params

-- `parseOperationParams`; absent parameters are none at all.
unfoldable pub parse_operation_params : DeviceOpsOperation → Option Json → Outcome Fields
unfolding params_of
parse_operation_params operation none = params_of operation end
parse_operation_params operation (some value) = do
  params ← or_throw (record_of (some value)) "params must be an object"
  params_of operation params
