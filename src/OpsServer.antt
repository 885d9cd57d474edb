-- ===== src/OpsServer.antt =====
-- The server's end of the maintenance channel: pc/src/device-ops-protocol.ts, less the screenshot
-- frame, and the request that pc/src/service/device-ops.service.ts builds. The text of a message
-- leaves out the unknown key and the path of the field that the source puts into it.
pub mod Params
pub mod Input
pub mod Frames
pub mod Target
pub mod Lookup
pub mod Response
pub mod Again
pub mod Brightness
pub mod Stable
pub mod Delivered
pub mod Answered
pub mod Reviewed
pub mod Private
mod Tests
use Prim.Native.String
use one_autojs.Base.{
  ℕ, ◌+◌, String, Bool, true, false, not, ◌&&◌, ◌||◌, List, [], ◌∷◌, Option, none, some, Json,
  Items, null, bool, num, str, arr, obj, nil, cons, as_record, Number, of_ℕ, number_lt, is_integer,
  is_safe_integer, is_identifier, is_device_id, str_eq, codes, matches_class, is_upper, is_lower,
  is_digit, leb, ltb, ◌==◌, Outcome, or_throw, if◌then◌else◌,
}
use one_autojs.Ops.{
  DeviceOpsOperation, ops_capabilities, audio_get, audio_set, audio_mute, audio_unmute,
  brightness_get, brightness_set, storage_stat, files_list, foreground_get, ui_target_at,
  network_get, telephony_get, alert_find, screen_capture,
}

-- `DEVICE_OPS_OPERATIONS`
abbrev pub device_ops_operations : List DeviceOpsOperation
device_ops_operations =
    ops_capabilities ∷ audio_get ∷ audio_set ∷ audio_mute ∷ audio_unmute ∷ storage_stat ∷ files_list
    ∷ foreground_get ∷ ui_target_at ∷ network_get ∷ brightness_get ∷ brightness_set ∷ telephony_get
    ∷ alert_find ∷ screen_capture ∷ []

-- `s.length`: the code units of UTF-16.
unfoldable pub units : List ℕ → ℕ
units [] = 0
units (c ∷ s) = (if ltb c 65536 then 1 else 2) + units s

abbrev pub includes : String → List String → Bool
includes s [] = false
includes s (t ∷ ts) = str_eq t s || includes s ts

-- `value.key` is an identifier of the protocol.
unfoldable pub is_device_ops_id : Option Json → Bool
is_device_ops_id (some (str s)) = is_identifier s
is_device_ops_id _ = false

unfoldable pub is_device_ops_client_id : Option Json → Bool
is_device_ops_client_id (some (str s)) = is_device_id s
is_device_ops_client_id _ = false

-- `isDeviceOpsRecord(value.key)`
unfoldable pub is_device_ops_record : Option Json → Bool
is_device_ops_record (some (obj fields)) = true
is_device_ops_record _ = false

-- An integer from `lo` on, at most `hi` where there is a maximum.
abbrev pub ranged : (Number → Bool) → ℕ → Option ℕ → Number → Option Number
ranged test lo none n = if test n && not (number_lt n (of_ℕ lo)) then some n else none
ranged test lo (some hi) n =
    if test n && not (number_lt n (of_ℕ lo)) && not (number_lt (of_ℕ hi) n) then some n else none

-- `Number.isInteger(value) && value >= lo && value <= hi`
unfoldable pub integer_in : ℕ → ℕ → Option Json → Option Number
integer_in lo hi (some (num n)) = ranged is_integer lo (some hi) n
integer_in lo hi _ = none

-- The same with `Number.isSafeInteger`.
unfoldable pub safe_in : ℕ → Option ℕ → Option Json → Option Number
safe_in lo hi (some (num n)) = ranged is_safe_integer lo hi n
safe_in lo hi _ = none

-- `String(value)`; `number_text` writes a number, and a list is its elements between commas.
mutual
  pub text_of : (Number → String) → Json → String
  text_of number_text null = "null"
  text_of number_text (bool true) = "true"
  text_of number_text (bool false) = "false"
  text_of number_text (num n) = number_text n
  text_of number_text (str s) = s
  text_of number_text (arr nil) = ""
  text_of number_text (arr (cons value rest)) =
      String.◌++◌ (element_text number_text value) (rest_text number_text rest)
  text_of number_text (obj fields) = "[object Object]"

  pub element_text : (Number → String) → Json → String
  element_text number_text null = ""
  element_text number_text (bool true) = "true"
  element_text number_text (bool false) = "false"
  element_text number_text (num n) = number_text n
  element_text number_text (str s) = s
  element_text number_text (arr nil) = ""
  element_text number_text (arr (cons value rest)) =
      String.◌++◌ (element_text number_text value) (rest_text number_text rest)
  element_text number_text (obj fields) = "[object Object]"

  pub rest_text : (Number → String) → Items → String
  rest_text number_text nil = ""
  rest_text number_text (cons value rest) =
      String.◌++◌ "," (String.◌++◌ (element_text number_text value) (rest_text number_text rest))

unfoldable pub string_of : (Number → String) → Option Json → String
string_of number_text none = "undefined"
string_of number_text (some value) = text_of number_text value
