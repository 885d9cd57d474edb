-- ===== src/Ops.antt =====
-- The maintenance channel's protocol: mobile/src/ops-protocol.ts.
pub mod Parse
pub mod Sound
pub mod Artifact
pub mod Transfer
pub mod Session
pub mod Handle
pub mod Bounds
pub mod Runs
pub mod Idempotent
pub mod Manager
pub mod Single
pub mod Capture
pub mod Captured
mod Tests
use Prim.Native.String
use one_autojs.Base.{
  ℕ, String, Bool, true, false, ◌||◌, List, [], ◌∷◌, Option, none, some, Json, Fields, Number,
  str_eq, if◌then◌else◌,
}

-- `DeviceOpsOperation`
pub data DeviceOpsOperation : Type 0 where
  ops_capabilities audio_get audio_set audio_mute audio_unmute brightness_get brightness_set
        storage_stat files_list foreground_get ui_target_at network_get telephony_get alert_find
        screen_capture :
      DeviceOpsOperation

-- `DEVICE_OPS`
abbrev pub operation_name : DeviceOpsOperation → String
operation_name ops_capabilities = "device.ops.capabilities"
operation_name audio_get = "device.audio.get"
operation_name audio_set = "device.audio.set"
operation_name audio_mute = "device.audio.mute"
operation_name audio_unmute = "device.audio.unmute"
operation_name brightness_get = "device.screen.brightness.get"
operation_name brightness_set = "device.screen.brightness.set"
operation_name storage_stat = "device.storage.stat"
operation_name files_list = "device.files.list"
operation_name foreground_get = "device.foreground.get"
operation_name ui_target_at = "device.ui.target-at"
operation_name network_get = "device.network.get"
operation_name telephony_get = "device.telephony.get"
operation_name alert_find = "device.alert.find"
operation_name screen_capture = "device.screen.capture"

abbrev pub device_ops : List DeviceOpsOperation
device_ops =
    ops_capabilities ∷ audio_get ∷ audio_set ∷ audio_mute ∷ audio_unmute ∷ brightness_get
    ∷ brightness_set ∷ storage_stat ∷ files_list ∷ foreground_get ∷ ui_target_at ∷ network_get
    ∷ telephony_get ∷ alert_find ∷ screen_capture ∷ []

-- `DeviceOpsOpenSessionCommand`
pub record DeviceOpsOpenSessionCommand : Type 0 where
  pub session_id : String
  pub device_id : String
  pub ws_url : String
  pub nonce : String
  pub issued_at : Number
  pub expires_at : Number

-- `DeviceOpsRequest`
pub record DeviceOpsRequest : Type 0 where
  pub session_id : String
  pub request_id : String
  pub operation : DeviceOpsOperation
  pub params : Fields
  pub created_at : Number
  pub expires_at : Number

-- `DeviceOpsResponseStatus`
pub data DeviceOpsResponseStatus : Type 0 where
  success failure timeout rejected cancelled : DeviceOpsResponseStatus

-- `DeviceOpsResponse`
pub record DeviceOpsResponse : Type 0 where
  pub session_id : String
  pub request_id : String
  pub operation : DeviceOpsOperation
  pub status : DeviceOpsResponseStatus
  pub code : String
  pub message : String
  pub details : Json
  pub started_at : ℕ
  pub finished_at : ℕ
  pub duration_ms : ℕ

-- `isMutatingDeviceOpsOperation`
unfoldable pub is_mutating : DeviceOpsOperation → Bool
is_mutating audio_set = true
is_mutating audio_mute = true
is_mutating audio_unmute = true
is_mutating brightness_set = true
is_mutating alert_find = true
is_mutating _ = false

abbrev pub is_capture : DeviceOpsOperation → Bool
is_capture screen_capture = true
is_capture _ = false
