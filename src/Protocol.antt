-- ===== src/Protocol.antt =====
-- The v2 device task protocol: mobile/src/protocol.ts.
pub mod Parse
pub mod Sound
pub mod RoundTrip
mod Tests
use one_autojs.Base.{
  ℕ, String, Bool, true, false, Option, none, some, Json, Fields, bool, str, num, Number, number_lt,
  is_finite, is_integer, number_eq,
}

-- `TaskPriority`
pub data TaskPriority : Type 0 where
  low normal high : TaskPriority

-- `TaskStatus`
pub data TaskStatus : Type 0 where
  success failure timeout rejected cancelled : TaskStatus

-- `DeviceTaskRequest`, without the constant `protocolVersion: 2`.
pub record DeviceTaskRequest : Type 0 where
  pub task_id : String
  pub device_id : String
  pub script_id : String
  pub script_version : Option Number
  pub params : Fields
  pub timeout_ms : Number
  pub created_at : Number
  pub expires_at : Number
  pub trace_id : String
  pub callback_url : Option String
  pub priority : TaskPriority
  pub preempt_running : Bool

-- `DeviceTaskResult`, without the constant `protocolVersion: 2`; `details` is its `data`, and the
-- times are integers of the clock.
pub record DeviceTaskResult : Type 0 where
  pub task_id : String
  pub device_id : String
  pub script_id : String
  pub status : TaskStatus
  pub code : String
  pub message : String
  pub details : Json
  pub started_at : ℕ
  pub finished_at : ℕ
  pub duration_ms : ℕ
  pub trace_id : String
