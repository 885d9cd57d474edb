-- ===== src/TaskState.antt =====
-- Control commands and the retained task snapshot: mobile/src/task-state.ts.
pub mod Command
pub mod Snapshot
mod Tests
use one_autojs.Base.{
  ℕ, suc, String, Bool, true, false, not, ◌&&◌, Option, none, some, List, [], ◌∷◌, Number, str_eq,
}
use one_autojs.Protocol.{DeviceTaskRequest, TaskPriority}
use one_autojs.TaskQueue.{QueuedDeviceTask}

-- `TaskControlCommand`, without its two constants.
pub record TaskControlCommand : Type 0 where
  pub command_id : String
  pub task_id : String
  pub created_at : Number
  pub expires_at : Number

pub data TaskPhase : Type 0 where
  starting running queued : TaskPhase

-- `DeviceTaskStateItem`
pub record DeviceTaskStateItem : Type 0 where
  pub task_id : String
  pub script_id : String
  pub priority : TaskPriority
  pub created_at : ℕ
  pub started_at : Option ℕ
  pub position : Option ℕ
  pub phase : TaskPhase
  pub cancellable : Bool

-- `DeviceTaskStateSnapshot`, without the constant `protocolVersion: 2`.
pub record DeviceTaskStateSnapshot : Type 0 where
  pub device_id : String
  pub session_id : String
  pub session_started_at : ℕ
  pub timestamp : ℕ
  pub revision : ℕ
  pub running : Option DeviceTaskStateItem
  pub queued : List DeviceTaskStateItem

-- `activeTaskId !== null && activeTaskId === taskId`
abbrev pub targets : Option String → String → Bool
targets none task_id = false
targets (some active) task_id = str_eq active task_id

-- `canUsePackageFallback`
unfoldable pub can_use_package_fallback : Bool → String → Option String → Bool → Bool
can_use_package_fallback allowed expected_task_id active_task_id cleanup_pending =
    allowed && not cleanup_pending && targets active_task_id expected_task_id

-- `canCancelActiveTask`
unfoldable pub can_cancel_active_task : String → Option String → Bool → Bool → Bool
can_cancel_active_task requested_task_id active_task_id launched cleanup_pending =
    launched && not cleanup_pending && targets active_task_id requested_task_id
