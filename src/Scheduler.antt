-- ===== src/Scheduler.antt =====
-- The task scheduler of the mobile client: the task globals and handlers of mobile/src/client.ts.
-- The state is explicit. An `await` splits a handler: what follows it is a continuation that waits
-- in `pending` until the awaited work reports. One handler run reads the clock once.
pub mod Handlers
pub mod Control
pub mod Execution
pub mod Steps
pub mod Invariant
pub mod Running
pub mod Waiting
pub mod Draining
pub mod Ending
pub mod Serial
pub mod NoLoss
pub mod Kept
pub mod Conserved
pub mod Commit
pub mod Start
mod Tests
pub use one_autojs.Base.{is_some}
use Prim.Native.String
use one_autojs.Base.{
  ℕ, suc, ◌+◌, ◌-◌, String, Bool, true, false, not, ◌||◌, Option, none, some, List, [], ◌∷◌, ◌++◌,
  Json, null, str_eq, if◌then◌else◌,
}
use one_autojs.Protocol.{DeviceTaskRequest, DeviceTaskResult, TaskStatus}
use one_autojs.TaskQueue.{QueuedDeviceTask}
use one_autojs.TaskState.{TaskControlCommand}
use one_autojs.TaskState.Snapshot.{StartingTask}

-- `ActiveTask`, less its timers' handles, file paths and TikTok data. `identity` tells objects
-- apart where the source compares references; `cleanup_pending` is a set `cleanupPromise`.
pub record ActiveTask : Type 0 where
  pub identity : ℕ
  pub request : DeviceTaskRequest
  pub enqueued_at : ℕ
  pub started_at : ℕ
  pub deadline_at : ℕ
  pub launched : Bool
  pub side_effect_committed : Bool
  pub timeout_armed : Bool
  pub cleanup_pending : Bool

-- What a handler does once the work that it awaits is done. It names the active task by identity.
pub data Continuation : Type 0 where
  preempting : ℕ → DeviceTaskRequest → Continuation
  cancelling : ℕ → TaskControlCommand → Continuation
  timing_out : ℕ → Continuation
  forcing : ℕ → String → Continuation
  cleaning : ℕ → String → Continuation

-- The globals of client.ts that the task pipeline uses. `outbox` lists the results given to
-- `persistTaskResult`, the latest first; `remote_active` is `remoteSessionPeer?.isActive()`.
pub record Client : Type 0 where
  pub task_queue : List QueuedDeviceTask
  pub queued_task_ids : List String
  pub active_task : Option ActiveTask
  pub is_starting_task : Bool
  pub starting_task : Option StartingTask
  pub task_state_revision : ℕ
  pub queue_sequence : ℕ
  pub deployment_block_id : Option String
  pub remote_active : Bool
  pub next_identity : ℕ
  pub pending : List Continuation
  pub outbox : List DeviceTaskResult

-- The configuration that the pipeline reads.
pub record ClientConfig : Type 0 where
  pub device_id : String
  pub queue_limit : ℕ

-- `Set.has`, `Set.add` and `Set.delete`
abbrev pub set_has : String → List String → Bool
set_has x [] = false
set_has x (y ∷ ys) = str_eq y x || set_has x ys

abbrev pub set_add : String → List String → List String
set_add x ys = if set_has x ys then ys else ys ++ x ∷ []

abbrev pub set_delete : String → List String → List String
set_delete x [] = []
set_delete x (y ∷ ys) = if str_eq y x then set_delete x ys else y ∷ set_delete x ys
