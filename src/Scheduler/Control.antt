-- ===== src/Scheduler/Control.antt =====
-- Cancelling, timing out and cleaning up: the handlers of mobile/src/client.ts that await the end
-- of the running task.
use Prim.Native.String
use one_autojs.Base.{
  ℕ, suc, String, Bool, true, false, not, Option, none, some, List, [], ◌∷◌, Json, obj, str, bool,
  field, end, str_eq, ◌==◌, if◌then◌else◌, Outcome, ok, throw, get_elem?, erase_at, of_ℕ, number_le,
}
use one_autojs.Protocol.{DeviceTaskRequest, timeout, cancelled}
use one_autojs.TaskQueue.{QueuedDeviceTask}
use one_autojs.TaskState.{TaskControlCommand, can_cancel_active_task}
use one_autojs.TaskState.Command.{parse_task_control_command}
use one_autojs.Scheduler.{
  ActiveTask, cancelling, timing_out, forcing, cleaning, Client, ClientConfig, set_delete,
}
use one_autojs.Scheduler.Handlers.{publish_task_result, publish_task_state, disarm}

-- `cleanupActiveTask`, up to its first `await`: nothing if none is active or a cleanup is under way.
abbrev pub begin_cleanup : Option ActiveTask → Client → Client
begin_cleanup none c = c
begin_cleanup (some current) c = if current.cleanup_pending then c else record c {
  active_task = some (record current { timeout_armed = false; cleanup_pending = true });
  pending = cleaning current.identity current.request.task_id ∷ c.pending;
}

unfoldable pub cleanup_active_task : Client → Client
cleanup_active_task c = begin_cleanup c.active_task c

-- `activeTask === current ? activeTask : null`
abbrev pub if_current : ℕ → Option ActiveTask → Option ActiveTask
if_current identity none = none
if_current identity (some active) = if active.identity == identity then some active else none

abbrev pub release : Option ActiveTask → Client → Client
release none c = c
release (some active) c = publish_task_state (record c { active_task = none })

-- The end of the cleanup. `processNextTask` runs later, as a step of its own.
unfoldable pub finish_cleanup : ℕ → String → Client → Client
finish_cleanup identity task_id c =
    release (if_current identity c.active_task)
      (record c { queued_task_ids = set_delete task_id c.queued_task_ids })

-- `if (activeTask === current) scheduleActiveTaskTimeout(current)`
abbrev pub reschedule : Option ActiveTask → Client → Client
reschedule none c = c
reschedule (some active) c = record c {
  active_task = some (record active { timeout_armed = true });
}

abbrev pub preempted : ClientConfig → ℕ → DeviceTaskRequest → Option ActiveTask → Client → Client
preempted config now incoming none c = c
preempted config now incoming (some current) c = cleanup_active_task (
    publish_task_result config now current.request current.started_at cancelled "PREEMPTED_BY_TASK"
      (String.◌++◌ "Task was preempted by " incoming.task_id)
      (obj (field "preemptedByTaskId" (str incoming.task_id) end)) c)

-- What follows the `await` of `terminateActiveTask` in `preemptActiveTask`. The end of `enqueueTask`,
-- a call of `processNextTask`, is a step of its own.
unfoldable pub finish_preempt : ClientConfig → ℕ → ℕ → DeviceTaskRequest → Bool → Client → Client
finish_preempt config now identity incoming false c =
    reschedule (if_current identity c.active_task) c
finish_preempt config now identity incoming true c =
    preempted config now incoming (if_current identity c.active_task) c

-- The `findIndex` of `handleTaskControl`.
abbrev pub index_of : String → List QueuedDeviceTask → Option ℕ
index_of task_id [] = none
index_of task_id (q ∷ queue) =
    let rest = index_of task_id queue in
    if str_eq q.request.task_id task_id
    then some 0
    else elim rest [ none ↦ none | some i ↦ some (suc i) ]

-- The queued branch of `handleTaskControl`.
abbrev pub cancel_queued :
    ClientConfig → ℕ → TaskControlCommand → ℕ → Option QueuedDeviceTask → Client → Client
cancel_queued config now command i none c = c
cancel_queued config now command i (some queued) c = publish_task_state (
    publish_task_result config now queued.request now cancelled "OPERATOR_CANCELLED"
      "Task was cancelled before execution"
      (obj (field "commandId" (str command.command_id) (field "retrySafe" (bool true) end)))
      (record c {
        task_queue = erase_at c.task_queue i;
        queued_task_ids = set_delete queued.request.task_id c.queued_task_ids;
      }))

-- The running branch of `handleTaskControl`, up to its `await`.
abbrev pub cancel_active : TaskControlCommand → Option ActiveTask → Client → Client
cancel_active command none c = publish_task_state c
cancel_active command (some current) c =
    if can_cancel_active_task command.task_id (some current.request.task_id) current.launched
      current.cleanup_pending
    then record c {
      active_task = some (disarm current);
      pending = cancelling current.identity command ∷ c.pending;
    }
    else publish_task_state c

abbrev pub control_target : ClientConfig → ℕ → TaskControlCommand → Option ℕ → Client → Client
control_target config now command (some i) c =
    cancel_queued config now command i (get_elem? c.task_queue i) c
control_target config now command none c = cancel_active command c.active_task c

abbrev pub control_parsed : ClientConfig → ℕ → Outcome TaskControlCommand → Client → Client
control_parsed config now (throw message) c = c
control_parsed config now (ok command) c =
    if number_le command.expires_at (of_ℕ now)
    then c
    else control_target config now command (index_of command.task_id c.task_queue) c

-- `handleTaskControl`, up to its `await`.
unfoldable pub handle_task_control : ClientConfig → ℕ → Json → Client → Client
handle_task_control config now payload c =
    control_parsed config now (parse_task_control_command payload now) c

abbrev pub outcome_code : Bool → String → String
outcome_code true code = "PUBLISH_OUTCOME_UNKNOWN"
outcome_code false code = code

abbrev pub cancelled_by :
    ClientConfig → ℕ → TaskControlCommand → Option ActiveTask → Client → Client
cancelled_by config now command none c = c
cancelled_by config now command (some current) c = cleanup_active_task (
    publish_task_result config now current.request current.started_at cancelled
      (outcome_code current.side_effect_committed "OPERATOR_CANCELLED")
      (if current.side_effect_committed
        then "Task was stopped after its external side effect may have been committed"
        else "Task was cancelled by an operator")
      (obj (
        field "commandId" (str command.command_id)
          (field "retrySafe" (bool (not current.side_effect_committed)) end)))
      c)

-- What follows the `await` of `handleTaskControl`.
unfoldable pub finish_cancel : ClientConfig → ℕ → ℕ → TaskControlCommand → Bool → Client → Client
finish_cancel config now identity command false c = reschedule (if_current identity c.active_task) c
finish_cancel config now identity command true c =
    cancelled_by config now command (if_current identity c.active_task) c

-- The timer of `scheduleActiveTaskTimeout` fires: `timeoutActiveTask` up to its `await`.
abbrev pub begin_timeout : Option ActiveTask → Client → Client
begin_timeout none c = c
begin_timeout (some current) c =
    if current.timeout_armed
    then record c {
      active_task = some (disarm current);
      pending = timing_out current.identity ∷ c.pending;
    }
    else c

unfoldable pub fire_timeout : Client → Client
fire_timeout c = begin_timeout c.active_task c

abbrev pub timed_out : ClientConfig → ℕ → String → Json → Option ActiveTask → Client → Client
timed_out config now message details none c = c
timed_out config now message details (some current) c = cleanup_active_task (
    publish_task_result config now current.request current.started_at timeout
      (outcome_code current.side_effect_committed "TASK_TIMEOUT") message details c)

-- What follows the `await` of `timeoutActiveTask`; after a failed termination the timer runs again.
-- The message and the details depend on the TikTok data, and are given.
unfoldable pub finish_timeout : ClientConfig → ℕ → ℕ → String → Json → Bool → Client → Client
finish_timeout config now identity message details false c =
    reschedule (if_current identity c.active_task) c
finish_timeout config now identity message details true c =
    timed_out config now message details (if_current identity c.active_task) c

-- `forceStopActiveTaskForDeployment`, up to the `await` of `terminateActiveTask`. Its waits for a task
-- that starts change nothing, and without an active task it only restores the device.
abbrev pub begin_force : String → Option ActiveTask → Client → Client
begin_force deployment none c = c
begin_force deployment (some current) c = record c {
  active_task = some (disarm current);
  pending = forcing current.identity deployment ∷ c.pending;
}

unfoldable pub force_stop_active_task : String → Client → Client
force_stop_active_task deployment c = begin_force deployment c.active_task c

abbrev pub forced : ClientConfig → ℕ → String → Option ActiveTask → Client → Client
forced config now deployment none c = c
forced config now deployment (some current) c = cleanup_active_task (
    publish_task_result config now current.request current.started_at cancelled
      (outcome_code current.side_effect_committed "FORCED_BY_DEPLOYMENT")
      (String.◌++◌ "Task was stopped by forced deployment " deployment)
      (obj (
        field "deploymentId" (str deployment)
          (field "retrySafe" (bool (not current.side_effect_committed)) end)))
      c)

-- What follows that `await`; a task that could not be stopped keeps running, without its timer.
unfoldable pub finish_force : ClientConfig → ℕ → ℕ → String → Bool → Client → Client
finish_force config now identity deployment false c = c
finish_force config now identity deployment true c =
    forced config now deployment (if_current identity c.active_task) c
