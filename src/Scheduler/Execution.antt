-- ===== src/Scheduler/Execution.antt =====
-- The life of a task that has left the queue: the deployment drain, and what `executeTask` of
-- mobile/src/client.ts does to the state.
use Prim.Native.String
use one_autojs.Base.{
  ℕ, ◌+◌, String, true, false, Option, none, some, List, [], ◌∷◌, Json, null, obj, str, field, end,
  if◌then◌else◌,
}
use one_autojs.Protocol.{DeviceTaskRequest, TaskStatus, failure, rejected, cancelled}
use one_autojs.TaskQueue.{QueuedDeviceTask, can_preempt_running}
use one_autojs.Scheduler.{ActiveTask, preempting, Client, ClientConfig, set_delete}
use one_autojs.Scheduler.Handlers.{
  publish_task_result, publish_task_state, clear_task_starting, disarm, may_preempt,
}
use one_autojs.Scheduler.Control.{cleanup_active_task, if_current}

-- The loop of `cancelQueuedTasksForDeployment`.
abbrev pub drain_queue : ClientConfig → ℕ → String → List QueuedDeviceTask → Client → Client
drain_queue config now deployment [] c = c
drain_queue config now deployment (q ∷ queue) c = drain_queue config now deployment queue (
    publish_task_result config now q.request now cancelled "DEPLOYMENT_DRAINING"
      (String.◌++◌ "Task was cancelled because deployment "
        (String.◌++◌ deployment " entered drain mode"))
      (obj (field "deploymentId" (str deployment) end))
      (record c {
        task_queue = queue;
        queued_task_ids = set_delete q.request.task_id c.queued_task_ids;
      }))

-- `cancelQueuedTasksForDeployment`
unfoldable pub cancel_queued_tasks_for_deployment : ClientConfig → ℕ → String → Client → Client
cancel_queued_tasks_for_deployment config now deployment c =
    publish_task_state (drain_queue config now deployment c.task_queue c)

-- The ends of `executeTask` that start no script, and `rejectQueuedTask`: a result, and the task is
-- no longer starting. The results' fields are the handler's.
unfoldable pub finish_unstarted :
    ClientConfig → ℕ → DeviceTaskRequest → ℕ → TaskStatus → String → String → Json → Client → Client
finish_unstarted config now request started_at status code message details c =
    clear_task_starting request.task_id (
      let c' = publish_task_result config now request started_at status code message details c in
      record c' { queued_task_ids = set_delete request.task_id c'.queued_task_ids })

-- `rejectQueuedTask`
unfoldable pub reject_queued_task :
    ClientConfig → ℕ → DeviceTaskRequest → String → String → Client → Client
unfolding finish_unstarted
reject_queued_task config now request code message c =
    finish_unstarted config now request now rejected code message null c

-- The end of `executeTask`: the task becomes active, with its timer, and is no longer starting.
unfoldable pub activate_task : DeviceTaskRequest → ℕ → ℕ → ℕ → Client → Client
activate_task request enqueued_at started_at deadline_at c =
    clear_task_starting request.task_id (record c {
      active_task = some (record {
        identity = c.next_identity;
        request = request;
        enqueued_at = enqueued_at;
        started_at = started_at;
        deadline_at = deadline_at;
        launched = false;
        side_effect_committed = false;
        timeout_armed = true;
        cleanup_pending = false;
      });
      next_identity = c.next_identity + 1;
    })

-- The `find` of the first queued task that may preempt.
abbrev pub first_preemptor : ActiveTask → List QueuedDeviceTask → Option DeviceTaskRequest
first_preemptor current [] = none
first_preemptor current (q ∷ queue) =
    let rest = first_preemptor current queue in
    if can_preempt_running q.request current.request false then some q.request else rest

abbrev pub preempt_with : Option DeviceTaskRequest → Option ActiveTask → Client → Client
preempt_with (some incoming) (some current) c =
    if may_preempt incoming current
    then record c {
      active_task = some (disarm current);
      pending = preempting current.identity incoming ∷ c.pending;
    }
    else c
preempt_with _ _ c = c

abbrev pub launch_current : Option ActiveTask → Client → Client
launch_current none c = c
launch_current (some current) c =
    if current.cleanup_pending
    then c
    else let a = record current { launched = true } in
      preempt_with (first_preemptor a c.task_queue) (some a)
        (publish_task_state (record c { active_task = some a }))

-- `am start` succeeded: the last lines of `executeTask`, up to the `await` of `preemptActiveTask`.
unfoldable pub mark_launched : ℕ → Client → Client
mark_launched identity c = launch_current (if_current identity c.active_task) c

-- The script's result arrives, or it cannot be read: a result, then the cleanup, which stops the
-- poll: no result of the poll follows once a cleanup has begun.
abbrev pub settle :
    ClientConfig → ℕ → TaskStatus → String → String → Json → Option ActiveTask → Client → Client
settle config now status code message details none c = c
settle config now status code message details (some current) c =
    if current.cleanup_pending
    then c
    else cleanup_active_task (
        publish_task_result config now current.request current.started_at status code message
          details c)

unfoldable pub finish_active :
    ClientConfig → ℕ → TaskStatus → String → String → Json → Client → Client
finish_active config now status code message details c =
    settle config now status code message details c.active_task c

-- `am start` failed: the last `catch` of `executeTask`, which tests nothing.
unfoldable pub fail_launch : ClientConfig → ℕ → DeviceTaskRequest → ℕ → String → Client → Client
unfolding cleanup_active_task
fail_launch config now request started_at message c = cleanup_active_task (
    publish_task_result config now request started_at failure "AUTOJS_LAUNCH_FAILED" message null c)

abbrev pub commit : Option ActiveTask → Client → Client
commit none c = c
commit (some current) c = record c {
  active_task = some (record current { side_effect_committed = true });
}

-- The poll sees a checkpoint past the commit boundary.
unfoldable pub see_commit : Client → Client
see_commit c = commit c.active_task c
