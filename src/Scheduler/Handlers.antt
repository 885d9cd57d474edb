-- ===== src/Scheduler/Handlers.antt =====
-- The handlers of mobile/src/client.ts on the scheduler's state.
use Prim.Native.String
use one_autojs.Base.{
  ℕ, ◌+◌, ◌-◌, String, Bool, true, false, not, ◌&&◌, ◌||◌, Option, none, some, List, [], ◌∷◌, Json,
  null, obj, str, field, end, str_eq, if◌then◌else◌, Outcome, ok, throw, leb, length, get_elem?,
  erase_at,
}
use one_autojs.Protocol.{DeviceTaskRequest, TaskStatus, rejected, cancelled}
use one_autojs.Protocol.Parse.{parse_device_task_request}
use one_autojs.TaskQueue.{
  QueuedDeviceTask, insert_queued_task, find_high_priority_eviction_index, can_preempt_running,
}
use one_autojs.TaskState.Snapshot.{StartingTask}
use one_autojs.Scheduler.{
  ActiveTask, preempting, Client, ClientConfig, set_has, set_add, set_delete, is_some,
}

-- `publishTaskResult`, up to the delivery of the persisted result.
abbrev pub publish_task_result :
    ClientConfig → ℕ → DeviceTaskRequest → ℕ → TaskStatus → String → String → Json → Client → Client
publish_task_result config now request started_at status code message details c = record c {
  outbox =
      record {
        task_id = request.task_id;
        device_id = config.device_id;
        script_id = request.script_id;
        status = status;
        code = code;
        message = message;
        details = details;
        started_at = started_at;
        finished_at = now;
        duration_ms = now - started_at;
        trace_id = request.trace_id;
      }
      ∷ c.outbox;
}

-- `publishTaskState`: the revision of the snapshot that is sent.
abbrev pub publish_task_state : Client → Client
publish_task_state c = record c { task_state_revision = c.task_state_revision + 1 }

-- `markTaskStarting`
abbrev pub mark_task_starting : ℕ → QueuedDeviceTask → Client → Client
mark_task_starting now q c = publish_task_state (record c {
  is_starting_task = true;
  starting_task =
      some (record { request = q.request; enqueued_at = q.enqueued_at; started_at = now });
})

abbrev pub without_starting : String → Option StartingTask → Option StartingTask
without_starting task_id none = none
without_starting task_id (some s) = if str_eq s.request.task_id task_id then none else some s

-- `clearTaskStarting`
abbrev pub clear_task_starting : String → Client → Client
clear_task_starting task_id c = publish_task_state (record c {
  is_starting_task = false;
  starting_task = without_starting task_id c.starting_task;
})

abbrev pub dequeue : ℕ → List QueuedDeviceTask → Client → Client
dequeue now [] c = c
dequeue now (q ∷ queue) c = mark_task_starting now q (record c { task_queue = queue })

-- `processNextTask`, up to the start of `executeTask`.
unfoldable pub process_next_task : ℕ → Client → Client
process_next_task now c =
    if is_some c.active_task
      || c.is_starting_task
      || is_some c.deployment_block_id
      || c.remote_active
    then c
    else dequeue now c.task_queue c

-- The insertion at the end of `enqueueTask`.
unfoldable pub accept_task : ℕ → DeviceTaskRequest → Client → Client
accept_task now request c = publish_task_state (record c {
  queued_task_ids = set_add request.task_id c.queued_task_ids;
  task_queue =
      insert_queued_task c.task_queue
        (record { request = request; sequence = c.queue_sequence; enqueued_at = now });
  queue_sequence = c.queue_sequence + 1;
})

-- The eviction of `enqueueTask`: the task at the index gives its place up.
abbrev pub evict :
    ClientConfig → ℕ → DeviceTaskRequest → ℕ → Option QueuedDeviceTask → Client → Client
evict config now request i none c = c
evict config now request i (some evicted) c =
    publish_task_result config now evicted.request now cancelled "QUEUE_EVICTED"
      (String.◌++◌ "Queued task was replaced by high-priority task " request.task_id)
      (obj (field "replacedByTaskId" (str request.task_id) end))
      (record c {
        task_queue = erase_at c.task_queue i;
        queued_task_ids = set_delete evicted.request.task_id c.queued_task_ids;
      })

-- What `enqueueTask` decided about a request.
pub data Admission : Type 0 where
  refused : Client → Admission
  accepted : Client → Admission

abbrev pub evict_for : ClientConfig → ℕ → DeviceTaskRequest → Option ℕ → Client → Admission
evict_for config now request none c = refused (
    publish_task_result config now request now rejected "QUEUE_FULL" "Device task queue is full"
      null c)
evict_for config now request (some i) c =
    accepted (accept_task now request (evict config now request i (get_elem? c.task_queue i) c))

-- `enqueueTask` from the test of the queue's length to `publishTaskState`.
abbrev pub admit_to_queue : ClientConfig → ℕ → DeviceTaskRequest → Client → Admission
admit_to_queue config now request c =
    if leb config.queue_limit (length c.task_queue)
    then evict_for config now request (find_high_priority_eviction_index c.task_queue request) c
    else accepted (accept_task now request c)

abbrev pub admit_unblocked :
    ClientConfig → ℕ → DeviceTaskRequest → Option String → Client → Admission
admit_unblocked config now request (some deployment) c = refused (
    publish_task_result config now request now rejected "DEPLOYMENT_DRAINING"
      (String.◌++◌ "Device is draining for deployment " deployment)
      (obj (field "deploymentId" (str deployment) end)) c)
admit_unblocked config now request none c =
    if set_has request.task_id c.queued_task_ids
    then refused c
    else admit_to_queue config now request c

-- `enqueueTask` after parsing, up to `publishTaskState`.
unfoldable pub admit : ClientConfig → ℕ → DeviceTaskRequest → Client → Admission
admit config now request c =
    if str_eq request.device_id config.device_id
    then admit_unblocked config now request c.deployment_block_id c
    else refused (
        publish_task_result config now request now rejected "DEVICE_MISMATCH"
          "Task targets another device" null c)

-- The guards of `preemptActiveTask`.
abbrev pub may_preempt : DeviceTaskRequest → ActiveTask → Bool
may_preempt incoming current =
    current.launched
    && not current.cleanup_pending
    && can_preempt_running incoming current.request current.side_effect_committed

abbrev pub disarm : ActiveTask → ActiveTask
disarm current = record current { timeout_armed = false }

-- The end of `enqueueTask`: it waits for a preemption, or goes on to the next task at once.
abbrev pub preempt_or_next : ℕ → DeviceTaskRequest → Option ActiveTask → Client → Client
preempt_or_next now request none c = process_next_task now c
preempt_or_next now request (some current) c =
    if may_preempt request current
    then record c {
      active_task = some (disarm current);
      pending = preempting current.identity request ∷ c.pending;
    }
    else process_next_task now c

abbrev pub after_admission : ℕ → DeviceTaskRequest → Admission → Client
after_admission now request (refused c) = c
after_admission now request (accepted c) = preempt_or_next now request c.active_task c

abbrev pub enqueue_parsed : ClientConfig → ℕ → Outcome DeviceTaskRequest → Client → Client
enqueue_parsed config now (throw message) c = c
enqueue_parsed config now (ok request) c = after_admission now request (admit config now request c)

-- `enqueueTask`
unfoldable pub enqueue_task : ClientConfig → ℕ → Json → Client → Client
enqueue_task config now payload c = enqueue_parsed config now (parse_device_task_request payload) c
