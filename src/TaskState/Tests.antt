-- ===== src/TaskState/Tests.antt =====
-- Runs of the control parser and of the snapshot, and instances of their theorems.
use one_autojs.Base.{
  ℕ, ◌+◌, ◌≡◌, refl, true, false, none, some, [], ◌∷◌, Json, obj, str, num, end, field, of_ℕ, ok,
  throw, get_elem?, length, get, as_record, as_string, as_number, is_number, is_string,
  is_identifier, is_safe_integer, number_le, number_add, number_eq,
}
use one_autojs.Protocol.{DeviceTaskRequest, normal}
use one_autojs.TaskQueue.{QueuedDeviceTask}
use one_autojs.TaskState.{
  TaskControlCommand, DeviceTaskStateItem, can_cancel_active_task, can_use_package_fallback, queued,
}
use one_autojs.TaskState.Command.{
  parse_task_control_command, identifier_field, expiry_field, IsTrusted, parse-IsTrusted,
}
use one_autojs.TaskState.Snapshot.{
  ActiveView, SnapshotOptions, build_task_state_snapshot, current_item, snapshot-queue,
  snapshot-cancellable,
}

abbrev cancel_payload : ℕ → Json
cancel_payload expires_at = obj (
    field "protocolVersion" (num (of_ℕ 2)) (
      field "action" (str "CANCEL") (
        field "commandId" (str "command_1") (
          field "taskId" (str "task_0001") (
            field "createdAt" (num (of_ℕ 1000)) (field "expiresAt" (num (of_ℕ expires_at)) end))))))

abbrev cancel_command : TaskControlCommand
cancel_command = record {
  command_id = "command_1";
  task_id = "task_0001";
  created_at = of_ℕ 1000;
  expires_at = of_ℕ 2000;
}

accepts : parse_task_control_command (cancel_payload 2000) 900 ≡ ok cancel_command
unfolding parse_task_control_command identifier_field expiry_field get as_record as_string as_number
    is_number is_string is_identifier is_safe_integer number_le number_add number_eq
accepts = refl

refuses_long :
    parse_task_control_command (cancel_payload 400000) 900 ≡ throw "Invalid task control expiry"
unfolding parse_task_control_command identifier_field expiry_field get as_record as_string as_number
    is_number is_string is_identifier is_safe_integer number_le number_add number_eq
refuses_long = refl

parse-IsTrusted_example : IsTrusted 900 cancel_command
parse-IsTrusted_example = parse-IsTrusted (cancel_payload 2000) 900 accepts

abbrev post_request : DeviceTaskRequest
post_request = record {
  task_id = "task_0001";
  device_id = "phone:1";
  script_id = "tiktok.post";
  script_version = none;
  params = end;
  timeout_ms = of_ℕ 60000;
  created_at = of_ℕ 1000;
  expires_at = of_ℕ 2000;
  trace_id = "trace_0001";
  callback_url = none;
  priority = normal;
  preempt_running = false;
}

abbrev options : SnapshotOptions
options = record {
  device_id = "phone:1";
  session_id = "session";
  session_started_at = 1;
  revision = 2;
  timestamp = 3;
  active =
      some (record { request = post_request; enqueued_at = 4; started_at = 5; launched = true });
  starting = none;
  queue = record { request = post_request; sequence = 1; enqueued_at = 6 } ∷ [];
}

snapshot-queue_example :
    (length (build_task_state_snapshot options).queued ≡ length options.queue)
    × ((i : ℕ) (q : QueuedDeviceTask)
        → get_elem? options.queue i ≡ some q
        → (item : DeviceTaskStateItem) × (get_elem? (build_task_state_snapshot options).queued i
            ≡ some item)
          × (item.task_id ≡ q.request.task_id)
          × (item.position ≡ some (i + 1))
          × (item.phase ≡ queued)
          × (item.cancellable ≡ true))
snapshot-queue_example = snapshot-queue options

snapshot-cancellable_example :
    (a : ActiveView) × (options.active ≡ some a)
    × (can_cancel_active_task "task_0001" (some a.request.task_id) a.launched false ≡ true)
unfolding build_task_state_snapshot
snapshot-cancellable_example =
    snapshot-cancellable options (current_item post_request 4 5 true) refl refl

no_fallback_during_cleanup :
    can_use_package_fallback true "task_0001" (some "task_0001") true ≡ false
unfolding can_use_package_fallback
no_fallback_during_cleanup = refl
