-- ===== src/Scheduler/Tests.antt =====
-- A run of the client: a task is enqueued, becomes active, is launched, commits, succeeds and is
-- cleaned up. Instances of the theorems on runs.
use one_autojs.Base.{
  arith, ◌≡◌, refl, true, false, none, some, [], ◌∷◌, null, end, of_ℕ, get, as_record, as_string,
  as_number, is_number, is_finite, number_lt, number_eq, is_identifier, is_device_id, is_script_id,
  str_eq,
}
use one_autojs.Protocol.{DeviceTaskRequest, normal, high, success}
use one_autojs.Protocol.Parse.{
  parse_device_task_request, string_field, number_field, priority_of, preempt_of, record_of,
  finite_only, non_empty, default_priority,
}
use one_autojs.Protocol.RoundTrip.{encode}
use one_autojs.TaskQueue.{insert_queued_task}
use one_autojs.TaskState.Snapshot.{StartingTask}
use one_autojs.Scheduler.{ActiveTask, cleaning, Client, ClientConfig}
use one_autojs.Scheduler.Control.{cleanup_active_task}
use one_autojs.Scheduler.Handlers.{enqueue_task, process_next_task, accept_task, admit}
use one_autojs.Scheduler.Execution.{
  activate_task, mark_launched, see_commit, finish_active, fail_launch,
}
use one_autojs.Scheduler.Steps.{
  enqueue, activate, launched, committed, settled, Reach, here, next, IsTimely,
}
use one_autojs.Scheduler.Invariant.{has_result, IsConsistent}
use one_autojs.Scheduler.Serial.{Reach-IsConsistent}
use one_autojs.Scheduler.NoLoss.{NoLoss}
use one_autojs.Scheduler.Conserved.{Reach-NoLoss}
use one_autojs.Scheduler.Commit.{Undisturbed, enqueue_task-committed}

abbrev config : ClientConfig
config = record { device_id = "phone:1"; queue_limit = 2 }

abbrev post : DeviceTaskRequest
post = record {
  task_id = "task_0001";
  device_id = "phone:1";
  script_id = "tiktok.post";
  script_version = none;
  params = end;
  timeout_ms = of_ℕ 60000;
  created_at = of_ℕ 1000;
  expires_at = of_ℕ 2000;
  trace_id = "trace_0001";
  callback_url = none;
  priority = normal;
  preempt_running = false;
}

abbrev urgent : DeviceTaskRequest
urgent = record post { task_id = "task_0002"; priority = high; preempt_running = true }

abbrev idle : Client
idle = record {
  task_queue = [];
  queued_task_ids = [];
  active_task = none;
  is_starting_task = false;
  starting_task = none;
  task_state_revision = 0;
  queue_sequence = 0;
  deployment_block_id = none;
  remote_active = false;
  next_identity = 0;
  pending = [];
  outbox = [];
}

idle-IsConsistent : IsConsistent config true idle
idle-IsConsistent = record {
  ordered = record { scheduled = tt; received = tt; bounded = omega arith };
  once = λ id. refl;
  serial = refl;
  flagged = refl;
  cleans = refl;
  settled = λ t. tt;
}

-- The run's stages.
abbrev starting : Client
starting = enqueue_task config 1000 (encode post) idle

abbrev post_starting : StartingTask
post_starting = record { request = post; enqueued_at = 1000; started_at = 1000 }

post_starts : starting.starting_task ≡ some post_starting
unfolding enqueue_task encode parse_device_task_request string_field number_field priority_of
    preempt_of record_of finite_only default_priority get as_record as_string as_number is_number
    is_finite number_lt is_identifier is_device_id is_script_id number_eq str_eq non_empty admit
    accept_task insert_queued_task process_next_task
post_starts = refl

abbrev running : Client
running = activate_task post 1000 1010 61010 starting

abbrev shown : Client
shown = mark_launched 0 running

abbrev posting : Client
posting = see_commit shown

abbrev cleaned : Client
cleaned = finish_active config 30000 success "TIKTOK_PUBLISHED" "Published" null posting

post_run : Reach config idle posting
post_run =
    next
      (next
        (next (next here (enqueue 1000 (encode post) refl))
          (activate post_starting 1010 61010 post_starts refl))
        (launched 0 refl))
      (committed refl)

post_end : Reach config idle cleaned
post_end = next post_run (settled 30000 success "TIKTOK_PUBLISHED" "Published" null refl)

post_IsTimely : IsTimely config post_end
unfolding post_end post_run
post_IsTimely = (((((tt, tt), tt), tt), tt), tt)

-- A launch that fails late: the next task is active by then, and is cleaned up without a result.
abbrev late : Client
late = fail_launch config 90000 urgent 1000 "am start failed" running

late_is_cleaned : late.pending ≡ cleaning 0 post.task_id ∷ []
unfolding enqueue_task encode parse_device_task_request string_field number_field priority_of
    preempt_of record_of finite_only default_priority get as_record as_string as_number is_number
    is_finite number_lt is_identifier is_device_id is_script_id number_eq str_eq non_empty admit
    accept_task insert_queued_task process_next_task activate_task fail_launch cleanup_active_task
late_is_cleaned = refl

late_has_no_result : has_result post.task_id late.outbox ≡ false
unfolding enqueue_task encode parse_device_task_request string_field number_field priority_of
    preempt_of record_of finite_only default_priority get as_record as_string as_number is_number
    is_finite number_lt is_identifier is_device_id is_script_id number_eq str_eq non_empty admit
    accept_task insert_queued_task process_next_task activate_task fail_launch cleanup_active_task
late_has_no_result = refl

Reach-IsConsistent_example : IsConsistent config true cleaned
Reach-IsConsistent_example =
    Reach-IsConsistent config true post_end (λ t. post_IsTimely) idle-IsConsistent

Reach-NoLoss_example : NoLoss idle cleaned
Reach-NoLoss_example = Reach-NoLoss config post_end post_IsTimely idle-IsConsistent

-- An urgent task enqueued while the first is past its commit boundary.
abbrev posting_task : ActiveTask
posting_task = record {
  identity = 0;
  request = post;
  enqueued_at = 1000;
  started_at = 1010;
  deadline_at = 61010;
  launched = true;
  side_effect_committed = true;
  timeout_armed = true;
  cleanup_pending = false;
}

posting_is_active : posting.active_task ≡ some posting_task
unfolding enqueue_task encode parse_device_task_request string_field number_field priority_of
    preempt_of record_of finite_only default_priority get as_record as_string as_number is_number
    is_finite number_lt is_identifier is_device_id is_script_id number_eq str_eq non_empty admit
    accept_task insert_queued_task process_next_task activate_task mark_launched see_commit
posting_is_active = refl

enqueue_task-committed_example :
    Undisturbed posting (enqueue_task config 20000 (encode urgent) posting)
enqueue_task-committed_example =
    enqueue_task-committed config 20000 (encode urgent) posting posting_is_active refl
