-- ===== src/TaskQueue/Tests.antt =====
-- A small queue, and instances of the theorems about it.
use one_autojs.Base.{
  ℕ, ◌≤◌, ◌≡◌, ◌≢◌, refl, ◌⊎◌, ◌↔◌, true, false, some, none, List, [], ◌∷◌, arith, All, of_ℕ, end,
  String,
}
use one_autojs.Protocol.{DeviceTaskRequest, TaskPriority, low, normal, high}
use one_autojs.TaskQueue.{
  QueuedDeviceTask, rank, insert_queued_task, find_high_priority_eviction_index,
  can_preempt_running, priority_rank,
}
use one_autojs.TaskQueue.Order.{IsScheduled, insert_queued_task-IsScheduled}
use one_autojs.TaskQueue.Eviction.{IsVictim, eviction-IsVictim, eviction-eq-none_iff}

abbrev request_of : String → TaskPriority → DeviceTaskRequest
request_of id p = record {
  task_id = id;
  device_id = "phone:1";
  script_id = "tiktok.post";
  script_version = none;
  params = end;
  timeout_ms = of_ℕ 60000;
  created_at = of_ℕ 1000;
  expires_at = of_ℕ 2000;
  trace_id = "trace_0001";
  callback_url = none;
  priority = p;
  preempt_running = true;
}

abbrev queued_of : String → TaskPriority → ℕ → QueuedDeviceTask
queued_of id p n = record { request = request_of id p; sequence = n; enqueued_at = 5 }

abbrev waiting : List QueuedDeviceTask
waiting =
    queued_of "task_0003" high 3
    ∷ queued_of "task_0002" normal 2
    ∷ queued_of "task_0001" low 1
    ∷ queued_of "task_0004" low 4
    ∷ []

abbrev incoming : QueuedDeviceTask
incoming = queued_of "task_0005" normal 5

inserted :
    insert_queued_task waiting incoming
    ≡ queued_of "task_0003" high 3
      ∷ queued_of "task_0002" normal 2
      ∷ incoming
      ∷ queued_of "task_0001" low 1
      ∷ queued_of "task_0004" low 4
      ∷ []
unfolding insert_queued_task
inserted = refl

evicts_oldest_low : find_high_priority_eviction_index waiting (request_of "task_0006" high) ≡ some 2
unfolding find_high_priority_eviction_index
evicts_oldest_low = refl

preempts :
    can_preempt_running (request_of "task_0006" high) (request_of "task_0001" low) false ≡ true
unfolding can_preempt_running
preempts = refl

insert_queued_task-IsScheduled_example : IsScheduled (insert_queued_task waiting incoming)
insert_queued_task-IsScheduled_example =
    insert_queued_task-IsScheduled waiting incoming (omega arith) (omega arith)

eviction-IsVictim_example :
    let r = request_of "task_0006" high in
    (r.priority ≡ high)
    × (victim : QueuedDeviceTask) × IsVictim waiting (priority_rank r.priority) 2 victim
eviction-IsVictim_example =
    eviction-IsVictim waiting (request_of "task_0006" high) 2 evicts_oldest_low

eviction-eq-none_iff_example :
    (find_high_priority_eviction_index waiting (request_of "task_0006" normal) ≡ none)
    ↔ ((normal ≢ high) ⊎ All (λ q. 1 ≤ rank q) waiting)
eviction-eq-none_iff_example = eviction-eq-none_iff waiting (request_of "task_0006" normal)
