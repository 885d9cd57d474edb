-- ===== src/TaskState/Snapshot.antt =====
-- `buildTaskStateSnapshot`.
use one_autojs.Base.{
  zero, some_inj, eq_iff, ℕ, suc, ◌+◌, ◌≡◌, refl, ap, String, Bool, true, false, Option, none, some,
  List, [], ◌∷◌, length, arith, get_elem?,
}
use one_autojs.Protocol.{DeviceTaskRequest}
use one_autojs.TaskQueue.{QueuedDeviceTask}
use one_autojs.TaskState.{
  can_cancel_active_task, DeviceTaskStateItem, DeviceTaskStateSnapshot, starting, running, queued,
}

-- The `active` option.
pub record ActiveView : Type 0 where
  pub request : DeviceTaskRequest
  pub enqueued_at : ℕ
  pub started_at : ℕ
  pub launched : Bool

-- The `starting` option.
pub record StartingTask : Type 0 where
  pub request : DeviceTaskRequest
  pub enqueued_at : ℕ
  pub started_at : ℕ

pub record SnapshotOptions : Type 0 where
  pub device_id : String
  pub session_id : String
  pub session_started_at : ℕ
  pub revision : ℕ
  pub timestamp : ℕ
  pub active : Option ActiveView
  pub starting : Option StartingTask
  pub queue : List QueuedDeviceTask

abbrev pub current_item : DeviceTaskRequest → ℕ → ℕ → Bool → DeviceTaskStateItem
current_item request enqueued_at started_at launched = record {
  task_id = request.task_id;
  script_id = request.script_id;
  priority = request.priority;
  created_at = enqueued_at;
  started_at = some started_at;
  position = none;
  phase = elim launched [ true ↦ running | false ↦ starting ];
  cancellable = launched;
}

abbrev pub running_item : Option ActiveView → Option StartingTask → Option DeviceTaskStateItem
running_item (some a) s = some (current_item a.request a.enqueued_at a.started_at a.launched)
running_item none (some s) = some (current_item s.request s.enqueued_at s.started_at false)
running_item none none = none

abbrev pub queued_item : QueuedDeviceTask → ℕ → DeviceTaskStateItem
queued_item q index = record {
  task_id = q.request.task_id;
  script_id = q.request.script_id;
  priority = q.request.priority;
  created_at = q.enqueued_at;
  started_at = none;
  position = some (suc index);
  phase = queued;
  cancellable = true;
}

-- The `map` over the queue with its index.
unfoldable pub queued_items : ℕ → List QueuedDeviceTask → List DeviceTaskStateItem
queued_items index [] = []
queued_items index (q ∷ queue) = queued_item q index ∷ queued_items (suc index) queue

unfoldable pub build_task_state_snapshot : SnapshotOptions → DeviceTaskStateSnapshot
build_task_state_snapshot o = record {
  device_id = o.device_id;
  session_id = o.session_id;
  session_started_at = o.session_started_at;
  timestamp = o.timestamp;
  revision = o.revision;
  running = running_item o.active o.starting;
  queued = queued_items 0 o.queue;
}

queued_items-get_elem? :
    (i k : ℕ) (queue : List QueuedDeviceTask) {q : QueuedDeviceTask}
    → get_elem? queue k ≡ some q
    → get_elem? (queued_items i queue) k ≡ some (queued_item q (i + k))
unfolding queued_items
queued_items-get_elem? i k [] h = cc
queued_items-get_elem? i zero (x ∷ queue) h =
    let e : i + 0 ≡ i = omega arith in rw e (ap (λ y. some (queued_item y i)) (some_inj h))
queued_items-get_elem? i (suc k) (x ∷ queue) {q} h =
    let e : i + suc k ≡ suc i + k = omega arith in rw e (queued_items-get_elem? (suc i) k queue h)

length-queued_items :
    (i : ℕ) (queue : List QueuedDeviceTask) → length (queued_items i queue) ≡ length queue
unfolding queued_items
length-queued_items i [] = refl
length-queued_items i (q ∷ queue) = ap suc (length-queued_items (suc i) queue)

-- The snapshot lists the queue in its order and nothing else: it has as many queued items as the
-- queue, and the task at an index is the item at that index, shown as queued, cancellable and in
-- the position one above the index.
pub snapshot-queue :
    (o : SnapshotOptions)
    → (length (build_task_state_snapshot o).queued ≡ length o.queue)
      × ((i : ℕ) (q : QueuedDeviceTask)
          → get_elem? o.queue i ≡ some q
          → (item : DeviceTaskStateItem) × (get_elem? (build_task_state_snapshot o).queued i
              ≡ some item)
            × (item.task_id ≡ q.request.task_id)
            × (item.position ≡ some (i + 1))
            × (item.phase ≡ queued)
            × (item.cancellable ≡ true))
unfolding build_task_state_snapshot
snapshot-queue o = (
  length-queued_items 0 o.queue,
  λ i q at. (
    queued_item q (0 + i),
    queued_items-get_elem? 0 i o.queue at,
    refl,
    let e : suc (0 + i) ≡ i + 1 = omega arith in ap some e,
    refl,
    refl,
  ),
)

running_item-cancellable :
    (active : Option ActiveView) (s : Option StartingTask) {item : DeviceTaskStateItem}
    → running_item active s ≡ some item
    → item.cancellable ≡ true
    → (a : ActiveView) × (active ≡ some a)
      × (can_cancel_active_task item.task_id (some a.request.task_id) a.launched false ≡ true)
unfolding can_cancel_active_task
running_item-cancellable (some a) s h c =
    (a, refl, ground (arith, eq_iff a.request.task_id a.request.task_id))
running_item-cancellable none (some s) h c = ground arith
running_item-cancellable none none h c = cc

-- If the snapshot shows the current task as cancellable, then a task is active, and a command that
-- names the shown task may cancel it as long as its cleanup has not begun.
pub snapshot-cancellable :
    (o : SnapshotOptions) (item : DeviceTaskStateItem)
    → (build_task_state_snapshot o).running ≡ some item
    → item.cancellable ≡ true
    → (a : ActiveView) × (o.active ≡ some a)
      × (can_cancel_active_task item.task_id (some a.request.task_id) a.launched false ≡ true)
unfolding build_task_state_snapshot
snapshot-cancellable o item h c = running_item-cancellable o.active o.starting h c
