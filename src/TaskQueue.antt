-- ===== src/TaskQueue.antt =====
-- The device's priority queue of waiting tasks: mobile/src/task-queue.ts.
pub mod Order
pub mod Eviction
mod Tests
use one_autojs.Base.{
  ℕ, zero, suc, Bool, true, false, not, ◌&&◌, Option, none, some, List, [], ◌∷◌, ltb, leb, ◌==◌,
  if◌then◌else◌,
}
use one_autojs.Protocol.{DeviceTaskRequest, TaskPriority, low, normal, high}

-- `QueuedDeviceTask`
pub record QueuedDeviceTask : Type 0 where
  pub request : DeviceTaskRequest
  pub sequence : ℕ
  pub enqueued_at : ℕ

-- `priorityRank`
abbrev pub priority_rank : TaskPriority → ℕ
priority_rank low = 0
priority_rank normal = 1
priority_rank high = 2

abbrev pub rank : QueuedDeviceTask → ℕ
rank q = priority_rank q.request.priority

-- `canPreemptRunning`
unfoldable pub can_preempt_running : DeviceTaskRequest → DeviceTaskRequest → Bool → Bool
can_preempt_running incoming running side_effect_committed =
    not side_effect_committed
    && incoming.preempt_running
    && leb (priority_rank running.priority) (priority_rank incoming.priority)

-- `insertQueuedTask`: `findIndex` and the `splice` or `push` in one walk.
unfoldable pub insert_queued_task : List QueuedDeviceTask → QueuedDeviceTask → List QueuedDeviceTask
insert_queued_task [] incoming = incoming ∷ []
insert_queued_task (queued ∷ queue) incoming =
    if ltb (rank queued) (rank incoming)
    then incoming ∷ queued ∷ queue
    else queued ∷ insert_queued_task queue incoming

-- An entry with its index in the queue.
pub record Indexed : Type 0 where
  pub entry : QueuedDeviceTask
  pub index : ℕ

abbrev pub indexed_from : ℕ → List QueuedDeviceTask → List Indexed
indexed_from i [] = []
indexed_from i (q ∷ queue) = record { entry = q; index = i } ∷ indexed_from (suc i) queue

abbrev pub lower_than : ℕ → List Indexed → List Indexed
lower_than r [] = []
lower_than r (x ∷ xs) = if ltb (rank x.entry) r then x ∷ lower_than r xs else lower_than r xs

-- `left` sorts before or beside `right`: the comparator's difference is not positive.
abbrev pub sorts_before : Indexed → Indexed → Bool
sorts_before left right =
    if rank left.entry == rank right.entry
    then leb left.entry.sequence right.entry.sequence
    else ltb (rank left.entry) (rank right.entry)

-- The language's stable sort.
abbrev pub sort_insert : Indexed → List Indexed → List Indexed
sort_insert x [] = x ∷ []
sort_insert x (y ∷ ys) = if sorts_before x y then x ∷ y ∷ ys else y ∷ sort_insert x ys

abbrev pub sort : List Indexed → List Indexed
sort [] = []
sort (x ∷ xs) = sort_insert x (sort xs)

abbrev pub first_index : List Indexed → Option ℕ
first_index [] = none
first_index (x ∷ xs) = some x.index

abbrev pub is_high : TaskPriority → Bool
is_high high = true
is_high _ = false

-- `findHighPriorityEvictionIndex`; `none` is the source's -1.
unfoldable pub find_high_priority_eviction_index :
    List QueuedDeviceTask → DeviceTaskRequest → Option ℕ
find_high_priority_eviction_index queue incoming =
    if is_high incoming.priority
    then first_index (sort (lower_than (priority_rank incoming.priority) (indexed_from 0 queue)))
    else none
