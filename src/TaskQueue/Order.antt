-- ===== src/TaskQueue/Order.antt =====
-- `insertQueuedTask` of mobile/src/task-queue.ts and the order of the queue.
use mathlib.Core.List.{Perm}
use mathlib.Core.List.Perm
use one_autojs.Base.{
  ℕ, suc, ◌<◌, ◌≡◌, refl, ◌⊎◌, List, [], ◌∷◌, arith, ltb, length, Bool-cases, inl, inr, All,
}
use one_autojs.TaskQueue.{QueuedDeviceTask, rank, insert_queued_task}

-- `a` is scheduled before `b`: a higher priority, or the same and received earlier.
abbrev pub Before : QueuedDeviceTask → QueuedDeviceTask → Type 0
Before a b = (rank b < rank a) ⊎ ((rank a ≡ rank b) × (a.sequence < b.sequence))

-- Every task is scheduled before all that stand behind it.
abbrev pub IsScheduled : List QueuedDeviceTask → Type 0
IsScheduled [] = Unit
IsScheduled (q ∷ queue) = All (Before q) queue × IsScheduled queue

abbrev pub IsReceivedBefore : ℕ → List QueuedDeviceTask → Type 0
IsReceivedBefore n = All (λ q. q.sequence < n)

Before-All-insert :
    (q x : QueuedDeviceTask) (queue : List QueuedDeviceTask)
    → Before q x
    → All (Before q) queue
    → All (Before q) (insert_queued_task queue x)
unfolding insert_queued_task
Before-All-insert q x [] b h = (b, tt)
Before-All-insert q x (y ∷ queue) b (p, h) =
    let rest = Before-All-insert q x queue b h in ground arith

Before-All-trans :
    (x y : QueuedDeviceTask) (queue : List QueuedDeviceTask)
    → rank y < rank x
    → All (Before y) queue
    → All (Before x) queue
Before-All-trans x y [] h b = tt
Before-All-trans x y (z ∷ queue) h (p, b) = (ground arith, Before-All-trans x y queue h b)

-- Inserting a task received after all of the queue keeps the schedule: by falling priority and,
-- within one priority, in the order received.
pub insert_queued_task-IsScheduled :
    (queue : List QueuedDeviceTask) (x : QueuedDeviceTask)
    → IsScheduled queue
    → IsReceivedBefore x.sequence queue
    → IsScheduled (insert_queued_task queue x)
unfolding insert_queued_task
insert_queued_task-IsScheduled [] x s r = (tt, tt)
insert_queued_task-IsScheduled (y ∷ queue) x (b, s) (p, r) =
    let rest = insert_queued_task-IsScheduled queue x s r in
    elim (Bool-cases (ltb (rank y) (rank x))) [
      | inl above ↦ rw above ((ground arith, Before-All-trans x y queue (ground arith) b), (b, s))
      | inr not_above ↦ rw not_above (Before-All-insert y x queue (ground arith) b, rest)
    ]

-- Insertion adds the task and keeps the others.
pub insert_queued_task-perm :
    (queue : List QueuedDeviceTask) (x : QueuedDeviceTask)
    → Perm (insert_queued_task queue x) (x ∷ queue)
unfolding insert_queued_task
insert_queued_task-perm [] x = Perm.refl _
insert_queued_task-perm (y ∷ queue) x = elim (Bool-cases (ltb (rank y) (rank x))) [
  | inl above ↦ rw above (Perm.refl _)
  | inr not_above ↦
      rw not_above
        (Perm.trans (Perm.cons y (insert_queued_task-perm queue x)) (Perm.swap x y queue))
]

pub length-insert_queued_task :
    (queue : List QueuedDeviceTask) (x : QueuedDeviceTask)
    → length (insert_queued_task queue x) ≡ suc (length queue)
unfolding insert_queued_task
length-insert_queued_task [] x = refl
length-insert_queued_task (y ∷ queue) x = ground (arith, length-insert_queued_task queue x)
