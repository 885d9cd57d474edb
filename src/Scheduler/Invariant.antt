-- ===== src/Scheduler/Invariant.antt =====
-- What holds of the client between any two handler runs.
use one_autojs.Base.{
  false≢true, subst, sym, some_inj, ◌∙◌, ℕ, zero, suc, ◌+◌, ◌≤◌, ◌≡◌, refl, String, Bool, true,
  false, ◌&&◌, ◌||◌, not, Option, none, some, List, [], ◌∷◌, ◌++◌, length, get_elem?, erase_at,
  str_eq, eq_iff, if◌then◌else◌, arith, ltb, Bool-cases, inl, inr, ap,
}
use one_autojs.Protocol.{DeviceTaskResult}
use one_autojs.TaskQueue.{QueuedDeviceTask, rank, insert_queued_task}
use one_autojs.TaskQueue.Order.{IsScheduled, IsReceivedBefore}
use one_autojs.TaskState.Snapshot.{StartingTask}
use one_autojs.Scheduler.{
  ActiveTask, Continuation, preempting, cancelling, timing_out, forcing, cleaning, Client,
  ClientConfig, set_has, set_add, set_delete, is_some,
}

abbrev pub bit : Bool → ℕ
bit true = 1
bit false = 0

-- How often a task id is queued, starting and active.
abbrev pub queue_count : String → List QueuedDeviceTask → ℕ
queue_count id [] = 0
queue_count id (q ∷ queue) = bit (str_eq q.request.task_id id) + queue_count id queue

abbrev pub starting_count : String → Option StartingTask → ℕ
starting_count id none = 0
starting_count id (some s) = bit (str_eq s.request.task_id id)

abbrev pub active_count : String → Option ActiveTask → ℕ
active_count id none = 0
active_count id (some a) = bit (str_eq a.request.task_id id)

-- The cleanups that wait, and those that the active task accounts for.
abbrev pub cleanings : List Continuation → List (ℕ × String)
cleanings [] = []
cleanings (cleaning identity task_id ∷ ks) = (identity, task_id) ∷ cleanings ks
cleanings (preempting identity incoming ∷ ks) = cleanings ks
cleanings (cancelling identity command ∷ ks) = cleanings ks
cleanings (timing_out identity ∷ ks) = cleanings ks
cleanings (forcing identity deployment ∷ ks) = cleanings ks

abbrev pub expected_cleanings : Option ActiveTask → List (ℕ × String)
expected_cleanings none = []
expected_cleanings (some a) = if a.cleanup_pending then (a.identity, a.request.task_id) ∷ [] else []

-- A result of the task is in the outbox.
abbrev pub has_result : String → List DeviceTaskResult → Bool
has_result id [] = false
has_result id (r ∷ results) = str_eq r.task_id id || has_result id results

-- A task under cleanup has its result.
abbrev pub IsSettled : Option ActiveTask → List DeviceTaskResult → Type 0
IsSettled none results = Unit
IsSettled (some a) results = a.cleanup_pending ≡ true → has_result a.request.task_id results ≡ true

-- The queue is in order, within its limit, and holds only tasks already numbered.
pub record IsOrdered (limit : ℕ) (queue : List QueuedDeviceTask) (sequence : ℕ) : Type 0 where
  pub scheduled : IsScheduled queue
  pub received : IsReceivedBefore sequence queue
  pub bounded : length queue ≤ limit

-- Every known id is that of exactly one task, queued, starting or active; no task starts while one
-- is active; and the one cleanup that may wait is that of the active task, which has its result if
-- every launch failed in time.
pub record IsConsistent (config : ClientConfig) (timely : Bool) (c : Client) : Type 0 where
  pub ordered : IsOrdered config.queue_limit c.task_queue c.queue_sequence
  pub once :
      (id : String)
      → queue_count id c.task_queue
          + starting_count id c.starting_task
          + active_count id c.active_task
        ≡ bit (set_has id c.queued_task_ids)
  pub serial : (is_some c.starting_task && is_some c.active_task) ≡ false
  pub flagged : c.is_starting_task ≡ is_some c.starting_task
  pub cleans : cleanings c.pending ≡ expected_cleanings c.active_task
  pub settled : timely ≡ true → IsSettled c.active_task c.outbox

-- The laws of the set of ids.
pub set_has-append :
    (id x : String) (ids : List String)
    → set_has id (ids ++ x ∷ []) ≡ (set_has id ids || str_eq x id)
set_has-append id x [] = ground arith
set_has-append id x (y ∷ ids) = ground (arith, set_has-append id x ids)

pub set_has-set_add :
    (id x : String) (ids : List String)
    → set_has id (set_add x ids) ≡ (str_eq x id || set_has id ids)
set_has-set_add id x ids = ground (arith, eq_iff x id, set_has-append id x ids)

pub set_has-set_delete :
    (id x : String) (ids : List String)
    → set_has id (set_delete x ids) ≡ (not (str_eq x id) && set_has id ids)
set_has-set_delete id x [] = ground arith
set_has-set_delete id x (y ∷ ids) =
    ground (arith, eq_iff x id, eq_iff y id, eq_iff y x, set_has-set_delete id x ids)

pub queue_count-insert :
    (id : String) (queue : List QueuedDeviceTask) (x : QueuedDeviceTask)
    → queue_count id (insert_queued_task queue x)
      ≡ bit (str_eq x.request.task_id id) + queue_count id queue
unfolding insert_queued_task
queue_count-insert id [] x = refl
queue_count-insert id (y ∷ queue) x = elim (Bool-cases (ltb (rank y) (rank x))) [
  | inl above ↦ rw above refl
  | inr other ↦ rw other (omega (arith, queue_count-insert id queue x))
]

pub queue_count-erase_at :
    (id : String) (queue : List QueuedDeviceTask) (i : ℕ) {x : QueuedDeviceTask}
    → get_elem? queue i ≡ some x
    → bit (str_eq x.request.task_id id) + queue_count id (erase_at queue i) ≡ queue_count id queue
queue_count-erase_at id [] i h = cc
queue_count-erase_at id (y ∷ queue) zero {x} h =
    subst
      (λ (q : QueuedDeviceTask).
        bit (str_eq q.request.task_id id) + queue_count id queue
        ≡ bit (str_eq y.request.task_id id) + queue_count id queue)
      (some_inj h) refl
queue_count-erase_at id (y ∷ queue) (suc i) h = omega (arith, queue_count-erase_at id queue i h)

eq_nil_of_length : (xs : List (ℕ × String)) → length xs ≤ 0 → xs ≡ []
eq_nil_of_length [] h = refl
eq_nil_of_length (x ∷ xs) h = absurd (omega arith)

-- The one cleanup that waits is the one that goes on.
pub cleanings-erase_at :
    (ks : List Continuation) (n : ℕ) {i : ℕ} {t : String}
    → get_elem? ks n ≡ some (cleaning i t)
    → length (cleanings ks) ≤ 1
    → (cleanings ks ≡ (i, t) ∷ []) × (cleanings (erase_at ks n) ≡ [])
cleanings-erase_at [] n h one = cc
cleanings-erase_at (k ∷ ks) zero {i} {t} h one =
    subst
      (λ (x : Continuation).
        length (cleanings (x ∷ ks)) ≤ 1 → (cleanings (x ∷ ks) ≡ (i, t) ∷ []) × (cleanings ks ≡ []))
      (sym (some_inj h))
      (λ few.
        let none_left = eq_nil_of_length (cleanings ks) (omega arith) in
        (ap (λ (xs : List (ℕ × String)). (i, t) ∷ xs) none_left, none_left))
      one
cleanings-erase_at (cleaning j u ∷ ks) (suc n) {i} {t} h one =
    let (found, _) = cleanings-erase_at ks n h (omega arith) in
    let more : length (cleanings ks) ≡ 1 = ap (λ (xs : List (ℕ × String)). length xs) found in
    absurd (omega arith)
cleanings-erase_at (preempting j r ∷ ks) (suc n) h one = cleanings-erase_at ks n h one
cleanings-erase_at (cancelling j r ∷ ks) (suc n) h one = cleanings-erase_at ks n h one
cleanings-erase_at (timing_out j ∷ ks) (suc n) h one = cleanings-erase_at ks n h one
cleanings-erase_at (forcing j d ∷ ks) (suc n) h one = cleanings-erase_at ks n h one

abbrev pub is_cleaning : Continuation → Bool
is_cleaning (cleaning identity task_id) = true
is_cleaning _ = false

pub cleanings-erase_other :
    (ks : List Continuation) (n : ℕ) {k : Continuation}
    → get_elem? ks n ≡ some k
    → is_cleaning k ≡ false
    → cleanings (erase_at ks n) ≡ cleanings ks
cleanings-erase_other [] n h other = cc
cleanings-erase_other (cleaning j u ∷ ks) zero h other =
    absurd (false≢true (sym (ap is_cleaning (some_inj h) ∙ other)))
cleanings-erase_other (preempting j u ∷ ks) zero h other = refl
cleanings-erase_other (cancelling j u ∷ ks) zero h other = refl
cleanings-erase_other (timing_out j ∷ ks) zero h other = refl
cleanings-erase_other (forcing j d ∷ ks) zero h other = refl
cleanings-erase_other (cleaning j u ∷ ks) (suc n) h other =
    ap (λ (xs : List (ℕ × String)). (j, u) ∷ xs) (cleanings-erase_other ks n h other)
cleanings-erase_other (preempting j u ∷ ks) (suc n) h other = cleanings-erase_other ks n h other
cleanings-erase_other (cancelling j u ∷ ks) (suc n) h other = cleanings-erase_other ks n h other
cleanings-erase_other (timing_out j ∷ ks) (suc n) h other = cleanings-erase_other ks n h other
cleanings-erase_other (forcing j d ∷ ks) (suc n) h other = cleanings-erase_other ks n h other
