-- ===== src/Scheduler/NoLoss.antt =====
-- Known tasks and their results from one state of the client to a later one.
use one_autojs.Base.{
  ℕ, ◌≡◌, refl, subst, String, Bool, true, false, ◌||◌, Option, none, some, List, [], ◌∷◌, arith,
  str_eq, eq_iff, if◌then◌else◌, Bool-cases, inl, inr,
}
use one_autojs.Protocol.{DeviceTaskRequest, DeviceTaskResult}
use one_autojs.TaskQueue.{QueuedDeviceTask}
use one_autojs.Scheduler.{ActiveTask, Client, set_has, set_delete}
use one_autojs.Scheduler.Handlers.{
  publish_task_state, dequeue, process_next_task, preempt_or_next, may_preempt,
}
use one_autojs.Scheduler.Control.{begin_cleanup, reschedule, begin_timeout, begin_force}
use one_autojs.Scheduler.Execution.{commit, preempt_with, first_preemptor, launch_current}
use one_autojs.Scheduler.Invariant.{has_result, set_has-set_delete}

-- From one client to a later one, results stay, and a known task is still known or has a result.
pub record NoLoss (c d : Client) : Type 0 where
  pub stays : (id : String) → has_result id c.outbox ≡ true → has_result id d.outbox ≡ true
  pub kept :
      (id : String)
      → set_has id c.queued_task_ids ≡ true
      → (set_has id d.queued_task_ids || has_result id d.outbox) ≡ true

pub NoLoss-refl : (c : Client) → NoLoss c c
NoLoss-refl c = record { stays = λ id h. h; kept = λ id h. ground arith }

pub NoLoss-trans : (c d e : Client) → NoLoss c d → NoLoss d e → NoLoss c e
NoLoss-trans c d e a b = record {
  stays = λ id h. b.stays id (a.stays id h);
  kept = λ id h. elim (Bool-cases (set_has id d.queued_task_ids)) [
    | inl known ↦ b.kept id known
    | inr gone ↦
        let done : has_result id d.outbox ≡ true = let k = a.kept id h in ground arith in
        let still = b.stays id done in ground arith
  ];
}

-- The two fields alone matter.
abbrev pub Same : Client → Client → Type 0
Same c d = (d.queued_task_ids ≡ c.queued_task_ids) × (d.outbox ≡ c.outbox)

pub NoLoss-of_Same : (c d : Client) → Same c d → NoLoss c d
NoLoss-of_Same c d (ids, results) = record {
  stays = λ id h. rw results h;
  kept = λ id h. rw (ids, results) (ground arith);
}

-- A result is published.
pub NoLoss-result :
    (c : Client) (r : DeviceTaskResult) → NoLoss c (record c { outbox = r ∷ c.outbox })
NoLoss-result c r = record { stays = λ id h. ground arith; kept = λ id h. ground arith }

-- A task is forgotten with a result.
pub NoLoss-delete :
    (c d : Client) (task_id : String)
    → d.queued_task_ids ≡ set_delete task_id c.queued_task_ids
    → ((id : String) → has_result id c.outbox ≡ true → has_result id d.outbox ≡ true)
    → has_result task_id d.outbox ≡ true
    → NoLoss c d
NoLoss-delete c d task_id ids results done = record {
  stays = results;
  kept = λ id h. elim (Bool-cases (str_eq task_id id)) [
    | inl same ↦
        let found = subst (λ x. has_result x d.outbox ≡ true) ((eq_iff task_id id).0 same) done in
        ground arith
    | inr other ↦ rw (ids, set_has-set_delete, other) (ground arith)
  ];
}

pub begin_cleanup-Same : (o : Option ActiveTask) (c : Client) → Same c (begin_cleanup o c)
begin_cleanup-Same none c = (refl, refl)
begin_cleanup-Same (some a) c = elim (Bool-cases a.cleanup_pending) [
  | inl h ↦ rw h (refl, refl)
  | inr h ↦ rw h (refl, refl)
]

pub reschedule-Same : (o : Option ActiveTask) (c : Client) → Same c (reschedule o c)
reschedule-Same none c = (refl, refl)
reschedule-Same (some a) c = (refl, refl)

pub dequeue-Same :
    (now : ℕ) (queue : List QueuedDeviceTask) (c : Client) → Same c (dequeue now queue c)
dequeue-Same now [] c = (refl, refl)
dequeue-Same now (q ∷ queue) c = (refl, refl)

pub process_next_task-Same : (now : ℕ) (c : Client) → Same c (process_next_task now c)
unfolding process_next_task
process_next_task-Same now c = guarded _
  where
    guarded : (b : Bool) → Same c (if b then c else dequeue now c.task_queue c)
    guarded true = (refl, refl)
    guarded false = dequeue-Same now c.task_queue c

pub preempt_or_next-Same :
    (now : ℕ) (request : DeviceTaskRequest) (o : Option ActiveTask) (c : Client)
    → Same c (preempt_or_next now request o c)
preempt_or_next-Same now request none c = process_next_task-Same now c
preempt_or_next-Same now request (some a) c = elim (Bool-cases (may_preempt request a)) [
  | inl h ↦ rw h (refl, refl)
  | inr h ↦ rw h (process_next_task-Same now c)
]

pub begin_timeout-Same : (o : Option ActiveTask) (c : Client) → Same c (begin_timeout o c)
begin_timeout-Same none c = (refl, refl)
begin_timeout-Same (some a) c = elim (Bool-cases a.timeout_armed) [
  | inl h ↦ rw h (refl, refl)
  | inr h ↦ rw h (refl, refl)
]

pub begin_force-Same :
    (deployment : String) (o : Option ActiveTask) (c : Client) → Same c (begin_force deployment o c)
begin_force-Same deployment none c = (refl, refl)
begin_force-Same deployment (some a) c = (refl, refl)

pub commit-Same : (o : Option ActiveTask) (c : Client) → Same c (commit o c)
commit-Same none c = (refl, refl)
commit-Same (some a) c = (refl, refl)

pub preempt_with-Same :
    (p : Option DeviceTaskRequest) (o : Option ActiveTask) (c : Client)
    → Same c (preempt_with p o c)
preempt_with-Same none o c = (refl, refl)
preempt_with-Same (some r) none c = (refl, refl)
preempt_with-Same (some r) (some a) c = elim (Bool-cases (may_preempt r a)) [
  | inl h ↦ rw h (refl, refl)
  | inr h ↦ rw h (refl, refl)
]

pub launch_current-Same : (o : Option ActiveTask) (c : Client) → Same c (launch_current o c)
launch_current-Same none c = (refl, refl)
launch_current-Same (some a) c = guarded a.cleanup_pending
  where
    guarded :
        (b : Bool)
        → let a' = record a { launched = true } in
          Same c (
            if b
            then c
            else preempt_with
                (first_preemptor a' c.task_queue)
                (some a')
                (publish_task_state (record c { active_task = some a' })))
    guarded true = (refl, refl)
    guarded false =
        let a' : ActiveTask = record a { launched = true } in
        preempt_with-Same (first_preemptor a' c.task_queue) (some a')
          (publish_task_state (record c { active_task = some a' }))
