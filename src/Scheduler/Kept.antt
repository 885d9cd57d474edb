-- ===== src/Scheduler/Kept.antt =====
-- Known tasks and their results over the intake and the ends of the active task.
use one_autojs.Base.{
  ℕ, ◌≡◌, refl, String, Option, none, some, ◌∷◌, Json, get_elem?, arith, length, str_eq, eq_iff,
  Bool-cases, inl, inr, Outcome, ok, throw, leb,
}
use one_autojs.Protocol.{DeviceTaskRequest, DeviceTaskResult, TaskStatus}
use one_autojs.Protocol.Parse.{parse_device_task_request}
use one_autojs.TaskQueue.{QueuedDeviceTask, find_high_priority_eviction_index}
use one_autojs.TaskState.{TaskControlCommand}
use one_autojs.Scheduler.{ActiveTask, Client, ClientConfig, set_has, set_delete}
use one_autojs.Scheduler.Handlers.{
  accept_task, evict, Admission, refused, accepted, evict_for, admit_to_queue, admit_unblocked,
  admit, after_admission, enqueue_parsed, enqueue_task,
}
use one_autojs.Scheduler.Control.{cleanup_active_task, preempted, cancelled_by, timed_out, forced}
use one_autojs.Scheduler.Execution.{settle}
use one_autojs.Scheduler.Invariant.{set_has-set_add}
use one_autojs.Scheduler.NoLoss.{
  NoLoss, NoLoss-refl, NoLoss-trans, NoLoss-of_Same, NoLoss-result, NoLoss-delete,
  begin_cleanup-Same, preempt_or_next-Same,
}

module _ (config : ClientConfig) where
  -- A result, then the cleanup.
  pub settled-NoLoss :
      (c : Client) (r : DeviceTaskResult)
      → NoLoss c (cleanup_active_task (record c { outbox = r ∷ c.outbox }))
  unfolding cleanup_active_task
  settled-NoLoss c r =
      let d = record c { outbox = r ∷ c.outbox } in
      NoLoss-trans c d _ (NoLoss-result c r)
        (NoLoss-of_Same d _ (begin_cleanup-Same c.active_task d))

  pub preempted-NoLoss :
      (now : ℕ) (incoming : DeviceTaskRequest) (o : Option ActiveTask) (c : Client)
      → NoLoss c (preempted config now incoming o c)
  preempted-NoLoss now incoming none c = NoLoss-refl c
  preempted-NoLoss now incoming (some a) c = settled-NoLoss c _

  pub cancelled_by-NoLoss :
      (now : ℕ) (command : TaskControlCommand) (o : Option ActiveTask) (c : Client)
      → NoLoss c (cancelled_by config now command o c)
  cancelled_by-NoLoss now command none c = NoLoss-refl c
  cancelled_by-NoLoss now command (some a) c = settled-NoLoss c _

  pub timed_out-NoLoss :
      (now : ℕ) (message : String) (details : Json) (o : Option ActiveTask) (c : Client)
      → NoLoss c (timed_out config now message details o c)
  timed_out-NoLoss now message details none c = NoLoss-refl c
  timed_out-NoLoss now message details (some a) c = settled-NoLoss c _

  pub forced-NoLoss :
      (now : ℕ) (deployment : String) (o : Option ActiveTask) (c : Client)
      → NoLoss c (forced config now deployment o c)
  forced-NoLoss now deployment none c = NoLoss-refl c
  forced-NoLoss now deployment (some a) c = settled-NoLoss c _

  pub settle-NoLoss :
      (now : ℕ) (status : TaskStatus) (code message : String) (details : Json)
      (o : Option ActiveTask) (c : Client)
      → NoLoss c (settle config now status code message details o c)
  settle-NoLoss now status code message details none c = NoLoss-refl c
  settle-NoLoss now status code message details (some a) c = elim (Bool-cases a.cleanup_pending) [
    | inl h ↦ rw h (NoLoss-refl c)
    | inr h ↦ rw h (settled-NoLoss c _)
  ]

  -- A task is forgotten right after its result is published.
  pub forgotten-NoLoss :
      (c d : Client) (r : DeviceTaskResult) (task_id : String)
      → r.task_id ≡ task_id
      → d.queued_task_ids ≡ set_delete task_id c.queued_task_ids
      → d.outbox ≡ r ∷ c.outbox
      → NoLoss c d
  forgotten-NoLoss c d r task_id named ids results =
      NoLoss-delete c d task_id ids (λ id h. rw results (ground arith))
        (rw results (ground (arith, eq_iff r.task_id task_id)))

  pub evict-NoLoss :
      (now : ℕ) (request : DeviceTaskRequest) (i : ℕ) (o : Option QueuedDeviceTask) (c : Client)
      → NoLoss c (evict config now request i o c)
  evict-NoLoss now request i none c = NoLoss-refl c
  evict-NoLoss now request i (some q) c = forgotten-NoLoss c _ _ q.request.task_id refl refl refl

  pub accept_task-NoLoss :
      (now : ℕ) (request : DeviceTaskRequest) (c : Client) → NoLoss c (accept_task now request c)
  unfolding accept_task
  accept_task-NoLoss now request c = record {
    stays = λ id h. h;
    kept = λ id h. rw set_has-set_add (ground arith);
  }

  abbrev KeepsAll : Client → Admission → Type 0
  KeepsAll c (refused d) = NoLoss c d
  KeepsAll c (accepted d) = NoLoss c d

  pub evict_for-KeepsAll :
      (now : ℕ) (request : DeviceTaskRequest) (o : Option ℕ) (c : Client)
      → KeepsAll c (evict_for config now request o c)
  evict_for-KeepsAll now request none c = NoLoss-result c _
  evict_for-KeepsAll now request (some i) c =
      let d = evict config now request i (get_elem? c.task_queue i) c in
      NoLoss-trans c d _ (evict-NoLoss now request i (get_elem? c.task_queue i) c)
        (accept_task-NoLoss now request d)

  pub admit-KeepsAll :
      (now : ℕ) (request : DeviceTaskRequest) (c : Client) → KeepsAll c (admit config now request c)
  unfolding admit
  admit-KeepsAll now request c = elim (Bool-cases (str_eq request.device_id config.device_id)) [
    | inl mine ↦ rw mine (unblocked c.deployment_block_id)
    | inr other ↦ rw other (NoLoss-result c _)
  ]
    where
      queue : KeepsAll c (admit_to_queue config now request c)
      queue = elim (Bool-cases (leb config.queue_limit (length c.task_queue))) [
        | inl full ↦ rw full (
            evict_for-KeepsAll now request (find_high_priority_eviction_index c.task_queue request)
              c)
        | inr room ↦ rw room (accept_task-NoLoss now request c)
      ]

      unblocked : (o : Option String) → KeepsAll c (admit_unblocked config now request o c)
      unblocked (some deployment) = NoLoss-result c _
      unblocked none = elim (Bool-cases (set_has request.task_id c.queued_task_ids)) [
        | inl known ↦ rw known (NoLoss-refl c)
        | inr fresh ↦ rw fresh queue
      ]

  pub after_admission-NoLoss :
      (now : ℕ) (request : DeviceTaskRequest) (c : Client) (a : Admission)
      → KeepsAll c a
      → NoLoss c (after_admission now request a)
  after_admission-NoLoss now request c (refused d) h = h
  after_admission-NoLoss now request c (accepted d) h =
      NoLoss-trans c d _ h (NoLoss-of_Same d _ (preempt_or_next-Same now request d.active_task d))

  pub enqueue_task-NoLoss :
      (now : ℕ) (payload : Json) (c : Client) → NoLoss c (enqueue_task config now payload c)
  unfolding enqueue_task
  enqueue_task-NoLoss now payload c = parsed (parse_device_task_request payload)
    where
      parsed : (o : Outcome DeviceTaskRequest) → NoLoss c (enqueue_parsed config now o c)
      parsed (throw message) = NoLoss-refl c
      parsed (ok request) = after_admission-NoLoss now request c _ (admit-KeepsAll now request c)
