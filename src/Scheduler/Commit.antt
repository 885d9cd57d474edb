-- ===== src/Scheduler/Commit.antt =====
-- Tasks past the commit boundary of an external side effect.
use one_autojs.Base.{
  ℕ, ◌≡◌, refl, ap, ◌∙◌, String, true, false, Option, none, some, Json, get_elem?, arith, length,
  str_eq, Bool-cases, inl, inr, some_inj, Outcome, ok, throw, leb,
}
use one_autojs.Protocol.{DeviceTaskRequest}
use one_autojs.Protocol.Parse.{parse_device_task_request}
use one_autojs.TaskQueue.{QueuedDeviceTask, find_high_priority_eviction_index, can_preempt_running}
use one_autojs.Scheduler.{ActiveTask, Client, ClientConfig, set_has, is_some}
use one_autojs.Scheduler.Handlers.{
  process_next_task, accept_task, evict, Admission, refused, accepted, evict_for, admit_to_queue,
  admit_unblocked, admit, preempt_or_next, after_admission, enqueue_parsed, enqueue_task,
  may_preempt,
}

-- The active task and the continuations stay as they were.
abbrev pub Undisturbed : Client → Client → Type 0
Undisturbed c d = (d.active_task ≡ c.active_task) × (d.pending ≡ c.pending)

abbrev Admitted : Client → Admission → Type 0
Admitted c (refused d) = Undisturbed c d
Admitted c (accepted d) = Undisturbed c d

evict-Undisturbed :
    (config : ClientConfig) (now : ℕ) (request : DeviceTaskRequest) (i : ℕ)
    (o : Option QueuedDeviceTask) (c : Client)
    → Undisturbed c (evict config now request i o c)
evict-Undisturbed config now request i none c = (refl, refl)
evict-Undisturbed config now request i (some q) c = (refl, refl)

accept_task-Undisturbed :
    (now : ℕ) (request : DeviceTaskRequest) (c : Client) → Undisturbed c (accept_task now request c)
unfolding accept_task
accept_task-Undisturbed now request c = (refl, refl)

admit-Admitted :
    (config : ClientConfig) (now : ℕ) (request : DeviceTaskRequest) (c : Client)
    → Admitted c (admit config now request c)
unfolding admit
admit-Admitted config now request c =
    elim (Bool-cases (str_eq request.device_id config.device_id)) [
      | inl mine ↦ rw mine (unblocked c.deployment_block_id)
      | inr other ↦ rw other (refl, refl)
    ]
  where
    evicting : (o : Option ℕ) → Admitted c (evict_for config now request o c)
    evicting none = (refl, refl)
    evicting (some i) =
        let d = evict config now request i (get_elem? c.task_queue i) c in
        let (a, p) = evict-Undisturbed config now request i (get_elem? c.task_queue i) c in
        let (a', p') = accept_task-Undisturbed now request d in (a' ∙ a, p' ∙ p)

    queue : Admitted c (admit_to_queue config now request c)
    queue = elim (Bool-cases (leb config.queue_limit (length c.task_queue))) [
      | inl full ↦ rw full (evicting (find_high_priority_eviction_index c.task_queue request))
      | inr room ↦ rw room (accept_task-Undisturbed now request c)
    ]

    unblocked : (o : Option String) → Admitted c (admit_unblocked config now request o c)
    unblocked (some deployment) = (refl, refl)
    unblocked none = elim (Bool-cases (set_has request.task_id c.queued_task_ids)) [
      | inl known ↦ rw known (refl, refl)
      | inr fresh ↦ rw fresh queue
    ]

-- With a task active, the next one is not started.
process_next_task_busy :
    (now : ℕ) (c : Client) {a : ActiveTask} → c.active_task ≡ some a → process_next_task now c ≡ c
unfolding process_next_task
process_next_task_busy now c e =
    let busy : is_some c.active_task ≡ true = ap (λ (o : Option ActiveTask). is_some o) e in
    simp busy

may_preempt_committed :
    (request : DeviceTaskRequest) (b : ActiveTask)
    → b.side_effect_committed ≡ true
    → may_preempt request b ≡ false
unfolding can_preempt_running
may_preempt_committed request b h = ground arith

preempt_or_next_committed :
    (now : ℕ) (request : DeviceTaskRequest) (o : Option ActiveTask) (c : Client) {a : ActiveTask}
    → c.active_task ≡ some a
    → o ≡ some a
    → a.side_effect_committed ≡ true
    → preempt_or_next now request o c ≡ c
preempt_or_next_committed now request none c e here committed = process_next_task_busy now c e
preempt_or_next_committed now request (some b) c {a} e here committed =
    let b_committed : b.side_effect_committed ≡ true =
      ap (λ (x : ActiveTask). x.side_effect_committed) (some_inj here) ∙ committed in
    let no : may_preempt request b ≡ false = may_preempt_committed request b b_committed in
    rw no (process_next_task_busy now c e)

after_admission_committed :
    (now : ℕ) (request : DeviceTaskRequest) (o : Admission) (c : Client) {a : ActiveTask}
    → Admitted c o
    → c.active_task ≡ some a
    → a.side_effect_committed ≡ true
    → Undisturbed c (after_admission now request o)
after_admission_committed now request (refused d) c same e committed = same
after_admission_committed now request (accepted d) c (active, waits) e committed =
    let here = active ∙ e in
    rw (preempt_or_next_committed now request d.active_task d here here committed) (active, waits)

-- Whatever is enqueued while the active task's side effect is committed, urgent or not, leaves the
-- active task and everything that waits for it as they were: the task is not preempted.
pub enqueue_task-committed :
    (config : ClientConfig) (now : ℕ) (payload : Json) (c : Client) {a : ActiveTask}
    → c.active_task ≡ some a
    → a.side_effect_committed ≡ true
    → Undisturbed c (enqueue_task config now payload c)
unfolding enqueue_task
enqueue_task-committed config now payload c e committed = parsed (parse_device_task_request payload)
  where
    parsed : (o : Outcome DeviceTaskRequest) → Undisturbed c (enqueue_parsed config now o c)
    parsed (throw message) = (refl, refl)
    parsed (ok request) =
        after_admission_committed now request (admit config now request c) c
          (admit-Admitted config now request c) e committed
