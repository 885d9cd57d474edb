-- ===== src/Scheduler/Conserved.antt =====
-- Known tasks and their results over the handlers and the runs of the event loop.
use one_autojs.Base.{
  ℕ, ◌≡◌, refl, subst, String, Bool, true, false, Option, none, some, List, [], ◌∷◌, Json,
  get_elem?, erase_at, Bool-cases, inl, inr, Outcome, ok, throw, number_le, of_ℕ,
}
use one_autojs.Protocol.{DeviceTaskRequest, TaskStatus}
use one_autojs.TaskQueue.{QueuedDeviceTask}
use one_autojs.TaskState.{TaskControlCommand, can_cancel_active_task}
use one_autojs.TaskState.Command.{parse_task_control_command}
use one_autojs.Scheduler.{
  ActiveTask, Continuation, preempting, cancelling, timing_out, forcing, cleaning, Client,
  ClientConfig, set_delete,
}
use one_autojs.Scheduler.Control.{
  if_current, release, finish_cleanup, finish_preempt, finish_cancel, fire_timeout, finish_timeout,
  force_stop_active_task, finish_force, cancel_active, cancel_queued, control_target,
  control_parsed, handle_task_control, index_of,
}
use one_autojs.Scheduler.Execution.{
  finish_active, fail_launch, see_commit, mark_launched, drain_queue,
  cancel_queued_tasks_for_deployment, finish_unstarted, activate_task,
}
use one_autojs.Scheduler.Invariant.{has_result, IsConsistent}
use one_autojs.Scheduler.Running.{active_view}
use one_autojs.Scheduler.Steps.{
  Step, enqueue, control, process, unstarted, activate, launched, committed, settled, launch_failed,
  timer, resumed, force, drain, block, remote, resume, Reach, here, next, IsTimely,
}
use one_autojs.Scheduler.Ending.{cleaning-active}
use one_autojs.Scheduler.Serial.{Reach-IsConsistent}
use one_autojs.Scheduler.NoLoss.{
  NoLoss, NoLoss-refl, NoLoss-trans, Same, NoLoss-of_Same, NoLoss-delete, reschedule-Same,
  process_next_task-Same, begin_timeout-Same, begin_force-Same, commit-Same, launch_current-Same,
}
use one_autojs.Scheduler.Kept.{
  settled-NoLoss, preempted-NoLoss, cancelled_by-NoLoss, timed_out-NoLoss, forced-NoLoss,
  settle-NoLoss, forgotten-NoLoss, enqueue_task-NoLoss,
}

module _ (config : ClientConfig) where
  cancel_queued-NoLoss :
      (now : ℕ) (command : TaskControlCommand) (i : ℕ) (o : Option QueuedDeviceTask) (c : Client)
      → NoLoss c (cancel_queued config now command i o c)
  cancel_queued-NoLoss now command i none c = NoLoss-refl c
  cancel_queued-NoLoss now command i (some q) c =
      forgotten-NoLoss config c _ _ q.request.task_id refl refl refl

  cancel_active-Same :
      (command : TaskControlCommand) (o : Option ActiveTask) (c : Client)
      → Same c (cancel_active command o c)
  cancel_active-Same command none c = (refl, refl)
  cancel_active-Same command (some a) c =
      elim (Bool-cases (
        can_cancel_active_task command.task_id (some a.request.task_id) a.launched
          a.cleanup_pending)) [ inl h ↦ rw h (refl, refl) | inr h ↦ rw h (refl, refl) ]

  handle_task_control-NoLoss :
      (now : ℕ) (payload : Json) (c : Client) → NoLoss c (handle_task_control config now payload c)
  unfolding handle_task_control
  handle_task_control-NoLoss now payload c = parsed (parse_task_control_command payload now)
    where
      target :
          (command : TaskControlCommand) (o : Option ℕ)
          → NoLoss c (control_target config now command o c)
      target command (some i) = cancel_queued-NoLoss now command i (get_elem? c.task_queue i) c
      target command none = NoLoss-of_Same c _ (cancel_active-Same command c.active_task c)

      parsed : (o : Outcome TaskControlCommand) → NoLoss c (control_parsed config now o c)
      parsed (throw message) = NoLoss-refl c
      parsed (ok command) = elim (Bool-cases (number_le command.expires_at (of_ℕ now))) [
        | inl expired ↦ rw expired (NoLoss-refl c)
        | inr live ↦ rw live (target command (index_of command.task_id c.task_queue))
      ]

  drain_queue-NoLoss :
      (now : ℕ) (deployment : String) (queue : List QueuedDeviceTask) (c : Client)
      → NoLoss c (drain_queue config now deployment queue c)
  drain_queue-NoLoss now deployment [] c = NoLoss-refl c
  drain_queue-NoLoss now deployment (q ∷ queue) c =
      NoLoss-trans c _ _ (forgotten-NoLoss config c _ _ q.request.task_id refl refl refl)
        (drain_queue-NoLoss now deployment queue _)

  drain-NoLoss :
      (now : ℕ) (deployment : String) (c : Client)
      → NoLoss c (cancel_queued_tasks_for_deployment config now deployment c)
  unfolding cancel_queued_tasks_for_deployment
  drain-NoLoss now deployment c =
      NoLoss-trans c _ _ (drain_queue-NoLoss now deployment c.task_queue c)
        (NoLoss-of_Same _ _ (refl, refl))

  finish_unstarted-NoLoss :
      (now started_at : ℕ) (request : DeviceTaskRequest) (status : TaskStatus)
      (code message : String) (details : Json) (c : Client)
      → NoLoss c (finish_unstarted config now request started_at status code message details c)
  unfolding finish_unstarted
  finish_unstarted-NoLoss now started_at request status code message details c =
      forgotten-NoLoss config c _ _ request.task_id refl refl refl

  release-Same : (o : Option ActiveTask) (c : Client) → Same c (release o c)
  release-Same none c = (refl, refl)
  release-Same (some a) c = (refl, refl)

  -- The cleanup that ends is that of a task with a result.
  finish_cleanup-NoLoss :
      (n identity : ℕ) (task_id : String) (c : Client)
      → get_elem? c.pending n ≡ some (cleaning identity task_id)
      → IsConsistent config true c
      → NoLoss c (finish_cleanup identity task_id (record c { pending = erase_at c.pending n }))
  unfolding finish_cleanup
  finish_cleanup-NoLoss n identity task_id c at v =
      let (a, e, under_way, _, t, _) =
        cleaning-active config true n identity task_id c.active_task c refl at v in
      let d = record c {
        pending = erase_at c.pending n;
        queued_task_ids = set_delete task_id c.queued_task_ids;
      } in
      let done =
        subst (λ x. has_result x c.outbox ≡ true) t
          ((active_view config true e v).settled refl under_way) in
      NoLoss-trans c d _ (NoLoss-delete c d task_id refl (λ id h. h) done)
        (NoLoss-of_Same d _ (release-Same (if_current identity c.active_task) d))

  finish_preempt-NoLoss :
      (now identity : ℕ) (incoming : DeviceTaskRequest) (stopped : Bool) (c : Client)
      → NoLoss c (finish_preempt config now identity incoming stopped c)
  unfolding finish_preempt
  finish_preempt-NoLoss now identity incoming false c = NoLoss-of_Same c _ (reschedule-Same _ c)
  finish_preempt-NoLoss now identity incoming true c = preempted-NoLoss config now incoming _ c

  finish_cancel-NoLoss :
      (now identity : ℕ) (command : TaskControlCommand) (stopped : Bool) (c : Client)
      → NoLoss c (finish_cancel config now identity command stopped c)
  unfolding finish_cancel
  finish_cancel-NoLoss now identity command false c = NoLoss-of_Same c _ (reschedule-Same _ c)
  finish_cancel-NoLoss now identity command true c = cancelled_by-NoLoss config now command _ c

  finish_timeout-NoLoss :
      (now identity : ℕ) (message : String) (details : Json) (stopped : Bool) (c : Client)
      → NoLoss c (finish_timeout config now identity message details stopped c)
  unfolding finish_timeout
  finish_timeout-NoLoss now identity message details false c =
      NoLoss-of_Same c _ (reschedule-Same _ c)
  finish_timeout-NoLoss now identity message details true c =
      timed_out-NoLoss config now message details _ c

  finish_force-NoLoss :
      (now identity : ℕ) (deployment : String) (stopped : Bool) (c : Client)
      → NoLoss c (finish_force config now identity deployment stopped c)
  unfolding finish_force
  finish_force-NoLoss now identity deployment false c = NoLoss-refl c
  finish_force-NoLoss now identity deployment true c = forced-NoLoss config now deployment _ c

  taken : (i : ℕ) (c : Client) → NoLoss c (record c { pending = erase_at c.pending i })
  taken i c = NoLoss-of_Same c _ (refl, refl)

  resume-NoLoss :
      (now : ℕ) (message : String) (details : Json) (stopped : Bool) (i : ℕ) (k : Continuation)
      (c : Client)
      → get_elem? c.pending i ≡ some k
      → IsConsistent config true c
      → NoLoss c (
          resume config now message details stopped k (record c { pending = erase_at c.pending i }))
  unfolding resume
  resume-NoLoss now message details stopped i (preempting identity incoming) c at v =
      NoLoss-trans c _ _ (taken i c) (finish_preempt-NoLoss now identity incoming stopped _)
  resume-NoLoss now message details stopped i (cancelling identity command) c at v =
      NoLoss-trans c _ _ (taken i c) (finish_cancel-NoLoss now identity command stopped _)
  resume-NoLoss now message details stopped i (timing_out identity) c at v =
      NoLoss-trans c _ _ (taken i c) (finish_timeout-NoLoss now identity message details stopped _)
  resume-NoLoss now message details stopped i (forcing identity deployment) c at v =
      NoLoss-trans c _ _ (taken i c) (finish_force-NoLoss now identity deployment stopped _)
  resume-NoLoss now message details stopped i (cleaning identity task_id) c at v =
      finish_cleanup-NoLoss i identity task_id c at v

  Step-NoLoss : {c d : Client} → Step config c d → IsConsistent config true c → NoLoss c d
  unfolding fire_timeout force_stop_active_task fail_launch mark_launched see_commit finish_active
      activate_task
  Step-NoLoss {c} (enqueue now payload e) v =
      subst (NoLoss c) e (enqueue_task-NoLoss config now payload c)
  Step-NoLoss {c} (control now payload e) v =
      subst (NoLoss c) e (handle_task_control-NoLoss now payload c)
  Step-NoLoss {c} (process now e) v =
      subst (NoLoss c) e (NoLoss-of_Same c _ (process_next_task-Same now c))
  Step-NoLoss {c} (unstarted now started_at s status code message details s_is e) v =
      subst (NoLoss c) e
        (finish_unstarted-NoLoss now started_at s.request status code message details c)
  Step-NoLoss {c} (activate s started_at deadline_at s_is e) v =
      subst (NoLoss c) e (NoLoss-of_Same c _ (refl, refl))
  Step-NoLoss {c} (launched identity e) v =
      subst (NoLoss c) e
        (NoLoss-of_Same c _ (launch_current-Same (if_current identity c.active_task) c))
  Step-NoLoss {c} (committed e) v =
      subst (NoLoss c) e (NoLoss-of_Same c _ (commit-Same c.active_task c))
  Step-NoLoss {c} (settled now status code message details e) v =
      subst (NoLoss c) e (settle-NoLoss config now status code message details c.active_task c)
  Step-NoLoss {c} (launch_failed now request started_at message e) v =
      subst (NoLoss c) e (settled-NoLoss config c _)
  Step-NoLoss {c} (force deployment e) v =
      subst (NoLoss c) e (NoLoss-of_Same c _ (begin_force-Same deployment c.active_task c))
  Step-NoLoss {c} (timer e) v =
      subst (NoLoss c) e (NoLoss-of_Same c _ (begin_timeout-Same c.active_task c))
  Step-NoLoss {c} (resumed now message details stopped i k at e) v =
      subst (NoLoss c) e (resume-NoLoss now message details stopped i k c at v)
  Step-NoLoss {c} (drain now deployment e) v = subst (NoLoss c) e (drain-NoLoss now deployment c)
  Step-NoLoss {c} (block deployment e) v = subst (NoLoss c) e (NoLoss-of_Same c _ (refl, refl))
  Step-NoLoss {c} (remote is_active e) v = subst (NoLoss c) e (NoLoss-of_Same c _ (refl, refl))

  -- From a consistent client whose task under cleanup has a result, over every run of the event loop
  -- in which each launch that fails does so while its task is active, no known task is lost: it is
  -- still queued, starting or active, or a result of it has been published; and a task with a
  -- published result has one ever after.
  pub Reach-NoLoss :
      {c d : Client} (r : Reach config c d)
      → IsTimely config r
      → IsConsistent config true c
      → NoLoss c d
  Reach-NoLoss {c} here in_time v = NoLoss-refl c
  Reach-NoLoss (next r step) (in_time, last) v =
      NoLoss-trans _ _ _ (Reach-NoLoss r in_time v)
        (Step-NoLoss step (Reach-IsConsistent config true r (λ t. in_time) v))
