-- ===== src/Scheduler/Start.antt =====
-- A dequeued task meets the checks of `executeTask`.
use one_autojs.Base.{ℕ, ◌≡◌, refl, String, true, false, none, some, Json, null, eq_refl}
use one_autojs.Protocol.{DeviceTaskRequest, TaskStatus, timeout, rejected}
use one_autojs.TaskState.Snapshot.{StartingTask}
use one_autojs.TaskRegistry.Execute.{Refusal, reject, expire}
use one_autojs.Scheduler.{Client, ClientConfig, set_has}
use one_autojs.Scheduler.Execution.{finish_unstarted, reject_queued_task}
use one_autojs.Scheduler.Invariant.{has_result, set_has-set_delete}
use one_autojs.Scheduler.Steps.{Step, unstarted}

-- How `executeTask` ends a task that it refuses.
unfoldable pub end_refused : ClientConfig → ℕ → DeviceTaskRequest → Refusal → Client → Client
unfolding reject_queued_task
end_refused config now request (reject code message) c =
    reject_queued_task config now request code message c
end_refused config now request expire c =
    finish_unstarted config now request now timeout "TASK_EXPIRED" "Task expired before execution"
      null c

-- The task is over: it has a result, its id may be used again, and the next task may start.
pub record IsOver (task_id : String) (c : Client) : Type 0 where
  pub reported : has_result task_id c.outbox ≡ true
  pub forgotten : set_has task_id c.queued_task_ids ≡ false
  pub idle : c.is_starting_task ≡ false
  pub left : c.starting_task ≡ none

finish_unstarted-IsOver :
    (config : ClientConfig) (now started_at : ℕ) (s : StartingTask) (status : TaskStatus)
    (code message : String) (details : Json) (c : Client)
    → c.starting_task ≡ some s
    → IsOver s.request.task_id
        (finish_unstarted config now s.request started_at status code message details c)
unfolding finish_unstarted
finish_unstarted-IsOver config now started_at s status code message details c e = record {
  reported = rw (eq_refl s.request.task_id) refl;
  forgotten = rw (set_has-set_delete, eq_refl) refl;
  idle = refl;
  left = rw (e, eq_refl) refl;
}

-- A refused task is over as soon as `executeTask` refuses it, and this is one turn of the event loop.
pub end_refused-IsOver :
    (config : ClientConfig) (now : ℕ) (s : StartingTask) (r : Refusal) (c : Client)
    → c.starting_task ≡ some s
    → IsOver s.request.task_id (end_refused config now s.request r c)
      × Step config c (end_refused config now s.request r c)
unfolding end_refused
end_refused-IsOver config now s (reject code message) c e = (
  finish_unstarted-IsOver config now now s rejected code message null c e,
  unstarted now now s rejected code message null e refl,
)
end_refused-IsOver config now s expire c e = (
  finish_unstarted-IsOver config now now s timeout "TASK_EXPIRED" "Task expired before execution"
      null c e,
  unstarted now now s timeout "TASK_EXPIRED" "Task expired before execution" null e refl,
)
