-- ===== src/Scheduler/Draining.antt =====
-- The invariant, the cancelling of queued tasks and the deployment drain.
use one_autojs.Base.{
  ℕ, ◌≡◌, refl, subst, ap, String, Bool, Option, none, some, List, [], ◌∷◌, Json, get_elem?,
  erase_at, Bool-cases, inl, inr, Outcome, ok, throw, number_le, of_ℕ,
}
use one_autojs.TaskQueue.{QueuedDeviceTask}
use one_autojs.TaskState.{TaskControlCommand, can_cancel_active_task}
use one_autojs.TaskState.Command.{parse_task_control_command}
use one_autojs.Scheduler.{ActiveTask, cancelling, Client, ClientConfig, set_delete}
use one_autojs.Scheduler.Handlers.{publish_task_state, disarm}
use one_autojs.Scheduler.Control.{
  cancel_queued, cancel_active, control_target, control_parsed, handle_task_control, index_of,
}
use one_autojs.Scheduler.Execution.{drain_queue, cancel_queued_tasks_for_deployment}
use one_autojs.Scheduler.Invariant.{IsConsistent}
use one_autojs.Scheduler.Running.{
  result-IsConsistent, flags_change, active_view, IsCurrent, IsCurrent-refl,
}
use one_autojs.Scheduler.Waiting.{erase_queued-IsConsistent}

module _ (config : ClientConfig) (timely : Bool) where
  abbrev Consistent : Client → Type 0
  Consistent = IsConsistent config timely

  cancel_queued-IsConsistent :
      (now : ℕ) (command : TaskControlCommand) (i : ℕ) (o : Option QueuedDeviceTask) (c : Client)
      → get_elem? c.task_queue i ≡ o
      → Consistent c
      → Consistent (cancel_queued config now command i o c)
  cancel_queued-IsConsistent now command i none c e v = v
  cancel_queued-IsConsistent now command i (some q) c e v =
      flag_free
        (result-IsConsistent config timely _ _ (erase_queued-IsConsistent config timely c i q e v))
    where
      flag_free : {d : Client} → Consistent d → Consistent (publish_task_state d)
      flag_free w = record {
        ordered = w.ordered;
        once = w.once;
        serial = w.serial;
        flagged = w.flagged;
        cleans = w.cleans;
        settled = w.settled;
      }

  state-IsConsistent : (c : Client) → Consistent c → Consistent (publish_task_state c)
  state-IsConsistent c w = record {
    ordered = w.ordered;
    once = w.once;
    serial = w.serial;
    flagged = w.flagged;
    cleans = w.cleans;
    settled = w.settled;
  }

  cancel_active-IsConsistent :
      (command : TaskControlCommand) (o : Option ActiveTask) (c : Client)
      → IsCurrent o c.active_task
      → Consistent c
      → Consistent (cancel_active command o c)
  cancel_active-IsConsistent command none c cur v = state-IsConsistent c v
  cancel_active-IsConsistent command (some a) c cur v =
      elim (Bool-cases (
        can_cancel_active_task command.task_id (some a.request.task_id) a.launched
          a.cleanup_pending)) [
            | inl may ↦ rw may (
                flags_change config timely c a (disarm a)
                  (cancelling a.identity command ∷ c.pending) c.task_state_revision
                  (active_view config timely cur v) refl refl refl refl)
            | inr not_now ↦ rw not_now (state-IsConsistent c v)
          ]

  pub handle_task_control-IsConsistent :
      (now : ℕ) (payload : Json) (c : Client)
      → Consistent c
      → Consistent (handle_task_control config now payload c)
  unfolding handle_task_control
  handle_task_control-IsConsistent now payload c v = parsed (parse_task_control_command payload now)
    where
      target :
          (command : TaskControlCommand) (o : Option ℕ)
          → Consistent (control_target config now command o c)
      target command (some i) =
          cancel_queued-IsConsistent now command i (get_elem? c.task_queue i) c refl v
      target command none =
          cancel_active-IsConsistent command c.active_task c (IsCurrent-refl c.active_task) v

      parsed : (o : Outcome TaskControlCommand) → Consistent (control_parsed config now o c)
      parsed (throw message) = v
      parsed (ok command) = elim (Bool-cases (number_le command.expires_at (of_ℕ now))) [
        | inl expired ↦ rw expired v
        | inr live ↦ rw live (target command (index_of command.task_id c.task_queue))
      ]

  drain_queue-IsConsistent :
      (now : ℕ) (deployment : String) (queue : List QueuedDeviceTask) (c : Client)
      → c.task_queue ≡ queue
      → Consistent c
      → Consistent (drain_queue config now deployment queue c)
  drain_queue-IsConsistent now deployment [] c e v = v
  drain_queue-IsConsistent now deployment (q ∷ queue) c e v =
      let erased =
        erase_queued-IsConsistent config timely c 0 q
          (ap (λ (xs : List QueuedDeviceTask). get_elem? xs 0) e) v in
      drain_queue-IsConsistent now deployment queue _ refl (
        result-IsConsistent config timely _ _ (
          subst
            (λ (xs : List QueuedDeviceTask). Consistent (record c {
              task_queue = xs;
              queued_task_ids = set_delete q.request.task_id c.queued_task_ids;
            }))
            (ap (λ (xs : List QueuedDeviceTask). erase_at xs 0) e) erased))

  pub drain-IsConsistent :
      (now : ℕ) (deployment : String) (c : Client)
      → Consistent c
      → Consistent (cancel_queued_tasks_for_deployment config now deployment c)
  unfolding cancel_queued_tasks_for_deployment
  drain-IsConsistent now deployment c v =
      state-IsConsistent _ (drain_queue-IsConsistent now deployment c.task_queue c refl v)
