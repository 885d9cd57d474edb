-- ===== src/Scheduler/Steps.antt =====
-- One turn of the event loop, and runs of the client.
use one_autojs.Base.{ℕ, ◌≡◌, String, Bool, Option, some, Json, get_elem?, erase_at}
use one_autojs.Protocol.{DeviceTaskRequest, TaskStatus}
use one_autojs.TaskState.Snapshot.{StartingTask}
use one_autojs.Scheduler.{
  ActiveTask, Continuation, preempting, cancelling, timing_out, forcing, cleaning, Client,
  ClientConfig,
}
use one_autojs.Scheduler.Handlers.{enqueue_task, process_next_task}
use one_autojs.Scheduler.Control.{
  handle_task_control, fire_timeout, finish_preempt, finish_cancel, finish_timeout, finish_cleanup,
  force_stop_active_task, finish_force,
}
use one_autojs.Scheduler.Execution.{
  cancel_queued_tasks_for_deployment, finish_unstarted, activate_task, mark_launched, finish_active,
  fail_launch, see_commit,
}

-- A waiting continuation goes on. `stopped` is what `terminateActiveTask` returned; a cleanup goes
-- on only if it restored the device, else the process restarts.
unfoldable pub resume : ClientConfig → ℕ → String → Json → Bool → Continuation → Client → Client
resume config now message details stopped (preempting identity incoming) c =
    finish_preempt config now identity incoming stopped c
resume config now message details stopped (cancelling identity command) c =
    finish_cancel config now identity command stopped c
resume config now message details stopped (timing_out identity) c =
    finish_timeout config now identity message details stopped c
resume config now message details stopped (forcing identity deployment) c =
    finish_force config now identity deployment stopped c
resume config now message details stopped (cleaning identity task_id) c =
    finish_cleanup identity task_id c

module _ (config : ClientConfig) where
  -- One handler run. A task that is starting has its `executeTask` under way, which ends in one of
  -- two ways.
  pub data Step (c c' : Client) : Type 0 where
    enqueue : (now : ℕ) (payload : Json) → enqueue_task config now payload c ≡ c' → Step c c'
    control : (now : ℕ) (payload : Json) → handle_task_control config now payload c ≡ c' → Step c c'
    process : (now : ℕ) → process_next_task now c ≡ c' → Step c c'
    unstarted :
        (now started_at : ℕ) (s : StartingTask) (status : TaskStatus) (code message : String)
        (details : Json)
        → c.starting_task ≡ some s
        → finish_unstarted config now s.request started_at status code message details c ≡ c'
        → Step c c'
    activate :
        (s : StartingTask) (started_at deadline_at : ℕ)
        → c.starting_task ≡ some s
        → activate_task s.request s.enqueued_at started_at deadline_at c ≡ c'
        → Step c c'
    launched : (identity : ℕ) → mark_launched identity c ≡ c' → Step c c'
    committed : see_commit c ≡ c' → Step c c'
    settled :
        (now : ℕ) (status : TaskStatus) (code message : String) (details : Json)
        → finish_active config now status code message details c ≡ c'
        → Step c c'
    -- A launch may fail late, when its task is no longer the active one.
    launch_failed :
        (now : ℕ) (request : DeviceTaskRequest) (started_at : ℕ) (message : String)
        → fail_launch config now request started_at message c ≡ c'
        → Step c c'
    timer : fire_timeout c ≡ c' → Step c c'
    resumed :
        (now : ℕ) (message : String) (details : Json) (stopped : Bool) (i : ℕ) (k : Continuation)
        → get_elem? c.pending i ≡ some k
        → resume config now message details stopped k (record c { pending = erase_at c.pending i })
          ≡ c'
        → Step c c'
    force : (deployment : String) → force_stop_active_task deployment c ≡ c' → Step c c'
    drain :
        (now : ℕ) (deployment : String)
        → cancel_queued_tasks_for_deployment config now deployment c ≡ c'
        → Step c c'
    block :
        (deployment : Option String)
        → record c { deployment_block_id = deployment } ≡ c'
        → Step c c'
    remote : (is_active : Bool) → record c { remote_active = is_active } ≡ c' → Step c c'

  pub data Reach (c : Client) : Client → Type 0 where
    here : Reach c c
    next : {d e : Client} → Reach c d → Step d e → Reach c e

  -- The failure of a launch finds its task active.
  abbrev pub IsTimelyStep : {c d : Client} → Step c d → Type 0
  IsTimelyStep {c} (launch_failed now request started_at message e) =
      (a : ActiveTask) × (c.active_task ≡ some a) × (a.request ≡ request)
  IsTimelyStep _ = Unit

  -- A run in which every launch that fails does so while its task is active.
  abbrev pub IsTimely : {c d : Client} → Reach c d → Type 0
  IsTimely here = Unit
  IsTimely (next r step) = IsTimely r × IsTimelyStep step
