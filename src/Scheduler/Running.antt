-- ===== src/Scheduler/Running.antt =====
-- The invariant and the handlers that act on the active task.
use one_autojs.Base.{
  ℕ, ◌≡◌, refl, sym, subst, ap, String, Bool, true, false, Option, none, some, List, ◌∷◌, Json,
  eq_iff, eq_refl, null, ◌==◌, arith, Bool-cases, inl, inr,
}
use one_autojs.Protocol.{DeviceTaskRequest, DeviceTaskResult, TaskStatus, failure}
use one_autojs.TaskState.{TaskControlCommand}
use one_autojs.Scheduler.{ActiveTask, Continuation, timing_out, forcing, Client, ClientConfig}
use one_autojs.Scheduler.Handlers.{disarm, publish_task_result}
use one_autojs.Scheduler.Control.{
  begin_cleanup, cleanup_active_task, if_current, reschedule, preempted, finish_preempt,
  cancelled_by, finish_cancel, begin_timeout, fire_timeout, timed_out, finish_timeout, begin_force,
  force_stop_active_task, forced, finish_force,
}
use one_autojs.Scheduler.Execution.{settle, finish_active, fail_launch}
use one_autojs.Scheduler.Invariant.{cleanings, has_result, IsSettled, IsConsistent}

-- A task under cleanup keeps its result, and a task has one.
abbrev pub IsOwed : Option ActiveTask → List DeviceTaskResult → Type 0
IsOwed none results = Unit
IsOwed (some a) results = has_result a.request.task_id results ≡ true

pub IsSettled-cons :
    (o : Option ActiveTask) (r : DeviceTaskResult) (results : List DeviceTaskResult)
    → IsSettled o results
    → IsSettled o (r ∷ results)
IsSettled-cons none r results h = tt
IsSettled-cons (some a) r results h = λ p. let found = h p in ground arith

-- If a task is given, it is the active one.
abbrev pub IsCurrent : Option ActiveTask → Option ActiveTask → Type 0
IsCurrent none active = Unit
IsCurrent (some a) active = active ≡ some a

pub if_current-IsCurrent :
    (identity : ℕ) (o : Option ActiveTask) → IsCurrent (if_current identity o) o
if_current-IsCurrent identity none = tt
if_current-IsCurrent identity (some a) = elim (Bool-cases (a.identity == identity)) [
  | inl same ↦ rw same refl
  | inr other ↦ rw other tt
]

pub IsCurrent-refl : (o : Option ActiveTask) → IsCurrent o o
IsCurrent-refl none = tt
IsCurrent-refl (some a) = refl

module _ (config : ClientConfig) (timely : Bool) where
  abbrev Consistent : Client → Type 0
  Consistent = IsConsistent config timely

  -- The client, its active task written out.
  pub active_view :
      {c : Client} {a : Option ActiveTask}
      → c.active_task ≡ a
      → Consistent c
      → Consistent (record c { active_task = a })
  active_view {c} e v = subst (λ o. Consistent (record c { active_task = o })) e v

  -- Flags of the active task change, and continuations other than a cleanup come.
  pub flags_change :
      (c : Client) (a a' : ActiveTask) (ks : List Continuation) (n : ℕ)
      → Consistent (record c { active_task = some a })
      → a'.identity ≡ a.identity
      → a'.request ≡ a.request
      → a'.cleanup_pending ≡ a.cleanup_pending
      → cleanings ks ≡ cleanings c.pending
      → Consistent (record c { active_task = some a'; pending = ks; task_state_revision = n })
  flags_change c a a' ks n v i r p k = record {
    ordered = v.ordered;
    once = λ id. rw r (v.once id);
    serial = v.serial;
    flagged = v.flagged;
    cleans = rw (k, i, r, p) v.cleans;
    settled = λ t. rw (r, p) (v.settled t);
  }

  -- A cleanup begins, in time for a task that has its result.
  begin_cleanup-IsConsistent :
      (o : Option ActiveTask) (c : Client)
      → c.active_task ≡ o
      → Consistent c
      → (timely ≡ true → IsOwed o c.outbox)
      → Consistent (begin_cleanup o c)
  begin_cleanup-IsConsistent none c e v h = v
  begin_cleanup-IsConsistent (some a) c e v h = elim (Bool-cases a.cleanup_pending) [
    | inl under_way ↦ rw under_way v
    | inr fresh ↦
        let w = active_view e v in
        rw fresh (record {
          ordered = w.ordered;
          once = w.once;
          serial = w.serial;
          flagged = w.flagged;
          cleans =
              ap (λ (xs : List (ℕ × String)). (a.identity, a.request.task_id) ∷ xs)
                (rw fresh at w.cleans);
          settled = λ t _. h t;
        })
  ]

  pub result-IsConsistent :
      (c : Client) (r : DeviceTaskResult)
      → Consistent c
      → Consistent (record c { outbox = r ∷ c.outbox })
  result-IsConsistent c r v = record {
    ordered = v.ordered;
    once = v.once;
    serial = v.serial;
    flagged = v.flagged;
    cleans = v.cleans;
    settled = λ t. IsSettled-cons c.active_task r c.outbox (v.settled t);
  }

  -- A result of the active task and the start of its cleanup.
  settled-IsConsistent :
      (c : Client) (a : ActiveTask) (r : DeviceTaskResult)
      → c.active_task ≡ some a
      → r.task_id ≡ a.request.task_id
      → Consistent c
      → Consistent (cleanup_active_task (record c { outbox = r ∷ c.outbox }))
  unfolding cleanup_active_task
  settled-IsConsistent c a r e t v =
      begin_cleanup-IsConsistent c.active_task (record c { outbox = r ∷ c.outbox }) refl
        (result-IsConsistent c r v) (λ timed. owed)
    where
      owed : IsOwed c.active_task (r ∷ c.outbox)
      owed =
          subst (λ o. IsOwed o (r ∷ c.outbox)) (sym e)
            (ground (arith, eq_iff r.task_id a.request.task_id))

  reschedule-IsConsistent :
      (o : Option ActiveTask) (c : Client)
      → IsCurrent o c.active_task
      → Consistent c
      → Consistent (reschedule o c)
  reschedule-IsConsistent none c cur v = v
  reschedule-IsConsistent (some a) c cur v =
      flags_change c a (record a { timeout_armed = true }) c.pending c.task_state_revision
        (active_view cur v) refl refl refl refl

  preempted-IsConsistent :
      (now : ℕ) (incoming : DeviceTaskRequest) (o : Option ActiveTask) (c : Client)
      → IsCurrent o c.active_task
      → Consistent c
      → Consistent (preempted config now incoming o c)
  preempted-IsConsistent now incoming none c cur v = v
  preempted-IsConsistent now incoming (some a) c cur v = settled-IsConsistent c a _ cur refl v

  cancelled_by-IsConsistent :
      (now : ℕ) (command : TaskControlCommand) (o : Option ActiveTask) (c : Client)
      → IsCurrent o c.active_task
      → Consistent c
      → Consistent (cancelled_by config now command o c)
  cancelled_by-IsConsistent now command none c cur v = v
  cancelled_by-IsConsistent now command (some a) c cur v = settled-IsConsistent c a _ cur refl v

  timed_out-IsConsistent :
      (now : ℕ) (message : String) (details : Json) (o : Option ActiveTask) (c : Client)
      → IsCurrent o c.active_task
      → Consistent c
      → Consistent (timed_out config now message details o c)
  timed_out-IsConsistent now message details none c cur v = v
  timed_out-IsConsistent now message details (some a) c cur v =
      settled-IsConsistent c a _ cur refl v

  forced-IsConsistent :
      (now : ℕ) (deployment : String) (o : Option ActiveTask) (c : Client)
      → IsCurrent o c.active_task
      → Consistent c
      → Consistent (forced config now deployment o c)
  forced-IsConsistent now deployment none c cur v = v
  forced-IsConsistent now deployment (some a) c cur v = settled-IsConsistent c a _ cur refl v

  pub finish_force-IsConsistent :
      (now identity : ℕ) (deployment : String) (stopped : Bool) (c : Client)
      → Consistent c
      → Consistent (finish_force config now identity deployment stopped c)
  unfolding finish_force
  finish_force-IsConsistent now identity deployment false c v = v
  finish_force-IsConsistent now identity deployment true c v =
      forced-IsConsistent now deployment _ c (if_current-IsCurrent identity c.active_task) v

  begin_force-IsConsistent :
      (deployment : String) (o : Option ActiveTask) (c : Client)
      → IsCurrent o c.active_task
      → Consistent c
      → Consistent (begin_force deployment o c)
  begin_force-IsConsistent deployment none c cur v = v
  begin_force-IsConsistent deployment (some a) c cur v =
      flags_change c a (disarm a) (forcing a.identity deployment ∷ c.pending) c.task_state_revision
        (active_view cur v) refl refl refl refl

  pub force_stop_active_task-IsConsistent :
      (deployment : String) (c : Client)
      → Consistent c
      → Consistent (force_stop_active_task deployment c)
  unfolding force_stop_active_task
  force_stop_active_task-IsConsistent deployment c v =
      begin_force-IsConsistent deployment c.active_task c (IsCurrent-refl c.active_task) v

  pub finish_preempt-IsConsistent :
      (now identity : ℕ) (incoming : DeviceTaskRequest) (stopped : Bool) (c : Client)
      → Consistent c
      → Consistent (finish_preempt config now identity incoming stopped c)
  unfolding finish_preempt
  finish_preempt-IsConsistent now identity incoming false c v =
      reschedule-IsConsistent _ c (if_current-IsCurrent identity c.active_task) v
  finish_preempt-IsConsistent now identity incoming true c v =
      preempted-IsConsistent now incoming _ c (if_current-IsCurrent identity c.active_task) v

  pub finish_cancel-IsConsistent :
      (now identity : ℕ) (command : TaskControlCommand) (stopped : Bool) (c : Client)
      → Consistent c
      → Consistent (finish_cancel config now identity command stopped c)
  unfolding finish_cancel
  finish_cancel-IsConsistent now identity command false c v =
      reschedule-IsConsistent _ c (if_current-IsCurrent identity c.active_task) v
  finish_cancel-IsConsistent now identity command true c v =
      cancelled_by-IsConsistent now command _ c (if_current-IsCurrent identity c.active_task) v

  pub finish_timeout-IsConsistent :
      (now identity : ℕ) (message : String) (details : Json) (stopped : Bool) (c : Client)
      → Consistent c
      → Consistent (finish_timeout config now identity message details stopped c)
  unfolding finish_timeout
  finish_timeout-IsConsistent now identity message details false c v =
      reschedule-IsConsistent _ c (if_current-IsCurrent identity c.active_task) v
  finish_timeout-IsConsistent now identity message details true c v =
      timed_out-IsConsistent now message details _ c (if_current-IsCurrent identity c.active_task) v

  settle-IsConsistent :
      (now : ℕ) (status : TaskStatus) (code message : String) (details : Json)
      (o : Option ActiveTask) (c : Client)
      → IsCurrent o c.active_task
      → Consistent c
      → Consistent (settle config now status code message details o c)
  settle-IsConsistent now status code message details none c cur v = v
  settle-IsConsistent now status code message details (some a) c cur v =
      elim (Bool-cases a.cleanup_pending) [
        | inl under_way ↦ rw under_way v
        | inr fresh ↦ rw fresh (settled-IsConsistent c a _ cur refl v)
      ]

  pub fail_launch-IsConsistent :
      (now : ℕ) (request : DeviceTaskRequest) (started_at : ℕ) (message : String) (c : Client)
      → (timely ≡ true → (a : ActiveTask) × (c.active_task ≡ some a) × (a.request ≡ request))
      → Consistent c
      → Consistent (fail_launch config now request started_at message c)
  unfolding fail_launch cleanup_active_task
  fail_launch-IsConsistent now request started_at message c current v =
      begin_cleanup-IsConsistent c.active_task _ refl (result-IsConsistent c _ v)
        (λ t. let (a, e, same) = current t in owed a e same)
    where
      owed :
          (a : ActiveTask)
          → c.active_task ≡ some a
          → a.request ≡ request
          → IsOwed c.active_task
              (publish_task_result config now request started_at failure "AUTOJS_LAUNCH_FAILED"
                message null c).outbox
      owed a e same =
          subst
            (λ o.
              IsOwed o
                (publish_task_result config now request started_at failure "AUTOJS_LAUNCH_FAILED"
                  message null c).outbox)
            (sym e) (rw (same, eq_refl request.task_id) refl)

  pub finish_active-IsConsistent :
      (now : ℕ) (status : TaskStatus) (code message : String) (details : Json) (c : Client)
      → Consistent c
      → Consistent (finish_active config now status code message details c)
  unfolding finish_active
  finish_active-IsConsistent now status code message details c v =
      settle-IsConsistent now status code message details c.active_task c
        (IsCurrent-refl c.active_task) v

  begin_timeout-IsConsistent :
      (o : Option ActiveTask) (c : Client)
      → IsCurrent o c.active_task
      → Consistent c
      → Consistent (begin_timeout o c)
  begin_timeout-IsConsistent none c cur v = v
  begin_timeout-IsConsistent (some a) c cur v = elim (Bool-cases a.timeout_armed) [
    | inl armed ↦ rw armed (
        flags_change c a (disarm a) (timing_out a.identity ∷ c.pending) c.task_state_revision
          (active_view cur v) refl refl refl refl)
    | inr disarmed ↦ rw disarmed v
  ]

  pub fire_timeout-IsConsistent : (c : Client) → Consistent c → Consistent (fire_timeout c)
  unfolding fire_timeout
  fire_timeout-IsConsistent c v =
      begin_timeout-IsConsistent c.active_task c (IsCurrent-refl c.active_task) v
