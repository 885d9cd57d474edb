-- ===== src/Scheduler/Serial.antt =====
-- The invariant over runs of the event loop.
use one_autojs.Base.{
  ℕ, ◌≡◌, refl, ◌∙◌, subst, String, Bool, true, Option, some, List, Json, get_elem?, erase_at,
}
use one_autojs.Scheduler.{
  Continuation, preempting, cancelling, timing_out, forcing, cleaning, Client, ClientConfig,
}
use one_autojs.Scheduler.Steps.{
  Step, enqueue, control, process, unstarted, activate, launched, committed, settled, launch_failed,
  timer, resumed, force, drain, block, remote, resume, Reach, here, next, IsTimelyStep, IsTimely,
}
use one_autojs.Scheduler.Invariant.{cleanings, cleanings-erase_other, IsConsistent}
use one_autojs.Scheduler.Running.{
  finish_preempt-IsConsistent, finish_cancel-IsConsistent, finish_timeout-IsConsistent,
  finish_active-IsConsistent, fail_launch-IsConsistent, fire_timeout-IsConsistent,
  finish_force-IsConsistent, force_stop_active_task-IsConsistent,
}
use one_autojs.Scheduler.Waiting.{process_next_task-IsConsistent, enqueue_task-IsConsistent}
use one_autojs.Scheduler.Draining.{handle_task_control-IsConsistent, drain-IsConsistent}
use one_autojs.Scheduler.Ending.{
  finish_unstarted-IsConsistent, activate_task-IsConsistent, mark_launched-IsConsistent,
  see_commit-IsConsistent, finish_cleanup-IsConsistent,
}

module _ (config : ClientConfig) (timely : Bool) where
  abbrev Consistent : Client → Type 0
  Consistent = IsConsistent config timely

  -- A continuation other than a cleanup is taken from those that wait.
  taken :
      {c : Client} {ks : List Continuation}
      → Consistent c
      → cleanings ks ≡ cleanings c.pending
      → Consistent (record c { pending = ks })
  taken v e = record {
    ordered = v.ordered;
    once = v.once;
    serial = v.serial;
    flagged = v.flagged;
    cleans = e ∙ v.cleans;
    settled = v.settled;
  }

  unrelated :
      {c : Client} {b : Option String} {r : Bool}
      → Consistent c
      → Consistent (record c { deployment_block_id = b; remote_active = r })
  unrelated v = record {
    ordered = v.ordered;
    once = v.once;
    serial = v.serial;
    flagged = v.flagged;
    cleans = v.cleans;
    settled = v.settled;
  }

  resume-IsConsistent :
      (now : ℕ) (message : String) (details : Json) (stopped : Bool) (i : ℕ) (k : Continuation)
      (c : Client)
      → get_elem? c.pending i ≡ some k
      → Consistent c
      → Consistent (
          resume config now message details stopped k (record c { pending = erase_at c.pending i }))
  unfolding resume
  resume-IsConsistent now message details stopped i (preempting identity incoming) c at v =
      finish_preempt-IsConsistent config timely now identity incoming stopped _
        (taken v (cleanings-erase_other c.pending i at refl))
  resume-IsConsistent now message details stopped i (cancelling identity command) c at v =
      finish_cancel-IsConsistent config timely now identity command stopped _
        (taken v (cleanings-erase_other c.pending i at refl))
  resume-IsConsistent now message details stopped i (timing_out identity) c at v =
      finish_timeout-IsConsistent config timely now identity message details stopped _
        (taken v (cleanings-erase_other c.pending i at refl))
  resume-IsConsistent now message details stopped i (forcing identity deployment) c at v =
      finish_force-IsConsistent config timely now identity deployment stopped _
        (taken v (cleanings-erase_other c.pending i at refl))
  resume-IsConsistent now message details stopped i (cleaning identity task_id) c at v =
      finish_cleanup-IsConsistent config timely i identity task_id c at v

  pub Step-IsConsistent :
      {c d : Client} (step : Step config c d)
      → (timely ≡ true → IsTimelyStep config step)
      → Consistent c
      → Consistent d
  Step-IsConsistent {c} (enqueue now payload e) _ v =
      subst Consistent e (enqueue_task-IsConsistent config timely now payload c v)
  Step-IsConsistent {c} (control now payload e) _ v =
      subst Consistent e (handle_task_control-IsConsistent config timely now payload c v)
  Step-IsConsistent {c} (process now e) _ v =
      subst Consistent e (process_next_task-IsConsistent config timely now c v)
  Step-IsConsistent {c} (unstarted now started_at s status code message details s_is e) _ v =
      subst Consistent e (
        finish_unstarted-IsConsistent config timely now started_at s status code message details c
          s_is v)
  Step-IsConsistent {c} (activate s started_at deadline_at s_is e) _ v =
      subst Consistent e
        (activate_task-IsConsistent config timely s started_at deadline_at c s_is v)
  Step-IsConsistent {c} (launched identity e) _ v =
      subst Consistent e (mark_launched-IsConsistent config timely identity c v)
  Step-IsConsistent {c} (committed e) _ v =
      subst Consistent e (see_commit-IsConsistent config timely c v)
  Step-IsConsistent {c} (settled now status code message details e) _ v =
      subst Consistent e
        (finish_active-IsConsistent config timely now status code message details c v)
  Step-IsConsistent {c} (launch_failed now request started_at message e) current v =
      subst Consistent e
        (fail_launch-IsConsistent config timely now request started_at message c current v)
  Step-IsConsistent {c} (force deployment e) _ v =
      subst Consistent e (force_stop_active_task-IsConsistent config timely deployment c v)
  Step-IsConsistent {c} (timer e) _ v =
      subst Consistent e (fire_timeout-IsConsistent config timely c v)
  Step-IsConsistent {c} (resumed now message details stopped i k at e) _ v =
      subst Consistent e (resume-IsConsistent now message details stopped i k c at v)
  Step-IsConsistent {c} (drain now deployment e) _ v =
      subst Consistent e (drain-IsConsistent config timely now deployment c v)
  Step-IsConsistent {c} (block deployment e) _ v = subst Consistent e (unrelated v)
  Step-IsConsistent {c} (remote is_active e) _ v = subst Consistent e (unrelated v)

  -- Whatever tasks, commands, deployments, timers and completions the event loop handles and in
  -- whatever order, a client that starts consistent stays so: its queue is in scheduling order and
  -- within its limit, every known task id is that of exactly one task, queued, starting or active,
  -- no task starts while another is active, and at most one cleanup is under way, that of the active
  -- task. If every launch that fails does so while its task is active, then a task that is being
  -- cleaned up has its result already.
  pub Reach-IsConsistent :
      {c d : Client} (r : Reach config c d)
      → (timely ≡ true → IsTimely config r)
      → Consistent c
      → Consistent d
  Reach-IsConsistent here in_time v = v
  Reach-IsConsistent (next r step) in_time v =
      Step-IsConsistent step (λ t. (in_time t).1) (Reach-IsConsistent r (λ t. (in_time t).0) v)
