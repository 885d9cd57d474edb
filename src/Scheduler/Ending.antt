-- ===== src/Scheduler/Ending.antt =====
-- The invariant and the starts and ends of tasks.
use one_autojs.Base.{
  ℕ, ◌+◌, ◌≡◌, refl, sym, subst, ◌∙◌, String, Bool, true, false, Option, none, some, List, [], ◌∷◌,
  Json, get_elem?, erase_at, eq_iff, ◌==◌, arith, Bool-cases, inl, inr,
}
use one_autojs.Protocol.{DeviceTaskRequest, TaskStatus}
use one_autojs.TaskState.Snapshot.{StartingTask}
use one_autojs.Scheduler.{
  ActiveTask, Continuation, preempting, cleaning, Client, ClientConfig, set_delete, is_some,
}
use one_autojs.Scheduler.Handlers.{disarm, may_preempt, without_starting}
use one_autojs.Scheduler.Control.{release, if_current, finish_cleanup}
use one_autojs.Scheduler.Execution.{
  finish_unstarted, activate_task, preempt_with, first_preemptor, launch_current, mark_launched,
  commit, see_commit,
}
use one_autojs.Scheduler.Invariant.{cleanings, IsConsistent, set_has-set_delete, cleanings-erase_at}
use one_autojs.Scheduler.Running.{
  result-IsConsistent, flags_change, active_view, IsCurrent, IsCurrent-refl, if_current-IsCurrent,
}

without_starting_self :
    (o : Option StartingTask) (s : StartingTask)
    → o ≡ some s
    → without_starting s.request.task_id o ≡ none
without_starting_self none s e = cc
without_starting_self (some t) s e = ground (arith, eq_iff t.request.task_id s.request.task_id)

nil≢cons : {x : ℕ × String} {xs : List (ℕ × String)} → [] ≡ x ∷ xs → ⊥
nil≢cons h = cc

head_parts :
    {i j : ℕ} {s t : String} {xs : List (ℕ × String)}
    → ◌≡◌ {A = List (ℕ × String)} ((i, s) ∷ []) ((j, t) ∷ xs)
    → (i ≡ j) × (s ≡ t)
head_parts h = (cc, cc)

module _ (config : ClientConfig) (timely : Bool) where
  abbrev Consistent : Client → Type 0
  Consistent = IsConsistent config timely

  -- The client, its starting task written out.
  starting_view :
      {c : Client} {s : StartingTask}
      → c.starting_task ≡ some s
      → Consistent c
      → Consistent (record c { starting_task = some s })
  starting_view {c} e v = subst (λ o. Consistent (record c { starting_task = o })) e v

  pub finish_unstarted-IsConsistent :
      (now started_at : ℕ) (s : StartingTask) (status : TaskStatus) (code message : String)
      (details : Json) (c : Client)
      → c.starting_task ≡ some s
      → Consistent c
      → Consistent (finish_unstarted config now s.request started_at status code message details c)
  unfolding finish_unstarted
  finish_unstarted-IsConsistent now started_at s status code message details c e v =
      let w = starting_view e (result-IsConsistent config timely c _ v) in
      let cleared = without_starting_self c.starting_task s e in
      record {
        ordered = v.ordered;
        once = λ id.
            rw cleared (
              ground (arith, w.once id, set_has-set_delete id s.request.task_id c.queued_task_ids));
        serial = rw cleared refl;
        flagged = rw cleared refl;
        cleans = v.cleans;
        settled = w.settled;
      }

  pub activate_task-IsConsistent :
      (s : StartingTask) (started_at deadline_at : ℕ) (c : Client)
      → c.starting_task ≡ some s
      → Consistent c
      → Consistent (activate_task s.request s.enqueued_at started_at deadline_at c)
  unfolding activate_task
  activate_task-IsConsistent s started_at deadline_at c e v =
      let w1 = starting_view e v in
      let idle = none_active c.active_task w1.serial in
      let w = active_view config timely idle w1 in
      let cleared = without_starting_self c.starting_task s e in
      record {
        ordered = v.ordered;
        once = λ id. rw cleared (omega (arith, w.once id));
        serial = rw cleared refl;
        flagged = rw cleared refl;
        cleans = w.cleans;
        settled = λ t h. cc;
      }
    where
      none_active : (o : Option ActiveTask) → is_some o ≡ false → o ≡ none
      none_active none h = refl
      none_active (some a) h = cc

  preempt_with-IsConsistent :
      (p : Option DeviceTaskRequest) (o : Option ActiveTask) (c : Client)
      → IsCurrent o c.active_task
      → Consistent c
      → Consistent (preempt_with p o c)
  preempt_with-IsConsistent none o c cur v = v
  preempt_with-IsConsistent (some incoming) none c cur v = v
  preempt_with-IsConsistent (some incoming) (some a) c cur v =
      elim (Bool-cases (may_preempt incoming a)) [
        | inl may ↦ rw may (
            flags_change config timely c a (disarm a) (preempting a.identity incoming ∷ c.pending)
              c.task_state_revision (active_view config timely cur v) refl refl refl refl)
        | inr not_now ↦ rw not_now v
      ]

  launch_current-IsConsistent :
      (o : Option ActiveTask) (c : Client)
      → IsCurrent o c.active_task
      → Consistent c
      → Consistent (launch_current o c)
  launch_current-IsConsistent none c cur v = v
  launch_current-IsConsistent (some a) c cur v = elim (Bool-cases a.cleanup_pending) [
    | inl under_way ↦ rw under_way v
    | inr fresh ↦
        let a' = record a { launched = true; cleanup_pending = false } in
        let w =
          flags_change config timely c a a' c.pending (c.task_state_revision + 1)
            (active_view config timely cur v) refl refl (sym fresh) refl in
        rw fresh (preempt_with-IsConsistent (first_preemptor a' c.task_queue) (some a') _ refl w)
  ]

  pub mark_launched-IsConsistent :
      (identity : ℕ) (c : Client) → Consistent c → Consistent (mark_launched identity c)
  unfolding mark_launched
  mark_launched-IsConsistent identity c v =
      launch_current-IsConsistent (if_current identity c.active_task) c
        (if_current-IsCurrent identity c.active_task) v

  commit-IsConsistent :
      (o : Option ActiveTask) (c : Client)
      → IsCurrent o c.active_task
      → Consistent c
      → Consistent (commit o c)
  commit-IsConsistent none c cur v = v
  commit-IsConsistent (some a) c cur v =
      flags_change config timely c a (record a { side_effect_committed = true }) c.pending
        c.task_state_revision (active_view config timely cur v) refl refl refl refl

  pub see_commit-IsConsistent : (c : Client) → Consistent c → Consistent (see_commit c)
  unfolding see_commit
  see_commit-IsConsistent c v = commit-IsConsistent c.active_task c (IsCurrent-refl c.active_task) v

  -- The cleanup that waits is that of the active task, and no other waits.
  pub cleaning-active :
      (n identity : ℕ) (task_id : String) (o : Option ActiveTask) (c : Client)
      → c.active_task ≡ o
      → get_elem? c.pending n ≡ some (cleaning identity task_id)
      → Consistent c
      → (a : ActiveTask) × (o ≡ some a)
        × (a.cleanup_pending ≡ true)
        × (a.identity ≡ identity)
        × (a.request.task_id ≡ task_id)
        × (cleanings (erase_at c.pending n) ≡ [])
  cleaning-active n identity task_id none c e at v =
      let w = active_view config timely e v in
      let (found, _) = cleanings-erase_at c.pending n at (rw w.cleans (omega arith)) in
      absurd (nil≢cons (sym w.cleans ∙ found))
  cleaning-active n identity task_id (some a) c e at v = elim (Bool-cases a.cleanup_pending) [
    | inl under_way ↦
        let only = rw under_way at (active_view config timely e v).cleans in
        let (found, rest) = cleanings-erase_at c.pending n at (rw only (omega arith)) in
        let (i, t) = head_parts (sym only ∙ found) in (a, refl, under_way, i, t, rest)
    | inr fresh ↦
        let none_left = rw fresh at (active_view config timely e v).cleans in
        let (found, _) = cleanings-erase_at c.pending n at (rw none_left (omega arith)) in
        absurd (nil≢cons (sym none_left ∙ found))
  ]

  -- The active task's cleanup ends, and the client is free for the next task.
  end_cleanup :
      (identity : ℕ) (task_id : String) (a : ActiveTask) (ks : List Continuation) (c : Client)
      → c.active_task ≡ some a
      → a.identity ≡ identity
      → a.request.task_id ≡ task_id
      → cleanings ks ≡ []
      → Consistent c
      → Consistent (
          release
            (if_current identity (some a))
            (record c { pending = ks; queued_task_ids = set_delete task_id c.queued_task_ids }))
  end_cleanup identity task_id a ks c e i t rest v =
      let w = active_view config timely e v in
      let same : (a.identity == identity) ≡ true = ground arith in
      rw same (record {
        ordered = v.ordered;
        once = λ id. ground (
          arith,
          w.once id,
          eq_iff a.request.task_id id,
          set_has-set_delete id task_id c.queued_task_ids,
        );
        serial = ground arith;
        flagged = v.flagged;
        cleans = rest;
        settled = λ t. tt;
      })

  pub finish_cleanup-IsConsistent :
      (n identity : ℕ) (task_id : String) (c : Client)
      → get_elem? c.pending n ≡ some (cleaning identity task_id)
      → Consistent c
      → Consistent (finish_cleanup identity task_id (record c { pending = erase_at c.pending n }))
  unfolding finish_cleanup
  finish_cleanup-IsConsistent n identity task_id c at v =
      let (a, e, _, i, t, rest) = cleaning-active n identity task_id c.active_task c refl at v in
      subst
        (λ o. Consistent (
          release (if_current identity o) (record c {
            pending = erase_at c.pending n;
            queued_task_ids = set_delete task_id c.queued_task_ids;
          })))
        (sym e) (end_cleanup identity task_id a (erase_at c.pending n) c e i t rest v)
