-- ===== src/Scheduler/Waiting.antt =====
-- The invariant and the handlers that act on the queue and on the starting task.
use one_autojs.Base.{
  ℕ, zero, suc, ◌+◌, ◌≤◌, ◌<◌, ◌≡◌, refl, subst, ap, String, Bool, true, false, ◌&&◌, ◌||◌, not,
  Option, none, some, List, [], ◌∷◌, Json, length, get_elem?, erase_at, str_eq, eq_iff, arith, leb,
  ltb, Bool-cases, inl, inr, All-map, All-erase_at, Outcome, ok, throw,
}
use one_autojs.Protocol.{DeviceTaskRequest}
use one_autojs.Protocol.Parse.{parse_device_task_request}
use one_autojs.TaskQueue.{
  QueuedDeviceTask, insert_queued_task, find_high_priority_eviction_index, rank,
}
use one_autojs.TaskQueue.Order.{
  Before, IsScheduled, IsReceivedBefore, insert_queued_task-IsScheduled, length-insert_queued_task,
}
use one_autojs.TaskQueue.Eviction.{eviction-IsVictim}
use one_autojs.Scheduler.{
  ActiveTask, preempting, Client, ClientConfig, set_has, set_delete, is_some,
}
use one_autojs.Scheduler.Handlers.{
  disarm, dequeue, process_next_task, accept_task, Admission, refused, accepted, evict_for,
  admit_to_queue, admit_unblocked, admit, preempt_or_next, after_admission, enqueue_parsed,
  enqueue_task, may_preempt,
}
use one_autojs.Scheduler.Invariant.{
  IsConsistent, set_has-set_add, set_has-set_delete, queue_count-insert, queue_count-erase_at,
}
use one_autojs.Scheduler.Running.{
  result-IsConsistent, flags_change, active_view, IsCurrent, IsCurrent-refl,
}

IsReceivedBefore-insert :
    (n : ℕ) (queue : List QueuedDeviceTask) (x : QueuedDeviceTask)
    → x.sequence < n
    → IsReceivedBefore n queue
    → IsReceivedBefore n (insert_queued_task queue x)
unfolding insert_queued_task
IsReceivedBefore-insert n [] x h r = (h, tt)
IsReceivedBefore-insert n (y ∷ queue) x h (p, r) =
    let rest = IsReceivedBefore-insert n queue x h r in
    elim (Bool-cases (ltb (rank y) (rank x))) [
      | inl above ↦ rw above (h, (p, r))
      | inr other ↦ rw other (p, rest)
    ]

IsScheduled-erase_at :
    (queue : List QueuedDeviceTask) (i : ℕ) → IsScheduled queue → IsScheduled (erase_at queue i)
IsScheduled-erase_at [] i h = tt
IsScheduled-erase_at (q ∷ queue) zero (b, h) = h
IsScheduled-erase_at (q ∷ queue) (suc i) (b, h) =
    (All-erase_at (Before q) queue i b, IsScheduled-erase_at queue i h)

length-erase_at_le :
    (queue : List QueuedDeviceTask) (i : ℕ) → length (erase_at queue i) ≤ length queue
length-erase_at_le [] i = omega arith
length-erase_at_le (q ∷ queue) zero = omega arith
length-erase_at_le (q ∷ queue) (suc i) = omega (arith, length-erase_at_le queue i)

length-erase_at_lt :
    (queue : List QueuedDeviceTask) (i : ℕ) {q : QueuedDeviceTask}
    → get_elem? queue i ≡ some q
    → suc (length (erase_at queue i)) ≡ length queue
length-erase_at_lt [] i h = cc
length-erase_at_lt (q ∷ queue) zero h = refl
length-erase_at_lt (q ∷ queue) (suc i) h = ap suc (length-erase_at_lt queue i h)

none_of {ℓ} : {A : Type ℓ} (o : Option A) → is_some o ≡ false → o ≡ none
none_of none h = refl
none_of (some a) h = cc

and-false : (b : Bool) → (b && false) ≡ false
and-false true = refl
and-false false = refl

module _ (config : ClientConfig) (timely : Bool) where
  abbrev Consistent : Client → Type 0
  Consistent = IsConsistent config timely

  pub erase_queued-IsConsistent :
      (c : Client) (i : ℕ) (q : QueuedDeviceTask)
      → get_elem? c.task_queue i ≡ some q
      → Consistent c
      → Consistent (record c {
        task_queue = erase_at c.task_queue i;
        queued_task_ids = set_delete q.request.task_id c.queued_task_ids;
      })
  erase_queued-IsConsistent c i q at v = record {
    ordered = record {
      scheduled = IsScheduled-erase_at c.task_queue i v.ordered.scheduled;
      received =
          All-erase_at (λ x. x.sequence < c.queue_sequence) c.task_queue i v.ordered.received;
      bounded = omega (arith, v.ordered.bounded, length-erase_at_le c.task_queue i);
    };
    once = λ id. ground (
      arith,
      v.once id,
      queue_count-erase_at id c.task_queue i at,
      set_has-set_delete id q.request.task_id c.queued_task_ids,
    );
    serial = v.serial;
    flagged = v.flagged;
    cleans = v.cleans;
    settled = v.settled;
  }

  accept_task-IsConsistent :
      (now : ℕ) (request : DeviceTaskRequest) (c : Client)
      → Consistent c
      → set_has request.task_id c.queued_task_ids ≡ false
      → length c.task_queue < config.queue_limit
      → Consistent (accept_task now request c)
  unfolding accept_task
  accept_task-IsConsistent now request c v fresh room = record {
    ordered = record {
      scheduled =
          insert_queued_task-IsScheduled c.task_queue _ v.ordered.scheduled v.ordered.received;
      received = IsReceivedBefore-insert (c.queue_sequence + 1) c.task_queue _ (omega arith) (
          All-map (λ (x : QueuedDeviceTask). x.sequence < c.queue_sequence)
            (λ (x : QueuedDeviceTask). x.sequence < c.queue_sequence + 1) (λ x h. omega arith)
            c.task_queue v.ordered.received);
      bounded = rw length-insert_queued_task room;
    };
    once = λ id. ground (
      arith,
      v.once id,
      eq_iff request.task_id id,
      queue_count-insert id c.task_queue
          (record { request = request; sequence = c.queue_sequence; enqueued_at = now }),
      set_has-set_add id request.task_id c.queued_task_ids,
    );
    serial = v.serial;
    flagged = v.flagged;
    cleans = v.cleans;
    settled = v.settled;
  }

  dequeue-IsConsistent :
      (now : ℕ) (queue : List QueuedDeviceTask) (c : Client)
      → c.task_queue ≡ queue
      → c.starting_task ≡ none
      → c.active_task ≡ none
      → Consistent c
      → Consistent (dequeue now queue c)
  dequeue-IsConsistent now [] c e s a v = v
  dequeue-IsConsistent now (q ∷ queue) c e s a v =
      let w1 = subst (λ x. Consistent (record c { task_queue = x })) e v in
      let w =
        subst (λ x. Consistent (record c { task_queue = q ∷ queue; starting_task = x })) s w1 in
      record {
        ordered = record {
          scheduled = w.ordered.scheduled.1;
          received = w.ordered.received.1;
          bounded = omega (arith, w.ordered.bounded);
        };
        once = λ id. omega (arith, w.once id);
        serial = rw a refl;
        flagged = refl;
        cleans = v.cleans;
        settled = v.settled;
      }

  pub process_next_task-IsConsistent :
      (now : ℕ) (c : Client) → Consistent c → Consistent (process_next_task now c)
  unfolding process_next_task
  process_next_task-IsConsistent now c v =
      elim (Bool-cases (
        is_some c.active_task
        || c.is_starting_task
        || is_some c.deployment_block_id
        || c.remote_active)) [
          | inl busy ↦ rw busy v
          | inr idle ↦
              let active : is_some c.active_task ≡ false = ground arith in
              let starting : is_some c.starting_task ≡ false = ground (arith, v.flagged) in
              rw idle (
                dequeue-IsConsistent now c.task_queue c refl (none_of c.starting_task starting)
                  (none_of c.active_task active) v)
        ]

  pub preempt_or_next-IsConsistent :
      (now : ℕ) (request : DeviceTaskRequest) (o : Option ActiveTask) (c : Client)
      → IsCurrent o c.active_task
      → Consistent c
      → Consistent (preempt_or_next now request o c)
  preempt_or_next-IsConsistent now request none c cur v = process_next_task-IsConsistent now c v
  preempt_or_next-IsConsistent now request (some a) c cur v =
      elim (Bool-cases (may_preempt request a)) [
        | inl preempts ↦ rw preempts (
            flags_change config timely c a (disarm a) (preempting a.identity request ∷ c.pending)
              c.task_state_revision (active_view config timely cur v) refl refl refl refl)
        | inr waits ↦ rw waits (process_next_task-IsConsistent now c v)
      ]

  -- An admission leaves a consistent client.
  abbrev Admits : Admission → Type 0
  Admits (refused c) = Consistent c
  Admits (accepted c) = Consistent c

  evict_for-Admits :
      (now : ℕ) (request : DeviceTaskRequest) (o : Option ℕ) (c : Client)
      → find_high_priority_eviction_index c.task_queue request ≡ o
      → set_has request.task_id c.queued_task_ids ≡ false
      → Consistent c
      → Admits (evict_for config now request o c)
  evict_for-Admits now request none c e fresh v = result-IsConsistent config timely c _ v
  evict_for-Admits now request (some i) c e fresh v =
      let (_, victim, chosen) = eviction-IsVictim c.task_queue request i e in
      let at = chosen.queued in
      rw at (
        accept_task-IsConsistent now request _
          (result-IsConsistent config timely _ _ (erase_queued-IsConsistent c i victim at v))
          (rw (set_has-set_delete, fresh)
            (and-false (not (str_eq victim.request.task_id request.task_id))))
          (omega (arith, length-erase_at_lt c.task_queue i at, v.ordered.bounded)))

  admit-Admits :
      (now : ℕ) (request : DeviceTaskRequest) (c : Client)
      → Consistent c
      → Admits (admit config now request c)
  unfolding admit
  admit-Admits now request c v = elim (Bool-cases (str_eq request.device_id config.device_id)) [
    | inl mine ↦ rw mine (unblocked c.deployment_block_id)
    | inr other ↦ rw other (result-IsConsistent config timely c _ v)
  ]
    where
      queue :
          set_has request.task_id c.queued_task_ids ≡ false
          → Admits (admit_to_queue config now request c)
      queue fresh = elim (Bool-cases (leb config.queue_limit (length c.task_queue))) [
        | inl full ↦ rw full (evict_for-Admits now request _ c refl fresh v)
        | inr room ↦ rw room (accept_task-IsConsistent now request c v fresh (ground arith))
      ]

      unblocked : (o : Option String) → Admits (admit_unblocked config now request o c)
      unblocked (some deployment) = result-IsConsistent config timely c _ v
      unblocked none = elim (Bool-cases (set_has request.task_id c.queued_task_ids)) [
        | inl known ↦ rw known v
        | inr fresh ↦ rw fresh (queue fresh)
      ]

  after_admission-IsConsistent :
      (now : ℕ) (request : DeviceTaskRequest) (a : Admission)
      → Admits a
      → Consistent (after_admission now request a)
  after_admission-IsConsistent now request (refused c) v = v
  after_admission-IsConsistent now request (accepted c) v =
      preempt_or_next-IsConsistent now request c.active_task c (IsCurrent-refl c.active_task) v

  pub enqueue_task-IsConsistent :
      (now : ℕ) (payload : Json) (c : Client)
      → Consistent c
      → Consistent (enqueue_task config now payload c)
  unfolding enqueue_task
  enqueue_task-IsConsistent now payload c v = parsed (parse_device_task_request payload)
    where
      parsed : (o : Outcome DeviceTaskRequest) → Consistent (enqueue_parsed config now o c)
      parsed (throw message) = v
      parsed (ok request) =
          after_admission-IsConsistent now request _ (admit-Admits now request c v)
