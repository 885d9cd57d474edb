-- ===== src/TaskQueue/Eviction.antt =====
-- `findHighPriorityEvictionIndex` of mobile/src/task-queue.ts: the task that a full queue gives up.
use one_autojs.Base.{
  ℕ, zero, suc, ◌+◌, ◌≤◌, ◌<◌, ◌≡◌, refl, ◌⊎◌, ◌↔◌, true, false, some, none, List, [], ◌∷◌, arith,
  ltb, Bool-cases, inl, inr, All, get_elem?, ◌≢◌, sym, some_inj, none≢some, subst, All-map,
}
use one_autojs.Protocol.{DeviceTaskRequest, TaskPriority, high}
use one_autojs.TaskQueue.{
  QueuedDeviceTask, rank, priority_rank, Indexed, indexed_from, lower_than, sorts_before,
  sort_insert, sort, first_index, is_high, find_high_priority_eviction_index,
}

-- `x` has a lower priority than `y`, or the same and was received no later.
abbrev pub NotAfter : QueuedDeviceTask → QueuedDeviceTask → Type 0
NotAfter x y = (rank x < rank y) ⊎ ((rank x ≡ rank y) × (x.sequence ≤ y.sequence))

sorts_before_trans :
    (x y z : Indexed) → sorts_before x y ≡ true → sorts_before y z ≡ true → sorts_before x z ≡ true
sorts_before_trans x y z h k = ground arith

sorts_before_total : (x y : Indexed) → sorts_before x y ≡ false → sorts_before y x ≡ true
sorts_before_total x y h = ground arith

-- The sorted list of some entries starts with one of them, which sorts before all.
module _ (P : Indexed → Type 0) where
  abbrev StartsWithLeast : List Indexed → List Indexed → Type 0
  StartsWithLeast sorted xs =
      (m : Indexed) × (ms : List Indexed) × (sorted ≡ m ∷ ms)
      × P m
      × All (λ x. sorts_before m x ≡ true) xs

  sort_head :
      (x : Indexed) (xs : List Indexed) → P x → All P xs → StartsWithLeast (sort (x ∷ xs)) (x ∷ xs)
  sort_head x [] p h = (x, [], refl, p, (ground arith, tt))
  sort_head x (y ∷ xs) p (q, h) =
      let (m, ms, sorted, found, least) = sort_head y xs q h in
      elim (Bool-cases (sorts_before x m)) [
        | inl first ↦ (
          x,
          m ∷ ms,
          rw (sorted, first, sort_insert) refl,
          p,
          (
            ground arith,
            All-map (λ z. sorts_before m z ≡ true) (λ z. sorts_before x z ≡ true)
                (λ z k. sorts_before_trans x m z first k) (y ∷ xs) least,
          ),
        )
        | inr later ↦ (
          m,
          sort_insert x ms,
          rw (sorted, later, sort_insert) refl,
          found,
          (sorts_before_total x m later, least),
        )
      ]

-- Of the indexed entries holds what holds of the queue's elements at their indices.
All-lower_than :
    (P : Indexed → Type 0) (r i : ℕ) (queue : List QueuedDeviceTask)
    → ((k : ℕ) (q : QueuedDeviceTask)
        → get_elem? queue k ≡ some q
        → rank q < r
        → P (record { entry = q; index = i + k }))
    → All P (lower_than r (indexed_from i queue))
All-lower_than P r i [] h = tt
All-lower_than P r i (q ∷ queue) h =
    let rest =
      All-lower_than P r (suc i) queue
        (λ k x at lower. subst (at_index x) (shift k) (h (suc k) x at lower)) in
    elim (Bool-cases (ltb (rank q) r)) [
      | inl lower ↦ rw lower (subst (at_index q) here (h 0 q refl (ground arith)), rest)
      | inr other ↦ rw other rest
    ]
  where
    at_index : QueuedDeviceTask → ℕ → Type 0
    at_index x k = P (record { entry = x; index = k })

    here : i + 0 ≡ i
    here = omega arith

    shift : (k : ℕ) → i + suc k ≡ suc i + k
    shift k = omega arith

-- An element of lower rank is among the indexed entries.
lower_than-All :
    (Q : QueuedDeviceTask → Type 0) (r i : ℕ) (queue : List QueuedDeviceTask)
    → All (λ x. Q x.entry) (lower_than r (indexed_from i queue))
    → (j : ℕ) {q : QueuedDeviceTask} → get_elem? queue j ≡ some q
    → rank q < r
    → Q q
lower_than-All Q r i [] h j at lower = cc
lower_than-All Q r i (x ∷ queue) h zero {q} at lower =
    let same : x ≡ q = some_inj at in
    let lower' : ltb (rank x) r ≡ true = ground arith in subst Q same ((rw lower' at h).0)
lower_than-All Q r i (x ∷ queue) h (suc j) at lower = elim (Bool-cases (ltb (rank x) r)) [
  | inl first ↦ lower_than-All Q r (suc i) queue ((rw first at h).1) j at lower
  | inr other ↦ lower_than-All Q r (suc i) queue (rw other at h) j at lower
]

-- The victim: queued at the index, of lower rank, and no other of lower rank is lower or, within
-- its rank, was received earlier.
pub record IsVictim (queue : List QueuedDeviceTask) (r i : ℕ) (victim : QueuedDeviceTask)
    : Type 0 where
  pub queued : get_elem? queue i ≡ some victim
  pub lower : rank victim < r
  pub longest :
      (j : ℕ) (q : QueuedDeviceTask) → get_elem? queue j ≡ some q → rank q < r → NotAfter victim q

least_of :
    (P : Indexed → Type 0) (xs : List Indexed) {i : ℕ}
    → All P xs
    → first_index (sort xs) ≡ some i
    → (m : Indexed) × P m × (m.index ≡ i) × All (λ x. sorts_before m x ≡ true) xs
least_of P [] all h = cc
least_of P (x ∷ xs) (p, ps) h =
    let (m, ms, sorted, found, least) = sort_head P x xs p ps in
    (m, found, some_inj (rw sorted at h), least)

All-trivial : (xs : List Indexed) → All (λ _. Unit {0}) xs
All-trivial [] = tt
All-trivial (x ∷ xs) = (tt, All-trivial xs)

first_index-ne-none : (x : Indexed) (xs : List Indexed) → first_index (sort (x ∷ xs)) ≢ none
first_index-ne-none x xs h =
    let (m, ms, sorted, _, _) = sort_head (λ _. Unit {0}) x xs tt (All-trivial xs) in
    none≢some (sym (rw sorted at h))

first_index-IsVictim :
    (queue : List QueuedDeviceTask) (r i : ℕ)
    → first_index (sort (lower_than r (indexed_from 0 queue))) ≡ some i
    → (victim : QueuedDeviceTask) × IsVictim queue r i victim
first_index-IsVictim queue r i h =
    let (m, (at, low), index, least) = least_of At (lower_than r (indexed_from 0 queue)) all_at h in
    (
      m.entry,
      record {
        queued = subst (λ k. get_elem? queue k ≡ some m.entry) index at;
        lower = low;
        longest = λ j q at' low'.
            lower_than-All (NotAfter m.entry) r 0 queue (not_after m _ least) j at' low';
      },
    )
  where
    At : Indexed → Type 0
    At x = (get_elem? queue x.index ≡ some x.entry) × (rank x.entry < r)

    all_at : All At (lower_than r (indexed_from 0 queue))
    all_at =
        All-lower_than At r 0 queue
          (λ k q at lower. let e : 0 + k ≡ k = omega arith in (rw e at, lower))

    not_after :
        (m : Indexed) (xs : List Indexed)
        → All (λ x. sorts_before m x ≡ true) xs
        → All (λ x. NotAfter m.entry x.entry) xs
    not_after m =
        All-map (λ x. sorts_before m x ≡ true) (λ x. NotAfter m.entry x.entry) (λ x k. ground arith)

is_high_iff : (p : TaskPriority) → (is_high p ≡ true) ↔ (p ≡ high)
is_high_iff p = ground arith

lower_than-eq-nil_iff :
    (r i : ℕ) (queue : List QueuedDeviceTask)
    → (lower_than r (indexed_from i queue) ≡ []) ↔ All (λ q. r ≤ rank q) queue
lower_than-eq-nil_iff r i [] = (λ _. tt, λ _. refl)
lower_than-eq-nil_iff r i (q ∷ queue) = ground (arith, lower_than-eq-nil_iff r (suc i) queue)

first_index-eq-none_iff : (xs : List Indexed) → (first_index (sort xs) ≡ none) ↔ (xs ≡ [])
first_index-eq-none_iff [] = (λ _. refl, λ _. refl)
first_index-eq-none_iff (x ∷ xs) = (λ h. absurd (first_index-ne-none x xs h), λ e. cc)

-- A victim is chosen only for a high-priority task, and it is the one of the lowest priority that has waited longest.
pub eviction-IsVictim :
    (queue : List QueuedDeviceTask) (incoming : DeviceTaskRequest) (i : ℕ)
    → find_high_priority_eviction_index queue incoming ≡ some i
    → (incoming.priority ≡ high)
      × (victim : QueuedDeviceTask) × IsVictim queue (priority_rank incoming.priority) i victim
unfolding find_high_priority_eviction_index
eviction-IsVictim queue incoming i h = elim (Bool-cases (is_high incoming.priority)) [
  | inl yes_high ↦
      let (victim, chosen) = first_index-IsVictim queue _ i (rw yes_high at h) in
      ((is_high_iff _).0 yes_high, victim, chosen)
  | inr other ↦ absurd (none≢some (rw other at h))
]

-- No victim is found exactly when the incoming task is not of high priority or no queued task is of a lower one.
pub eviction-eq-none_iff :
    (queue : List QueuedDeviceTask) (incoming : DeviceTaskRequest)
    → (find_high_priority_eviction_index queue incoming ≡ none)
      ↔ ((incoming.priority ≢ high) ⊎ All (λ q. priority_rank incoming.priority ≤ rank q) queue)
unfolding find_high_priority_eviction_index
eviction-eq-none_iff queue incoming = ground (
  arith,
  is_high_iff incoming.priority,
  first_index-eq-none_iff (lower_than (priority_rank incoming.priority) (indexed_from 0 queue)),
  lower_than-eq-nil_iff (priority_rank incoming.priority) 0 queue,
)
