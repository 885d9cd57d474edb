-- ===== src/Outbox/Kept.antt =====
-- Files of the outbox over runs of deliveries and replays.
use one_autojs.Base.{
  ℕ, ◌+◌, ◌-◌, ◌<◌, ◌≡◌, refl, subst, ◌↔◌, ◌⊎◌, arith, String, Bool, true, false, Option, none,
  some, List, [], ◌∷◌, str_eq, eq_iff, ltb, find, put, find-put, Outcome, ok, throw, if◌then◌else◌,
  Bool-cases, inl, inr,
}
use one_autojs.Scheduler.{set_has, set_add, is_some}
use one_autojs.Outbox.{
  TaskResultOutboxEntry, Outbox, callback_required, deliver_persisted_task_result,
  persist_task_result, remove, begin_delivery, delivered, finish_delivery, replay_entry,
}

-- A delivery is done exactly when the channel that has authority acknowledged: the HTTP callback if
-- one is required, whatever MQTT said, and MQTT otherwise.
pub deliver_persisted_task_result_lem :
    (required : Bool) (mqtt http : Option Bool)
    → (deliver_persisted_task_result required mqtt http ≡ ok true)
      ↔ ((if required then http else mqtt) ≡ some true)
unfolding deliver_persisted_task_result
deliver_persisted_task_result_lem true mqtt none = (λ h. cc, λ h. cc)
deliver_persisted_task_result_lem true mqtt (some true) = (λ h. refl, λ h. refl)
deliver_persisted_task_result_lem true mqtt (some false) = (λ h. cc, λ h. cc)
deliver_persisted_task_result_lem false none http = (λ h. cc, λ h. cc)
deliver_persisted_task_result_lem false (some true) http = (λ h. refl, λ h. refl)
deliver_persisted_task_result_lem false (some false) http = (λ h. cc, λ h. cc)

-- A task has a file.
abbrev pub has_file : String → Outbox → Bool
has_file id o = is_some (find id o.files)

has_file-put :
    (id key : String) (e : TaskResultOutboxEntry) (m : List (String × TaskResultOutboxEntry))
    → is_some (find id m) ≡ true
    → is_some (find id (put key e m)) ≡ true
has_file-put id key e m h = elim (Bool-cases (str_eq key id)) [
  | inl same ↦ rw (find-put, same) refl
  | inr other ↦ rw (find-put, other) h
]

find-remove :
    (id key : String) (m : List (String × TaskResultOutboxEntry))
    → str_eq key id ≡ false
    → find id (remove key m) ≡ find id m
unfolding find
find-remove id key [] h = refl
find-remove id key ((k, v) ∷ m) h =
    ground (arith, eq_iff k key, eq_iff k id, eq_iff key id, find-remove id key m h)

-- A file that goes is that of the id.
remove-cases :
    (id key : String) (files : List (String × TaskResultOutboxEntry))
    → is_some (find id files) ≡ true
    → (is_some (find id (remove key files)) ≡ true) ⊎ (key ≡ id)
remove-cases id key files h = elim (Bool-cases (str_eq key id)) [
  | inl same ↦ inr ((eq_iff key id).0 same)
  | inr differs ↦ inl (rw (find-remove id key files differs) h)
]

persist_task_result-has_file :
    (id : String) (e : TaskResultOutboxEntry) (o : Outbox)
    → has_file id o ≡ true
    → has_file id (persist_task_result e o) ≡ true
unfolding persist_task_result
persist_task_result-has_file id e o h = has_file-put id e.result.task_id e o.files h

begin_delivery-has_file :
    (id : String) (e : TaskResultOutboxEntry) (o : Outbox)
    → has_file id o ≡ true
    → has_file id (begin_delivery e o) ≡ true
unfolding begin_delivery
begin_delivery-has_file id e o h = guarded (set_has e.result.task_id o.delivering)
  where
    guarded :
        (b : Bool)
        → has_file id
            (if b then o else record o { delivering = set_add e.result.task_id o.delivering })
          ≡ true
    guarded true = h
    guarded false = h

-- The channel with authority for a result acknowledged it.
abbrev pub IsConfirmed : TaskResultOutboxEntry → Option Bool → Bool → Type 0
IsConfirmed e mqtt http = (if callback_required e then some http else mqtt) ≡ some true

-- The result lies in the outbox for more than a day.
abbrev pub IsOld : ℕ → TaskResultOutboxEntry → Type 0
IsOld now e = e.persisted_at + 86400000 < now

-- The answer over HTTP counts only where it is asked for.
same_channel :
    (b : Bool) (mqtt : Option Bool) (http : Bool)
    → (if b then (if b then some http else none) else mqtt) ≡ some true
    → (if b then some http else mqtt) ≡ some true
same_channel true mqtt http k = k
same_channel false mqtt http k = k

finish_delivery-cases :
    (id : String) (e : TaskResultOutboxEntry) (mqtt : Option Bool) (http : Bool) (o : Outbox)
    → has_file id o ≡ true
    → (has_file id (finish_delivery e mqtt http o) ≡ true)
      ⊎ ((e.result.task_id ≡ id) × IsConfirmed e mqtt http)
unfolding finish_delivery
finish_delivery-cases id e mqtt http o h = ended (deliver_persisted_task_result _ mqtt _) refl
  where
    answer : Option Bool
    answer = if callback_required e then some http else none

    ended :
        (r : Outcome Bool)
        → deliver_persisted_task_result (callback_required e) mqtt answer ≡ r
        → (has_file id (delivered e.result.task_id r o) ≡ true)
          ⊎ ((e.result.task_id ≡ id) × IsConfirmed e mqtt http)
    ended (ok true) s = elim (remove-cases id e.result.task_id o.files h) [
      | inl there ↦ inl there
      | inr same ↦ inr (
        same,
        (same_channel (callback_required e) mqtt http
            ((deliver_persisted_task_result_lem (callback_required e) mqtt answer).0 s)),
      )
    ]
    ended (ok false) s = inl h
    ended (throw message) s = inl h

replay_entry-cases :
    (id : String) (now : ℕ) (e : TaskResultOutboxEntry) (o : Outbox)
    → has_file id o ≡ true
    → (has_file id (replay_entry now e o) ≡ true) ⊎ ((e.result.task_id ≡ id) × IsOld now e)
unfolding replay_entry
replay_entry-cases id now e o h = elim (Bool-cases (ltb 86400000 (now - e.persisted_at))) [
  | inl old ↦ rw old (elim (remove-cases id e.result.task_id o.files h) [
    | inl there ↦ inl there
    | inr same ↦ inr (same, ground (arith, old))
  ])
  | inr young ↦ rw young (inl (begin_delivery-has_file id e o h))
]

-- One change of the outbox. A delivery that ends has begun, and a replayed entry is that of its file.
pub data OutboxStep (o o' : Outbox) : Type 0 where
  persisted : (e : TaskResultOutboxEntry) → persist_task_result e o ≡ o' → OutboxStep o o'
  begun : (e : TaskResultOutboxEntry) → begin_delivery e o ≡ o' → OutboxStep o o'
  ended :
      (e : TaskResultOutboxEntry) (mqtt : Option Bool) (http : Bool)
      → set_has e.result.task_id o.delivering ≡ true
      → finish_delivery e mqtt http o ≡ o'
      → OutboxStep o o'
  replayed :
      (now : ℕ) (e : TaskResultOutboxEntry)
      → find e.result.task_id o.files ≡ some e
      → replay_entry now e o ≡ o'
      → OutboxStep o o'

pub data OutboxRun (o : Outbox) : Outbox → Type 0 where
  start : OutboxRun o o
  step : {p q : Outbox} → OutboxRun o p → OutboxStep p q → OutboxRun o q

-- The step may take the file of a task away: a delivery of its result is confirmed, or its file is
-- replayed when it is older than a day.
abbrev pub IsRemoval : String → {o o' : Outbox} → OutboxStep o o' → Type 0
IsRemoval id (ended e mqtt http under_way h) = (e.result.task_id ≡ id) × IsConfirmed e mqtt http
IsRemoval id (replayed now e there h) = (e.result.task_id ≡ id) × IsOld now e
IsRemoval id _ = ⊥

-- A run has such a step.
abbrev pub HasRemoval : String → {o o' : Outbox} → OutboxRun o o' → Type 0
HasRemoval id start = ⊥
HasRemoval id (step run last) = HasRemoval id run ⊎ IsRemoval id last

OutboxStep-kept :
    (id : String) {o o' : Outbox} (s : OutboxStep o o')
    → has_file id o ≡ true
    → (has_file id o' ≡ true) ⊎ IsRemoval id s
OutboxStep-kept id {o} (persisted e h) there =
    inl (subst (λ p. has_file id p ≡ true) h (persist_task_result-has_file id e o there))
OutboxStep-kept id {o} (begun e h) there =
    inl (subst (λ p. has_file id p ≡ true) h (begin_delivery-has_file id e o there))
OutboxStep-kept id {o} (ended e mqtt http under_way h) there =
    subst (λ p. (has_file id p ≡ true) ⊎ ((e.result.task_id ≡ id) × IsConfirmed e mqtt http)) h
      (finish_delivery-cases id e mqtt http o there)
OutboxStep-kept id {o} (replayed now e found h) there =
    subst (λ p. (has_file id p ≡ true) ⊎ ((e.result.task_id ≡ id) × IsOld now e)) h
      (replay_entry-cases id now e o there)

-- Once a task has a result file, then over any run of deliveries, replays of readable files and new
-- results it has one still, or a delivery of a result of the task was acknowledged, over HTTP where a callback is
-- required and over MQTT otherwise, or a file of the task was replayed more than a day after it was
-- written.
pub OutboxRun-accounted :
    (id : String) {o o' : Outbox} (run : OutboxRun o o')
    → has_file id o ≡ true
    → (has_file id o' ≡ true) ⊎ HasRemoval id run
OutboxRun-accounted id start there = inl there
OutboxRun-accounted id (step run last) there = elim (OutboxRun-accounted id run there) [
  | inl still ↦ elim (OutboxStep-kept id last still) [
    | inl yet ↦ inl yet
    | inr removal ↦ inr (inr removal)
  ]
  | inr before ↦ inr (inl before)
]
