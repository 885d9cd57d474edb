-- ===== src/Outbox.antt =====
-- The outbox of task results and their delivery: mobile/src/task-result-delivery.ts, and
-- `persistTaskResult`, `deliverTaskResult` and `replayTaskResultOutbox` of mobile/src/client.ts.
pub mod Kept
mod Tests
use Prim.Native.String
use one_autojs.Base.{
  ℕ, ◌-◌, String, Bool, true, false, not, Option, none, some, List, [], ◌∷◌, str_eq, ltb, find, put,
  Outcome, ok, throw, if◌then◌else◌,
}
use one_autojs.Protocol.{DeviceTaskResult}
use one_autojs.Scheduler.{set_has, set_add, set_delete}

-- `TaskResultOutboxEntry`
pub record TaskResultOutboxEntry : Type 0 where
  pub result : DeviceTaskResult
  pub callback_url : Option String
  pub persisted_at : ℕ

-- The files of the outbox by task id, and the ids in `deliveringResultIds`.
pub record Outbox : Type 0 where
  pub files : List (String × TaskResultOutboxEntry)
  pub delivering : List String

-- `deliverPersistedTaskResult`. A channel is absent, or acknowledges or fails.
unfoldable pub deliver_persisted_task_result : Bool → Option Bool → Option Bool → Outcome Bool
deliver_persisted_task_result true mqtt none = throw "Authenticated HTTP callback is unavailable"
deliver_persisted_task_result true mqtt (some true) = ok true
deliver_persisted_task_result true mqtt (some false) = throw "HTTP task callback rejected"
deliver_persisted_task_result false none http = ok false
deliver_persisted_task_result false (some true) http = ok true
deliver_persisted_task_result false (some false) http = throw "MQTT publish failed"

-- `Boolean(entry.callbackUrl)`
abbrev pub callback_required : TaskResultOutboxEntry → Bool
callback_required entry = elim entry.callback_url [ none ↦ false | some url ↦ not (str_eq url "") ]

-- `persistTaskResult`: the file of the task is written, or replaced.
unfoldable pub persist_task_result : TaskResultOutboxEntry → Outbox → Outbox
unfolding put
persist_task_result entry o = record o { files = put entry.result.task_id entry o.files }

abbrev pub remove {ℓ} : {V : Type ℓ} → String → List (String × V) → List (String × V)
remove key [] = []
remove key ((k, v) ∷ m) = if str_eq k key then remove key m else (k, v) ∷ remove key m

-- `deliverTaskResult` up to its `await`; a delivery under way is not started again.
unfoldable pub begin_delivery : TaskResultOutboxEntry → Outbox → Outbox
begin_delivery entry o =
    if set_has entry.result.task_id o.delivering
    then o
    else record o { delivering = set_add entry.result.task_id o.delivering }

abbrev pub delivered : String → Outcome Bool → Outbox → Outbox
delivered task_id (ok true) o = record o { files = remove task_id o.files }
delivered task_id (ok false) o = o
delivered task_id (throw message) o = o

-- The rest of `deliverTaskResult`: the file goes if the result was delivered; `finally`.
unfoldable pub finish_delivery : TaskResultOutboxEntry → Option Bool → Bool → Outbox → Outbox
unfolding deliver_persisted_task_result
finish_delivery entry mqtt http o =
    let task_id = entry.result.task_id in
    let http' = if callback_required entry then some http else none in
    let o' =
      delivered task_id (deliver_persisted_task_result (callback_required entry) mqtt http') o in
    record o' { delivering = set_delete task_id o'.delivering }

-- One file of `replayTaskResultOutbox`: one that is older than a day is removed.
unfoldable pub replay_entry : ℕ → TaskResultOutboxEntry → Outbox → Outbox
unfolding begin_delivery
replay_entry now entry o =
    if ltb 86400000 (now - entry.persisted_at)
    then record o { files = remove entry.result.task_id o.files }
    else begin_delivery entry o
