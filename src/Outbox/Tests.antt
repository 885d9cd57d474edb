-- ===== src/Outbox/Tests.antt =====
-- A result that is confirmed over HTTP at the second attempt, and instances of the theorems.
use one_autojs.Base.{◌⊎◌, str_eq, ◌≡◌, refl, true, false, none, some, [], ◌∷◌, null, find}
use one_autojs.Protocol.{success}
use one_autojs.Scheduler.{set_has}
use one_autojs.Outbox.{
  TaskResultOutboxEntry, Outbox, begin_delivery, finish_delivery, replay_entry,
  deliver_persisted_task_result,
}
use one_autojs.Outbox.Kept.{
  has_file, OutboxRun, start, step, begun, ended, replayed, HasRemoval, OutboxRun-accounted,
}

abbrev entry : TaskResultOutboxEntry
entry = record {
  result = record {
    task_id = "task_0001";
    device_id = "phone:1";
    script_id = "tiktok.post";
    status = success;
    code = "TIKTOK_PUBLISHED";
    message = "Published";
    details = null;
    started_at = 1000;
    finished_at = 30000;
    duration_ms = 29000;
    trace_id = "trace_0001";
  };
  callback_url = some "https://server.example/callback";
  persisted_at = 30000;
}

abbrev kept : Outbox
kept = record { files = ("task_0001", entry) ∷ []; delivering = [] }

-- MQTT alone does not do where a callback is required.
abbrev once : Outbox
once = finish_delivery entry (some true) false (begin_delivery entry kept)

abbrev twice : Outbox
twice = finish_delivery entry none true (replay_entry 90000 entry once)

still_there : once.files ≡ kept.files
unfolding finish_delivery begin_delivery deliver_persisted_task_result
still_there = refl

removed : twice.files ≡ []
unfolding finish_delivery begin_delivery deliver_persisted_task_result replay_entry
removed = refl

begun_first : set_has "task_0001" (begin_delivery entry kept).delivering ≡ true
unfolding begin_delivery str_eq
begun_first = refl

still_found : find "task_0001" once.files ≡ some entry
unfolding find finish_delivery begin_delivery deliver_persisted_task_result
still_found = refl

begun_again : set_has "task_0001" (replay_entry 90000 entry once).delivering ≡ true
unfolding finish_delivery begin_delivery deliver_persisted_task_result replay_entry str_eq
begun_again = refl

kept_file : has_file "task_0001" kept ≡ true
unfolding find
kept_file = refl

-- The first attempt fails, and a replay starts the second, which is confirmed.
abbrev attempts : OutboxRun kept twice
attempts =
    step
      (step (step (step start (begun entry refl)) (ended entry (some true) false begun_first refl))
        (replayed 90000 entry still_found refl))
      (ended entry none true begun_again refl)

OutboxRun-accounted_example : (has_file "task_0001" twice ≡ true) ⊎ HasRemoval "task_0001" attempts
OutboxRun-accounted_example = OutboxRun-accounted "task_0001" attempts kept_file
