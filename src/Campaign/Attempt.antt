-- ===== src/Campaign/Attempt.antt =====
-- The attempt that a review is about: `inspectionAttempt` of pc/src/tiktok-campaign.ts.
use one_autojs.Base.{
  ℕ, String, Bool, List, [], ◌∷◌, Option, none, some, leb, Outcome, ok, ◌>>=◌, ◌>>◌, require,
  or_throw, if◌then◌else◌,
}
use one_autojs.Campaign.{RecoveryTask, CampaignEntry}

-- The last attempt of a resumption, as its chain of records has been checked.
pub record Resumed : Type 0 where
  pub is_accepted : Bool
  pub task_id : Option String
  pub attempted_at : ℕ

pub record Attempted : Type 0 where
  pub task_id : String
  pub attempted_at : ℕ
  pub publication_attempted_at : ℕ

abbrev resumed_at : Option Resumed → ℕ → ℕ
resumed_at none at = at
resumed_at (some r) at = r.attempted_at

-- The last recovery task from an instant on.
abbrev last_since : ℕ → List RecoveryTask → Option RecoveryTask → Option RecoveryTask
last_since minimum [] found = found
last_since minimum (task ∷ rest) found =
    last_since minimum rest (if leb minimum task.at then some task else found)

abbrev own_attempt : CampaignEntry → Option Resumed → ℕ → Outcome Attempted
own_attempt entry none at = do
  task_id ← or_throw entry.task_id "No task receipt; use original-ID status/recovery"
  ok (record {
    task_id = task_id;
    attempted_at = entry.attempted_at;
    publication_attempted_at = at;
  })
own_attempt entry (some r) at = do
  require r.is_accepted "No resume receipt; query the original publication ID only"
  task_id ← or_throw r.task_id "No resume receipt; query the original publication ID only"
  ok (record { task_id = task_id; attempted_at = r.attempted_at; publication_attempted_at = at })

abbrev recovered_or : Option RecoveryTask → ℕ → Outcome Attempted → Outcome Attempted
recovered_or none at own = own
recovered_or (some task) at own =
    ok (record { task_id = task.task_id; attempted_at = task.at; publication_attempted_at = at })

-- `inspectionAttempt`
unfoldable pub inspection_attempt : CampaignEntry → Option Resumed → Outcome Attempted
inspection_attempt entry resumed =
    let at = resumed_at resumed entry.attempted_at in
    recovered_or (last_since at entry.recovery_tasks none) at (own_attempt entry resumed at)
