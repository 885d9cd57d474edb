-- ===== src/Deployment/Manager.antt =====
-- `DeploymentManager.handle` and `waitForIdle` of mobile/src/deployment-manager.ts, beside the two
-- hooks of client.ts that block and unblock the intake of tasks. The commands wait for one another
-- (`deploymentIntakeChain`), so that one run of `handle` ends before the next begins.
use one_autojs.Base.{
  ℕ, zero, suc, String, Bool, true, false, List, [], ◌∷◌, ◌++◌, Option, none, some, Json, Number,
  of_ℕ, number_le, number_add, str_eq, Outcome, if◌then◌else◌,
}
use one_autojs.Ops.Parse.{Url}
use one_autojs.Deployment.Fields.{
  DeploymentActivationMode, graceful, force, DeploymentPhase, staging, draining, preempting,
  activating, failed, timed_out, DeviceDeploymentCommand,
}
use one_autojs.Deployment.Command.{parse_device_deployment_command}
use one_autojs.Deployment.Unpack.{
  Failure, deployment_failure, other_error, Attempt, done, refused, calling,
}
use one_autojs.Deployment.Stage.{Download, Disk, PendingActivation, stage}

-- What a run of `handle` does to the rest of the client, in order.
pub data Effect : Type 0 where
  block_task_intake : String → Effect
  unblock_task_intake : String → Effect
  cancel_queued_tasks : String → Effect
  force_stop_active_task : String → Effect
  publish : DeploymentPhase → String → Effect
  activate : PendingActivation → Effect

-- What the surroundings answer in one run: the clock when the command arrives, the clock and the
-- executor's idleness at each poll, and how each call of a hook ends. An event of one phase is
-- published at most once in a run.
pub record World : Type 0 where
  pub now : ℕ
  pub download : Download
  pub drain_start : ℕ
  pub clock : ℕ → ℕ
  pub is_idle : ℕ → Bool
  pub force_stop : Outcome Bool
  pub publishes : DeploymentPhase → Outcome (Unit {0})
  pub activates : Outcome (Unit {0})

-- The effects so far and how the run of the `try` block goes on.
abbrev pub Run : Type 0 → Type 0
Run A = List Effect × Attempt A

abbrev pub and_then : {A B : Type 0} → Attempt A → (A → Run B) → Run B
and_then (done a) next = next a
and_then (refused f) next = ([], refused f)

infixl 5 ◌>>=◌ ◌>>◌
abbrev pub ◌>>=◌ : {A B : Type 0} → Run A → (A → Run B) → Run B
(effects, attempt) >>= next = let rest = and_then attempt next in (effects ++ rest.0, rest.1)

abbrev pub ◌>>◌ : {B : Type 0} → Run (Unit {0}) → Run B → Run B
m >> k = m >>= λ _. k

-- `event`
unfoldable pub event : World → DeploymentPhase → String → Run (Unit {0})
event world phase code = (publish phase code ∷ [], calling (world.publishes phase))

-- The loop of `waitForIdle`, from a poll on; `none` is fuel that ran out.
unfoldable pub poll_idle : World → Number → ℕ → ℕ → Option (Attempt (Unit {0}))
poll_idle world deadline zero i = none
poll_idle world deadline (suc fuel) i =
    let rest = poll_idle world deadline fuel (suc i) in
    if world.is_idle i
    then some (done tt)
    else if number_le deadline (of_ℕ (world.clock i))
    then some (refused (deployment_failure "DEPLOYMENT_DRAIN_TIMEOUT" timed_out))
    else rest

-- `waitForIdle`
unfoldable pub wait_for_idle : World → DeviceDeploymentCommand → ℕ → Option (Attempt (Unit {0}))
wait_for_idle world command fuel =
    poll_idle world (number_add command.timing.drain_timeout_ms world.drain_start) fuel 0

-- The test on the answer of `forceStopActiveTask`.
unfoldable pub stopped : Outcome Bool → Attempt (Unit {0})
stopped (Outcome.ok true) = done tt
stopped (Outcome.ok false) = refused (deployment_failure "PREEMPT_CLEANUP_FAILED" failed)
stopped (Outcome.throw e) = refused other_error

-- The branch on the activation mode; `waited` is how the wait for the active task ends.
unfoldable pub clear_executor :
    DeploymentActivationMode → World → String → Attempt (Unit {0}) → Run (Unit {0})
clear_executor force world deployment_id waited = do
  event world preempting "PREEMPTING_ACTIVE_TASK"
  (force_stop_active_task deployment_id ∷ [], stopped world.force_stop)
clear_executor graceful world deployment_id waited = do
  event world draining "DRAINING_ACTIVE_TASK"
  ([], waited)

-- The `try` block after the release is staged.
unfoldable pub hand_over :
    World → DeviceDeploymentCommand → Attempt (Unit {0}) → PendingActivation → Run (Unit {0})
hand_over world command waited pending = do
  clear_executor command.timing.activation_mode world command.deployment_id waited
  event world activating "ACTIVATION_REQUESTED"
  (activate pending ∷ [], calling world.activates)

-- The `try` block, where `staged` is how `stage` ends.
unfoldable pub deploy :
    World
    → DeviceDeploymentCommand
    → Attempt PendingActivation
    → Attempt (Unit {0})
    → Run (Unit {0})
deploy world command staged waited = do
  event world staging "STAGING_STARTED"
  pending ← ([], staged)
  hand_over world command waited pending

-- The event of the `catch` block.
abbrev pub failure_event : Failure → Effect
failure_event (deployment_failure code phase) = publish phase code
failure_event other_error = publish failed "DEPLOYMENT_FAILED"

pub record Manager : Type 0 where
  pub current_deployment_id : Option String
  pub disk : Disk

-- The end of the `try` block: nothing more, or the `catch` block, whose own event may fail.
unfoldable pub settle : String → Attempt (Unit {0}) → Option String × List Effect
settle deployment_id (done tt) = (some deployment_id, [])
settle deployment_id (refused f) = (none, failure_event f ∷ unblock_task_intake deployment_id ∷ [])

-- A run of `handle`: the state after it, its effects, and whether its promise is fulfilled.
pub record Handled : Type 0 where
  pub manager : Manager
  pub effects : List Effect
  pub outcome : Attempt (Unit {0})

unfoldable pub refuse : World → Manager → DeploymentPhase → String → Handled
refuse world m phase code =
    let (effects, attempt) = event world phase code in
    record { manager = m; effects = effects; outcome = attempt }

-- The disk after the `try` block: `stage` runs only if the first event was published.
unfoldable pub disk_after : Attempt (Unit {0}) → Disk → Disk → Disk
disk_after (done tt) old new = new
disk_after (refused f) old new = old

-- The accepted command. `waited` is how the wait for the active task ends.
unfoldable pub accept : World → Manager → DeviceDeploymentCommand → Attempt (Unit {0}) → Handled
accept world m command waited =
    let (disk, staged) = stage world.download m.disk command in
    let (effects, attempt) = deploy world command staged waited in
    let (current, ending) = settle command.deployment_id attempt in
    record {
      manager = record {
        current_deployment_id = current;
        disk = disk_after (calling (world.publishes staging)) m.disk disk;
      };
      effects =
          block_task_intake command.deployment_id
          ∷ cancel_queued_tasks command.deployment_id
          ∷ (effects ++ ending);
      outcome = done tt;
    }

-- The guards on a parsed command.
unfoldable pub admit : World → Manager → DeviceDeploymentCommand → Attempt (Unit {0}) → Handled
admit world m command waited =
    if number_le command.timing.expires_at (of_ℕ world.now)
    then refuse world m timed_out "DEPLOYMENT_EXPIRED"
    else elim m.current_deployment_id [
      | none ↦ accept world m command waited
      | some current ↦
          if str_eq current command.deployment_id
          then record { manager = m; effects = []; outcome = done tt }
          else refuse world m failed "DEPLOYMENT_BUSY"
    ]

unfoldable pub with_wait :
    String → World → Manager → DeviceDeploymentCommand → Attempt (Unit {0}) → Handled
with_wait device_id world m command waited =
    if str_eq command.device_id device_id
    then admit world m command waited
    else refuse world m failed "DEVICE_MISMATCH"

-- `handle`; `none` is fuel of the wait that ran out.
unfoldable pub handle :
    (String → Outcome Url) → String → ℕ → World → Manager → Json → Option Handled
handle parse_url device_id fuel world m payload =
    elim (parse_device_deployment_command parse_url payload) [
      | Outcome.throw e ↦ some (record {
        manager = m;
        effects = [];
        outcome = refused (deployment_failure "DEPLOYMENT_COMMAND_INVALID" failed);
      })
      | Outcome.ok command ↦ elim (wait_for_idle world command fuel) [
        | none ↦ none
        | some waited ↦ some (with_wait device_id world m command waited)
      ]
    ]

abbrev pub unblocked : String → Option String → Option String
unblocked id none = none
unblocked id (some current) = if str_eq current id then none else some current

-- `deploymentBlockId` of client.ts after the effects: the two hooks on the intake.
unfoldable pub block_id : Option String → List Effect → Option String
block_id blocked [] = blocked
block_id blocked (block_task_intake id ∷ rest) = block_id (some id) rest
block_id blocked (unblock_task_intake id ∷ rest) = block_id (unblocked id blocked) rest
block_id blocked (_ ∷ rest) = block_id blocked rest
