-- ===== src/Deployment/Blocking.antt =====
-- The intake of tasks over a run of the manager: when it is blocked and when it is given free.
use one_autojs.Base.{
  ℕ, ◌≡◌, ◌⊎◌, inl, inr, refl, sym, ap, subst, ◌∙◌, String, List, [], ◌∷◌, ◌++◌, Option, none, some,
  Json, eq_refl, Outcome, All, All-append,
}
use one_autojs.Ops.Parse.{Url}
use one_autojs.Deployment.Fields.{
  DeploymentActivationMode, graceful, force, DeploymentPhase, staging, draining, preempting,
  activating, DeviceDeploymentCommand,
}
use one_autojs.Deployment.Command.{parse_device_deployment_command}
use one_autojs.Deployment.Unpack.{
  Failure, deployment_failure, other_error, Attempt, done, refused, calling,
}
use one_autojs.Deployment.Stage.{PendingActivation, stage}
use one_autojs.Deployment.Manager.{
  Effect, block_task_intake, unblock_task_intake, cancel_queued_tasks, force_stop_active_task,
  publish, activate, World, Run, ◌>>=◌, event, stopped, clear_executor, hand_over, deploy,
  failure_event, Manager, settle, Handled, accept, handle, block_id,
}
use one_autojs.Deployment.Cases.{IsRefused, handle-cases}

-- An effect that leaves the intake as it is.
abbrev IsInner : Effect → Type 0
IsInner (block_task_intake id) = ⊥
IsInner (unblock_task_intake id) = ⊥
IsInner _ = Unit

>>=-IsInner :
    {A B : Type 0} (run : Run A) (next : A → Run B)
    → All IsInner run.0
    → ((a : A) → All IsInner (next a).0)
    → All IsInner (run >>= next).0
>>=-IsInner (effects, done a) next h k = All-append IsInner effects (next a).0 h (k a)
>>=-IsInner (effects, refused f) next h k = All-append IsInner effects [] h tt

event-IsInner :
    (world : World) (phase : DeploymentPhase) (code : String)
    → All IsInner (event world phase code).0
unfolding event
event-IsInner world phase code = (tt, tt)

clear_executor-IsInner :
    (mode : DeploymentActivationMode) (world : World) (id : String) (waited : Attempt (Unit {0}))
    → All IsInner (clear_executor mode world id waited).0
unfolding clear_executor
clear_executor-IsInner graceful world id waited =
    >>=-IsInner (event world draining "DRAINING_ACTIVE_TASK") (λ _. ([], waited))
      (event-IsInner world draining "DRAINING_ACTIVE_TASK") (λ _. tt)
clear_executor-IsInner force world id waited =
    >>=-IsInner (event world preempting "PREEMPTING_ACTIVE_TASK")
      (λ _. (force_stop_active_task id ∷ [], stopped world.force_stop))
      (event-IsInner world preempting "PREEMPTING_ACTIVE_TASK") (λ _. (tt, tt))

hand_over-IsInner :
    (world : World) (command : DeviceDeploymentCommand) (waited : Attempt (Unit {0}))
    (p : PendingActivation)
    → All IsInner (hand_over world command waited p).0
unfolding hand_over
hand_over-IsInner world command waited p =
    >>=-IsInner (clear_executor command.timing.activation_mode world command.deployment_id waited)
      (λ _. event world activating "ACTIVATION_REQUESTED" >>= λ _.
        (activate p ∷ [], calling world.activates))
      (clear_executor-IsInner command.timing.activation_mode world command.deployment_id waited)
      (λ _.
        >>=-IsInner (event world activating "ACTIVATION_REQUESTED")
          (λ _. (activate p ∷ [], calling world.activates))
          (event-IsInner world activating "ACTIVATION_REQUESTED") (λ _. (tt, tt)))

deploy-IsInner :
    (world : World) (command : DeviceDeploymentCommand) (staged : Attempt PendingActivation)
    (waited : Attempt (Unit {0}))
    → All IsInner (deploy world command staged waited).0
unfolding deploy
deploy-IsInner world command staged waited =
    >>=-IsInner (event world staging "STAGING_STARTED")
      (λ _. ([], staged) >>= λ p. hand_over world command waited p)
      (event-IsInner world staging "STAGING_STARTED")
      (λ _.
        >>=-IsInner ([], staged) (λ p. hand_over world command waited p) tt
          (hand_over-IsInner world command waited))

block_id-inner :
    (blocked : Option String) (inner rest : List Effect)
    → All IsInner inner
    → block_id blocked (inner ++ rest) ≡ block_id blocked rest
unfolding block_id
block_id-inner blocked [] rest h = refl
block_id-inner blocked (block_task_intake id ∷ inner) rest (e, h) = absurd e
block_id-inner blocked (unblock_task_intake id ∷ inner) rest (e, h) = absurd e
block_id-inner blocked (cancel_queued_tasks id ∷ inner) rest (e, h) =
    block_id-inner blocked inner rest h
block_id-inner blocked (force_stop_active_task id ∷ inner) rest (e, h) =
    block_id-inner blocked inner rest h
block_id-inner blocked (publish phase code ∷ inner) rest (e, h) =
    block_id-inner blocked inner rest h
block_id-inner blocked (activate p ∷ inner) rest (e, h) = block_id-inner blocked inner rest h

block_id-settle :
    (id : String) (attempt : Attempt (Unit {0}))
    → block_id (some id) (settle id attempt).1 ≡ (settle id attempt).0
unfolding block_id settle
block_id-settle id (done _) = refl
block_id-settle id (refused (deployment_failure code phase)) = rw (eq_refl id)
block_id-settle id (refused other_error) = rw (eq_refl id)

block_id-accepted :
    (blocked : Option String) (id : String) (rest : List Effect)
    → block_id blocked (block_task_intake id ∷ cancel_queued_tasks id ∷ rest)
      ≡ block_id (some id) rest
unfolding block_id
block_id-accepted blocked id rest = refl

settle-done : (id : String) → (settle id (done tt)).0 ≡ some id
unfolding settle
settle-done id = refl

settle-refused :
    (id : String) (f : Failure)
    → ((settle id (refused f)).0 ≡ none)
      × ((settle id (refused f)).1 ≡ failure_event f ∷ unblock_task_intake id ∷ [])
unfolding settle
settle-refused id f = (refl, refl)

-- How an accepted deployment ends: it is held, or its failure is reported and the intake is free.
pub data IsSettled (id : String) (h : Handled) : Type 0 where
  held : h.manager.current_deployment_id ≡ some id → IsSettled id h
  released :
      (before : List Effect) (f : Failure)
      → h.manager.current_deployment_id ≡ none
      → h.effects ≡ before ++ failure_event f ∷ unblock_task_intake id ∷ []
      → IsSettled id h

abbrev Blocks : Option String → Handled → Type 0
Blocks blocked h = block_id blocked h.effects ≡ h.manager.current_deployment_id

accept-Blocks :
    (world : World) (m : Manager) (command : DeviceDeploymentCommand) (waited : Attempt (Unit {0}))
    (blocked : Option String)
    → Blocks blocked (accept world m command waited)
      × IsSettled command.deployment_id (accept world m command waited)
unfolding accept
accept-Blocks world m command waited blocked = (
  blocking command.deployment_id run.0 (settle command.deployment_id run.1).1
        (deploy-IsInner world command (stage world.download m.disk command).1 waited)
      ∙ block_id-settle command.deployment_id run.1,
  ending run.1 refl,
)
  where
    run : Run (Unit {0})
    run = deploy world command (stage world.download m.disk command).1 waited

    blocking :
        (id : String) (inner rest : List Effect)
        → All IsInner inner
        → block_id blocked (block_task_intake id ∷ cancel_queued_tasks id ∷ (inner ++ rest))
          ≡ block_id (some id) rest
    blocking id inner rest h =
        block_id-accepted blocked id (inner ++ rest) ∙ block_id-inner (some id) inner rest h

    ending :
        (attempt : Attempt (Unit {0}))
        → run.1 ≡ attempt
        → IsSettled command.deployment_id (accept world m command waited)
    ending (done _) e = held (ap (λ a. (settle command.deployment_id a).0) e ∙ settle-done _)
    ending (refused f) e =
        released
          (block_task_intake command.deployment_id
            ∷ cancel_queued_tasks command.deployment_id
            ∷ run.0)
          f (ap (λ a. (settle command.deployment_id a).0) e ∙ (settle-refused _ f).0)
          (ap
              (λ a.
                block_task_intake command.deployment_id
                ∷ cancel_queued_tasks command.deployment_id
                ∷ (run.0 ++ (settle command.deployment_id a).1))
              e
            ∙ ap
                (λ rest.
                  block_task_intake command.deployment_id
                  ∷ cancel_queued_tasks command.deployment_id
                  ∷ (run.0 ++ rest))
                (settle-refused _ f).1)

refused-Blocks : (m : Manager) (h : Handled) → IsRefused m h → Blocks m.current_deployment_id h
unfolding block_id
refused-Blocks m h (kept, inl e) =
    ap (block_id m.current_deployment_id) e ∙ ap (λ x. x.current_deployment_id) (sym kept)
refused-Blocks m h (kept, inr (phase, code, e)) =
    ap (block_id m.current_deployment_id) e ∙ ap (λ x. x.current_deployment_id) (sym kept)

-- The intake of tasks is blocked for the current deployment, or free if there is none, after every
-- run of `handle` that begins so. A run leaves the manager as it was and publishes one event at
-- most, or it was accepted: then the deployment is held, or the last two effects are the event of
-- the failure and the unblocking of the intake.
pub handle-Blocks :
    (parse_url : String → Outcome Url) (device_id : String) (fuel : ℕ) (world : World) (m : Manager)
    (payload : Json) {h : Handled}
    → handle parse_url device_id fuel world m payload ≡ some h
    → (block_id m.current_deployment_id h.effects ≡ h.manager.current_deployment_id)
      × (IsRefused m h
          ⊎ ((command : DeviceDeploymentCommand) × (parse_device_deployment_command parse_url
                  payload
                ≡ Outcome.ok command)
              × (m.current_deployment_id ≡ none)
              × IsSettled command.deployment_id h))
handle-Blocks parse_url device_id fuel world m payload {h} e =
    elim (handle-cases parse_url device_id fuel world m payload e) [
      | inl refusal ↦ (refused-Blocks m h refusal, inl refusal)
      | inr (command, waited, parsed, _, (_, _, free, same)) ↦
          let (blocks, settled) = accept-Blocks world m command waited m.current_deployment_id in
          (
            subst (Blocks m.current_deployment_id) same blocks,
            inr (command, parsed, free, subst (IsSettled command.deployment_id) same settled),
          )
    ]
