-- ===== src/Deployment/Activation.antt =====
-- What a run of the manager asks the rest of the client to do.
use one_autojs.Base.{
  ◌≡◌, ◌≢◌, ◌⊎◌, inl, inr, refl, sym, ap, ◌∙◌, String, Bool, true, false, List, [], ◌∷◌, ◌++◌,
  Outcome,
}
use one_autojs.Deployment.Fields.{
  DeploymentActivationMode, graceful, force, staging, draining, preempting, activating,
  DeviceDeploymentCommand,
}
use one_autojs.Deployment.Unpack.{Attempt, done, refused, calling}
use one_autojs.Deployment.Stage.{PendingActivation}
use one_autojs.Deployment.Manager.{
  Effect, block_task_intake, unblock_task_intake, cancel_queued_tasks, force_stop_active_task,
  publish, activate, World, Run, ◌>>=◌, event, stopped, clear_executor, hand_over, deploy,
}

-- The activations that are requested, in order.
unfoldable pub activations : List Effect → List PendingActivation
activations [] = []
activations (activate p ∷ rest) = p ∷ activations rest
activations (block_task_intake id ∷ rest) = activations rest
activations (unblock_task_intake id ∷ rest) = activations rest
activations (cancel_queued_tasks id ∷ rest) = activations rest
activations (force_stop_active_task id ∷ rest) = activations rest
activations (publish phase code ∷ rest) = activations rest

pub activations-append :
    (xs ys : List Effect) → activations (xs ++ ys) ≡ activations xs ++ activations ys
unfolding activations
activations-append [] ys = refl
activations-append (activate p ∷ xs) ys = ap (λ ps. p ∷ ps) (activations-append xs ys)
activations-append (block_task_intake id ∷ xs) ys = activations-append xs ys
activations-append (unblock_task_intake id ∷ xs) ys = activations-append xs ys
activations-append (cancel_queued_tasks id ∷ xs) ys = activations-append xs ys
activations-append (force_stop_active_task id ∷ xs) ys = activations-append xs ys
activations-append (publish phase code ∷ xs) ys = activations-append xs ys

-- The executor was given free for a deployment.
pub data IsCleared (world : World) (waited : Attempt (Unit {0}))
    : DeploymentActivationMode → Type 0 where
  drained : waited ≡ done tt → IsCleared world waited graceful
  preempted : world.force_stop ≡ Outcome.ok true → IsCleared world waited force

stopped-eq-done : (answer : Outcome Bool) → stopped answer ≡ done tt → answer ≡ Outcome.ok true
unfolding stopped
stopped-eq-done (Outcome.ok true) h = refl
stopped-eq-done (Outcome.ok false) h = cc
stopped-eq-done (Outcome.throw e) h = cc

clear_executor-IsCleared :
    (mode : DeploymentActivationMode) (world : World) (id : String) (waited : Attempt (Unit {0}))
    → (activations (clear_executor mode world id waited).0 ≡ [])
      × ((clear_executor mode world id waited).1 ≡ done tt → IsCleared world waited mode)
unfolding clear_executor event activations
clear_executor-IsCleared graceful world id waited = by_event (calling (world.publishes draining))
  where
    by_event :
        (published : Attempt (Unit {0}))
        → (activations
              ((publish draining "DRAINING_ACTIVE_TASK" ∷ [], published) >>= λ _. ([], waited)).0
            ≡ [])
          × (((publish draining "DRAINING_ACTIVE_TASK" ∷ [], published) >>= λ _. ([], waited)).1
                ≡ done tt
              → IsCleared world waited graceful)
    by_event (done _) = (refl, λ h. drained h)
    by_event (refused f) = (refl, λ h. cc)
clear_executor-IsCleared force world id waited = by_event (calling (world.publishes preempting))
  where
    by_event :
        (published : Attempt (Unit {0}))
        → (activations
              ((publish preempting "PREEMPTING_ACTIVE_TASK" ∷ [], published) >>= λ _.
                (force_stop_active_task id ∷ [], stopped world.force_stop)).0
            ≡ [])
          × (((publish preempting "PREEMPTING_ACTIVE_TASK" ∷ [], published) >>= λ _.
                  (force_stop_active_task id ∷ [], stopped world.force_stop)).1
                ≡ done tt
              → IsCleared world waited force)
    by_event (done _) = (refl, λ h. preempted (stopped-eq-done world.force_stop h))
    by_event (refused f) = (refl, λ h. cc)

-- A run has requested nothing and failed, or it has requested one activation.
abbrev Requested : Run (Unit {0}) → (PendingActivation → Type 0) → Type 0
Requested run P =
    (activations run.0 ≡ []) × (run.1 ≢ done tt)
    ⊎ ((p : PendingActivation) × (activations run.0 ≡ p ∷ []) × P p)

request :
    (run : Run (Unit {0})) (published activated : Attempt (Unit {0})) (p : PendingActivation)
    → activations run.0 ≡ []
    → Requested
        (run >>= λ _. (publish activating "ACTIVATION_REQUESTED" ∷ [], published) >>= λ _.
          (activate p ∷ [], activated))
        (λ q. (q ≡ p) × (run.1 ≡ done tt))
unfolding activations
request (effects, refused f) published activated p h =
    inl (activations-append effects [] ∙ rw h, λ e. cc)
request (effects, done _) (refused f) activated p h =
    inl (activations-append effects _ ∙ rw h, λ e. cc)
request (effects, done _) (done _) activated p h =
    inr (p, activations-append effects _ ∙ rw h, (refl, refl))

pub activations-deploy :
    (world : World) (command : DeviceDeploymentCommand) (staged : Attempt PendingActivation)
    (waited : Attempt (Unit {0}))
    → Requested
        (deploy world command staged waited)
        (λ p. (staged ≡ done p) × IsCleared world waited command.timing.activation_mode)
unfolding deploy hand_over event activations
activations-deploy world command staged waited =
    first (calling (world.publishes staging)) staged refl
  where
    first :
        (published : Attempt (Unit {0})) (s : Attempt PendingActivation)
        → staged ≡ s
        → Requested
            ((publish staging "STAGING_STARTED" ∷ [], published) >>= λ _.
              ([], s) >>= λ pending. hand_over world command waited pending)
            (λ p. (staged ≡ done p) × IsCleared world waited command.timing.activation_mode)
    first (refused f) s e = inl (refl, λ h. cc)
    first (done _) (refused f) e = inl (refl, λ h. cc)
    first (done _) (done p) e =
        let (silent, cleared) =
          clear_executor-IsCleared command.timing.activation_mode world command.deployment_id
            waited in
        elim (request
          (clear_executor command.timing.activation_mode world command.deployment_id waited)
          (calling (world.publishes activating)) (calling world.activates) p silent) [
            | inl none_made ↦ inl none_made
            | inr (q, a, (same, free)) ↦ inr (q, a, (e ∙ ap done (sym same), cleared free))
          ]
