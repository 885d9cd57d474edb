-- ===== src/Deployment/Warranted.antt =====
-- When a run of the manager requests an activation.
use one_autojs.Base.{
  ℕ, ◌≡◌, ◌⊎◌, inl, inr, refl, ap, subst, ◌∙◌, String, false, List, [], ◌∷◌, ◌++◌, none, some, Json,
  of_ℕ, number_le, Outcome,
}
use mathlib.Core.List.{append-nil}
use one_autojs.Ops.Parse.{Url}
use one_autojs.Deployment.Fields.{DeviceDeploymentCommand}
use one_autojs.Deployment.Command.{parse_device_deployment_command}
use one_autojs.Deployment.Unpack.{deployment_failure, other_error, Attempt, done, refused}
use one_autojs.Deployment.Stage.{PendingActivation, stage}
use one_autojs.Deployment.Manager.{
  World, Run, wait_for_idle, deploy, Manager, settle, Handled, accept, handle,
}
use one_autojs.Deployment.Cases.{IsRefused, handle-cases}
use one_autojs.Deployment.Activation.{
  activations, activations-append, IsCleared, activations-deploy,
}

activations-settle :
    (id : String) (attempt : Attempt (Unit {0})) → activations (settle id attempt).1 ≡ []
unfolding activations settle
activations-settle id (done _) = refl
activations-settle id (refused (deployment_failure code phase)) = refl
activations-settle id (refused other_error) = refl

-- What a run that requests an activation has checked before.
pub record IsWarranted (device_id : String) (fuel : ℕ) (world : World) (m : Manager)
    (command : DeviceDeploymentCommand) (p : PendingActivation) : Type 0 where
  pub here_meant : command.device_id ≡ device_id
  pub fresh : number_le command.timing.expires_at (of_ℕ world.now) ≡ false
  pub unoccupied : m.current_deployment_id ≡ none
  pub staged : (stage world.download m.disk command).1 ≡ done p
  pub waited : Attempt (Unit {0})
  pub wait_ended : wait_for_idle world command fuel ≡ some waited
  pub cleared : IsCleared world waited command.timing.activation_mode

abbrev Accounted : (PendingActivation → Type 0) → Handled → Type 0
Accounted P h =
    (activations h.effects ≡ [])
    ⊎ ((p : PendingActivation) × (activations h.effects ≡ p ∷ []) × P p)

activations-accept :
    (world : World) (m : Manager) (command : DeviceDeploymentCommand) (waited : Attempt (Unit {0}))
    → Accounted
        (λ p.
          ((stage world.download m.disk command).1 ≡ done p)
          × IsCleared world waited command.timing.activation_mode)
        (accept world m command waited)
unfolding accept activations
activations-accept world m command waited =
    elim (activations-deploy world command (stage world.download m.disk command).1 waited) [
      | inl (silent, _) ↦ inl (with_ending [] silent)
      | inr (p, made, why) ↦ inr (p, with_ending (p ∷ []) made, why)
    ]
  where
    run : Run (Unit {0})
    run = deploy world command (stage world.download m.disk command).1 waited

    with_ending :
        (ps : List PendingActivation)
        → activations run.0 ≡ ps
        → activations (run.0 ++ (settle command.deployment_id run.1).1) ≡ ps
    with_ending ps e =
        activations-append run.0 (settle command.deployment_id run.1).1
        ∙ rw (e, activations-settle command.deployment_id run.1) (append-nil ps)

activations-refused : (m : Manager) (h : Handled) → IsRefused m h → activations h.effects ≡ []
unfolding activations
activations-refused m h (_, inl e) = ap activations e
activations-refused m h (_, inr (phase, code, e)) = ap activations e

-- A run of `handle` requests at most one activation, and only for a command that names this device,
-- has not expired and meets no other deployment, whose release was staged, and after the executor
-- was cleared: in a graceful deployment the wait for it ended without a timeout, in a forced one the
-- active task was stopped and cleaned up.
pub handle-IsWarranted :
    (parse_url : String → Outcome Url) (device_id : String) (fuel : ℕ) (world : World) (m : Manager)
    (payload : Json) {h : Handled}
    → handle parse_url device_id fuel world m payload ≡ some h
    → (activations h.effects ≡ [])
      ⊎ ((command : DeviceDeploymentCommand) × (p : PendingActivation)
          × (parse_device_deployment_command parse_url payload ≡ Outcome.ok command)
          × (activations h.effects ≡ p ∷ [])
          × IsWarranted device_id fuel world m command p)
handle-IsWarranted parse_url device_id fuel world m payload {h} e =
    elim (handle-cases parse_url device_id fuel world m payload e) [
      | inl refusal ↦ inl (activations-refused m h refusal)
      | inr (command, waited, parsed, ended, (meant, fresh, free, same)) ↦
          subst
            (λ x.
              (activations x.effects ≡ [])
              ⊎ ((c : DeviceDeploymentCommand) × (p : PendingActivation)
                  × (parse_device_deployment_command parse_url payload ≡ Outcome.ok c)
                  × (activations x.effects ≡ p ∷ [])
                  × IsWarranted device_id fuel world m c p))
            same
            (elim (activations-accept world m command waited) [
              | inl silent ↦ inl silent
              | inr (p, made, (staged, cleared)) ↦ inr (
                command,
                p,
                parsed,
                made,
                record {
                  here_meant = meant;
                  fresh = fresh;
                  unoccupied = free;
                  staged = staged;
                  waited = waited;
                  wait_ended = ended;
                  cleared = cleared;
                },
              )
            ])
    ]
