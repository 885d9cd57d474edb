-- ===== src/Deployment/Progress.antt =====
-- A deployment that nothing stands in the way of.
use one_autojs.Base.{
  ℕ, zero, suc, ◌+◌, ◌<◌, ◌≡◌, inl, inr, refl, ap, subst, ◌∙◌, String, true, false, [], ◌∷◌, Option,
  none, some, Json, Number, of_ℕ, number_le, number_add, str_eq, eq_iff, Outcome, if◌then◌else◌,
  Bool-cases, arith,
}
use one_autojs.Ops.Parse.{Url}
use one_autojs.Deployment.Fields.{
  graceful, staging, draining, activating, failed, timed_out, DeviceDeploymentCommand,
}
use one_autojs.Deployment.Command.{parse_device_deployment_command}
use one_autojs.Deployment.Unpack.{Attempt, done}
use one_autojs.Deployment.Stage.{PendingActivation, stage}
use one_autojs.Deployment.Manager.{
  World, poll_idle, wait_for_idle, event, clear_executor, hand_over, deploy, settle, Manager,
  Handled, refuse, accept, admit, with_wait, handle,
}
use one_autojs.Deployment.Activation.{activations, activations-append}

-- The executor is idle at a poll, and the deadline has not passed at the polls before.
pub record IsIdleInTime (world : World) (deadline : Number) (fuel : ℕ) : Type 0 where
  pub poll : ℕ
  pub within : poll < fuel
  pub idle : world.is_idle poll ≡ true
  pub before : (i : ℕ) → i < poll → number_le deadline (of_ℕ (world.clock i)) ≡ false

poll_idle-done :
    (world : World) (deadline : Number) (fuel i k : ℕ)
    → k < fuel
    → world.is_idle (k + i) ≡ true
    → ((j : ℕ) → j < k + i → number_le deadline (of_ℕ (world.clock j)) ≡ false)
    → poll_idle world deadline fuel i ≡ some (done tt)
unfolding poll_idle
poll_idle-done world deadline zero i k less idle before = elim less [ ]
poll_idle-done world deadline (suc fuel) i zero less idle before = rw (found idle)
  where
    found : world.is_idle (0 + i) ≡ true → world.is_idle i ≡ true
    found h = subst (λ j. world.is_idle j ≡ true) (omega arith) h
poll_idle-done world deadline (suc fuel) i (suc k) less idle before =
    elim (Bool-cases (world.is_idle i)) [
      | inl e ↦ rw e
      | inr e ↦
          rw (e, before i (omega arith))
            (poll_idle-done world deadline fuel (suc i) k (omega arith)
              (subst (λ j. world.is_idle j ≡ true) (omega arith) idle)
              (λ j h. before j (omega arith)))
    ]

wait_for_idle-done :
    (world : World) (command : DeviceDeploymentCommand) (fuel : ℕ)
    → IsIdleInTime world (number_add command.timing.drain_timeout_ms world.drain_start) fuel
    → wait_for_idle world command fuel ≡ some (done tt)
unfolding wait_for_idle
wait_for_idle-done world command fuel t =
    poll_idle-done world (number_add command.timing.drain_timeout_ms world.drain_start) fuel 0
      t.poll t.within (subst (λ j. world.is_idle j ≡ true) (omega arith) t.idle)
      (λ j h. t.before j (omega arith))

-- Nothing stands in the way of a graceful deployment.
pub record IsUnhindered (device_id : String) (fuel : ℕ) (world : World) (m : Manager)
    (command : DeviceDeploymentCommand) (p : PendingActivation) : Type 0 where
  pub meant : command.device_id ≡ device_id
  pub fresh : number_le command.timing.expires_at (of_ℕ world.now) ≡ false
  pub free : m.current_deployment_id ≡ none
  pub gentle : command.timing.activation_mode ≡ graceful
  pub staged : (stage world.download m.disk command).1 ≡ done p
  pub in_time :
      IsIdleInTime world (number_add command.timing.drain_timeout_ms world.drain_start) fuel
  pub told_staging : world.publishes staging ≡ Outcome.ok tt
  pub told_draining : world.publishes draining ≡ Outcome.ok tt
  pub told_activating : world.publishes activating ≡ Outcome.ok tt
  pub activates : world.activates ≡ Outcome.ok tt

deploy-done :
    (world : World) (command : DeviceDeploymentCommand) (p : PendingActivation)
    → command.timing.activation_mode ≡ graceful
    → world.publishes staging ≡ Outcome.ok tt
    → world.publishes draining ≡ Outcome.ok tt
    → world.publishes activating ≡ Outcome.ok tt
    → world.activates ≡ Outcome.ok tt
    → (activations (deploy world command (done p) (done tt)).0 ≡ p ∷ [])
      × ((deploy world command (done p) (done tt)).1 ≡ done tt)
unfolding deploy hand_over clear_executor event activations
deploy-done world command p g a b c d =
    (rw (g, a, b, c, clear_executor), rw (g, a, b, c, d, clear_executor))

settle-held : (id : String) → settle id (done tt) ≡ (some id, [])
unfolding settle
settle-held id = refl

accept-done :
    (world : World) (m : Manager) (command : DeviceDeploymentCommand) (p : PendingActivation)
    (device_id : String) (fuel : ℕ)
    → IsUnhindered device_id fuel world m command p
    → (activations (accept world m command (done tt)).effects ≡ p ∷ [])
      × ((accept world m command (done tt)).manager.current_deployment_id
          ≡ some command.deployment_id)
unfolding accept activations
accept-done world m command p device_id fuel u =
    let (made, ended) =
      deploy-done world command p u.gentle u.told_staging u.told_draining u.told_activating
        u.activates in
    rw u.staged (
      activations-append (deploy world command (done p) (done tt)).0
            (settle command.deployment_id (deploy world command (done p) (done tt)).1).1
          ∙ rw (made, ended, settle-held command.deployment_id),
      rw (ended, settle-held command.deployment_id),
    )

admit-accept :
    (world : World) (m : Manager) (command : DeviceDeploymentCommand) (waited : Attempt (Unit {0}))
    → number_le command.timing.expires_at (of_ℕ world.now) ≡ false
    → m.current_deployment_id ≡ none
    → admit world m command waited ≡ accept world m command waited
unfolding admit
admit-accept world m command waited fresh free =
    ap
      (λ late.
        if late
        then refuse world m timed_out "DEPLOYMENT_EXPIRED"
        else rest m.current_deployment_id)
      fresh
    ∙ ap rest free
  where
    rest : Option String → Handled
    rest current = elim current [
      | none ↦ accept world m command waited
      | some id ↦
          if str_eq id command.deployment_id
          then record { manager = m; effects = []; outcome = done tt }
          else refuse world m failed "DEPLOYMENT_BUSY"
    ]

with_wait-admit :
    (device_id : String) (world : World) (m : Manager) (command : DeviceDeploymentCommand)
    (waited : Attempt (Unit {0}))
    → command.device_id ≡ device_id
    → with_wait device_id world m command waited ≡ admit world m command waited
unfolding with_wait
with_wait-admit device_id world m command waited meant =
    ap
      (λ same.
        if same then admit world m command waited else refuse world m failed "DEVICE_MISMATCH")
      ((eq_iff command.device_id device_id).1 meant)

-- A fresh graceful command for this device on a manager without a deployment leads to its
-- activation, and the deployment is held: provided that its release is staged, the hooks do not
-- fail, and the executor is idle at some poll before the deadline.
pub handle-activates :
    (parse_url : String → Outcome Url) (device_id : String) (fuel : ℕ) (world : World) (m : Manager)
    (payload : Json) (command : DeviceDeploymentCommand) (p : PendingActivation)
    → parse_device_deployment_command parse_url payload ≡ Outcome.ok command
    → IsUnhindered device_id fuel world m command p
    → (h : Handled) × (handle parse_url device_id fuel world m payload ≡ some h)
      × (activations h.effects ≡ p ∷ [])
      × (h.manager.current_deployment_id ≡ some command.deployment_id)
unfolding handle
handle-activates parse_url device_id fuel world m payload command p parsed u =
    let (made, held) = accept-done world m command p device_id fuel u in
    (
      accept world m command (done tt),
      rw (parsed, handle)
          (rw (wait_for_idle-done world command fuel u.in_time) (
            ap some (
              with_wait-admit device_id world m command (done tt) u.meant
              ∙ admit-accept world m command (done tt) u.fresh u.free))),
      made,
      held,
    )
