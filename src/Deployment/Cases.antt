-- ===== src/Deployment/Cases.antt =====
-- The ways in which a run of `handle` may go.
use one_autojs.Base.{
  ℕ, ◌≡◌, ◌⊎◌, inl, inr, refl, String, Bool, true, false, [], ◌∷◌, Option, none, some, some_inj,
  subst, Json, of_ℕ, number_le, str_eq, eq_iff, Outcome, if◌then◌else◌, Bool-cases,
}
use one_autojs.Ops.Parse.{Url}
use one_autojs.Deployment.Fields.{DeploymentPhase, failed, timed_out, DeviceDeploymentCommand}
use one_autojs.Deployment.Command.{parse_device_deployment_command}
use one_autojs.Deployment.Unpack.{deployment_failure, Attempt, done, refused}
use one_autojs.Deployment.Manager.{
  publish, World, event, wait_for_idle, Manager, Handled, refuse, accept, admit, with_wait, handle,
}

-- The manager is left as it was, and one event at most is published.
abbrev pub IsRefused : Manager → Handled → Type 0
IsRefused m h =
    (h.manager ≡ m)
    × ((h.effects ≡ [])
        ⊎ ((phase : DeploymentPhase) × (code : String) × (h.effects ≡ publish phase code ∷ [])))

-- The command is for this device, fresh, and meets no other deployment.
abbrev pub IsAccepted :
    String → World → Manager → DeviceDeploymentCommand → Attempt (Unit {0}) → Handled → Type 0
IsAccepted device_id world m command waited h =
    (command.device_id ≡ device_id)
    × (number_le command.timing.expires_at (of_ℕ world.now) ≡ false)
    × (m.current_deployment_id ≡ none)
    × (accept world m command waited ≡ h)

refuse-IsRefused :
    (world : World) (m : Manager) (phase : DeploymentPhase) (code : String)
    → IsRefused m (refuse world m phase code)
unfolding refuse event
refuse-IsRefused world m phase code = (refl, inr (phase, code, refl))

admit-cases :
    (world : World) (m : Manager) (command : DeviceDeploymentCommand) (waited : Attempt (Unit {0}))
    → IsRefused m (admit world m command waited)
      ⊎ IsAccepted command.device_id world m command waited (admit world m command waited)
unfolding admit
admit-cases world m command waited =
    by_expiry (number_le command.timing.expires_at (of_ℕ world.now)) refl
  where
    known :
        (current : String)
        → IsRefused m (
            if str_eq current command.deployment_id
            then record { manager = m; effects = []; outcome = done tt }
            else refuse world m failed "DEPLOYMENT_BUSY")
    known current = elim (Bool-cases (str_eq current command.deployment_id)) [
      | inl e ↦ rw e (refl, inl refl)
      | inr e ↦ rw e (refuse-IsRefused world m failed "DEPLOYMENT_BUSY")
    ]

    admitted : Option String → Handled
    admitted current = elim current [
      | none ↦ accept world m command waited
      | some id ↦
          if str_eq id command.deployment_id
          then record { manager = m; effects = []; outcome = done tt }
          else refuse world m failed "DEPLOYMENT_BUSY"
    ]

    by_current :
        number_le command.timing.expires_at (of_ℕ world.now) ≡ false
        → (o : Option String) → m.current_deployment_id ≡ o
        → IsRefused m (admitted o)
          ⊎ IsAccepted command.device_id world m command waited (admitted o)
    by_current fresh (some current) e = inl (known current)
    by_current fresh none e = inr (refl, fresh, e, refl)

    by_expiry :
        (late : Bool)
        → number_le command.timing.expires_at (of_ℕ world.now) ≡ late
        → let x =
            if late
            then refuse world m timed_out "DEPLOYMENT_EXPIRED"
            else admitted m.current_deployment_id in
          IsRefused m x ⊎ IsAccepted command.device_id world m command waited x
    by_expiry true e = inl (refuse-IsRefused world m timed_out "DEPLOYMENT_EXPIRED")
    by_expiry false e = by_current e m.current_deployment_id refl

with_wait-cases :
    (device_id : String) (world : World) (m : Manager) (command : DeviceDeploymentCommand)
    (waited : Attempt (Unit {0}))
    → IsRefused m (with_wait device_id world m command waited)
      ⊎ IsAccepted device_id world m command waited (with_wait device_id world m command waited)
unfolding with_wait
with_wait-cases device_id world m command waited =
    elim (Bool-cases (str_eq command.device_id device_id)) [
      | inl same ↦ rw same (elim (admit-cases world m command waited) [
        | inl r ↦ inl r
        | inr (_, fresh, free, e) ↦
            inr ((eq_iff command.device_id device_id).0 same, fresh, free, e)
      ])
      | inr other ↦ rw other (inl (refuse-IsRefused world m failed "DEVICE_MISMATCH"))
    ]

-- A run is refused, or its command is parsed, the wait ends and the command is accepted.
pub handle-cases :
    (parse_url : String → Outcome Url) (device_id : String) (fuel : ℕ) (world : World) (m : Manager)
    (payload : Json) {h : Handled}
    → handle parse_url device_id fuel world m payload ≡ some h
    → IsRefused m h
      ⊎ ((command : DeviceDeploymentCommand) × (waited : Attempt (Unit {0}))
          × (parse_device_deployment_command parse_url payload ≡ Outcome.ok command)
          × (wait_for_idle world command fuel ≡ some waited)
          × IsAccepted device_id world m command waited h)
unfolding handle
handle-cases parse_url device_id fuel world m payload {h} e =
    by_command (parse_device_deployment_command parse_url payload) refl e
  where
    Claim : Handled → Type 0
    Claim x =
        IsRefused m x
        ⊎ ((command : DeviceDeploymentCommand) × (waited : Attempt (Unit {0}))
            × (parse_device_deployment_command parse_url payload ≡ Outcome.ok command)
            × (wait_for_idle world command fuel ≡ some waited)
            × IsAccepted device_id world m command waited x)

    after_wait : DeviceDeploymentCommand → Option (Attempt (Unit {0})) → Option Handled
    after_wait command o = elim o [
      | none ↦ none
      | some waited ↦ some (with_wait device_id world m command waited)
    ]

    by_wait :
        (command : DeviceDeploymentCommand) (o : Option (Attempt (Unit {0})))
        → parse_device_deployment_command parse_url payload ≡ Outcome.ok command
        → wait_for_idle world command fuel ≡ o
        → after_wait command o ≡ some h
        → Claim h
    by_wait command none parsed w k = cc
    by_wait command (some waited) parsed w k =
        subst Claim (some_inj k) (elim (with_wait-cases device_id world m command waited) [
          | inl r ↦ inl r
          | inr a ↦ inr (command, waited, parsed, w, a)
        ])

    by_command :
        (o : Outcome DeviceDeploymentCommand)
        → parse_device_deployment_command parse_url payload ≡ o
        → (elim o [
          | Outcome.throw message ↦ some (record {
            manager = m;
            effects = [];
            outcome = refused (deployment_failure "DEPLOYMENT_COMMAND_INVALID" failed);
          })
          | Outcome.ok command ↦ after_wait command (wait_for_idle world command fuel)
        ])
          ≡ some h
        → Claim h
    by_command (Outcome.throw message) parsed k = subst Claim (some_inj k) (inl (refl, inl refl))
    by_command (Outcome.ok command) parsed k =
        by_wait command (wait_for_idle world command fuel) parsed refl k
