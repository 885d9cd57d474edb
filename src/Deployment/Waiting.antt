-- ===== src/Deployment/Waiting.antt =====
-- The wait for the active task, and the length of a run of `handle`.
use Prim.Native.Nat.{◌*◌}
use one_autojs.Base.{
  ℕ, zero, suc, ◌+◌, ◌≤◌, ◌<◌, ◌≡◌, inl, inr, refl, sym, ◌∙◌, String, true, false, none, some, Json,
  Number, finite, infinite, pos, negsuc, of_ℕ, number_le, number_add, is_integer, ltb, ltb→lt,
  false≢true, [], Outcome, Bool-cases, arith,
}
use one_autojs.Ops.Parse.{Url}
use one_autojs.Deployment.Fields.{timed_out, failed, DeviceDeploymentCommand}
use one_autojs.Deployment.Command.{parse_device_deployment_command}
use one_autojs.Deployment.Accepted.{
  IsWithin, IsTiming, parse_device_deployment_command-IsDeployable,
}
use one_autojs.Deployment.Unpack.{deployment_failure, Attempt, done, refused}
use one_autojs.Deployment.Manager.{
  World, poll_idle, wait_for_idle, Manager, Handled, with_wait, handle,
}

-- `setTimeout(resolve, 250)` between two polls: the clock moves on by 250 ms at least.
pub record IsPolled (world : World) : Type 0 where
  pub start : world.drain_start ≤ world.clock 0
  pub pause : (i : ℕ) → world.clock i + 250 ≤ world.clock (suc i)

clock-le : (world : World) → IsPolled world → (i : ℕ) → world.drain_start + 250 * i ≤ world.clock i
clock-le world p zero = omega (arith, p.start)
clock-le world p (suc i) = omega (arith, p.pause i, clock-le world p i)

-- After half an hour the deadline has passed.
deadline-le :
    (drain : Number) (start now : ℕ)
    → IsWithin (of_ℕ 1000) (of_ℕ 1800000) drain
    → start + 1800000 ≤ now
    → number_le (number_add drain start) (of_ℕ now) ≡ true
unfolding number_le number_add is_integer
deadline-le (infinite negative) start now (i, lo, hi) h = cc
deadline-le (finite (negsuc n) p) start now (i, lo, hi) h = ground arith
deadline-le (finite (pos n) p) start now (i, lo, hi) h = ground arith

-- How the loop may end: the executor was idle, or the deadline had passed.
pub data IsWaited (world : World) (deadline : Number) : Attempt (Unit {0}) → Type 0 where
  idle : (i : ℕ) → world.is_idle i ≡ true → IsWaited world deadline (done tt)
  late :
      (i : ℕ)
      → world.is_idle i ≡ false
      → number_le deadline (of_ℕ (world.clock i)) ≡ true
      → IsWaited world deadline (refused (deployment_failure "DEPLOYMENT_DRAIN_TIMEOUT" timed_out))

poll_idle-total :
    (world : World) (deadline : Number) (fuel i : ℕ)
    → ((j : ℕ) → 7200 ≤ j → number_le deadline (of_ℕ (world.clock j)) ≡ true)
    → 7200 < fuel + i
    → 0 < fuel
    → (r : Attempt (Unit {0})) × (poll_idle world deadline fuel i ≡ some r)
      × IsWaited world deadline r
unfolding poll_idle
poll_idle-total world deadline zero i h enough some_fuel = absurd (omega arith)
poll_idle-total world deadline (suc fuel) i h enough some_fuel =
    elim (Bool-cases (world.is_idle i)) [
      | inl e ↦ (done tt, rw e, idle i e)
      | inr e ↦ elim (Bool-cases (number_le deadline (of_ℕ (world.clock i)))) [
        | inl l ↦ (
          refused (deployment_failure "DEPLOYMENT_DRAIN_TIMEOUT" timed_out),
          rw (e, l),
          late i e l,
        )
        | inr l ↦
            let more : i < 7200 = early i l in
            rw (e, l) (poll_idle-total world deadline fuel (suc i) h (omega arith) (omega arith))
      ]
    ]
  where
    early : (j : ℕ) → number_le deadline (of_ℕ (world.clock j)) ≡ false → j < 7200
    early j l = elim (Bool-cases (ltb j 7200)) [
      | inl e ↦ ltb→lt j 7200 e
      | inr e ↦ absurd (false≢true (sym l ∙ h j (ground arith)))
    ]

-- With a pause of 250 ms between two polls, the wait of an accepted command ends within 7201 polls:
-- the executor was idle, or the deadline had passed while it was busy.
pub wait_for_idle-total :
    (world : World) (command : DeviceDeploymentCommand) (fuel : ℕ)
    → IsPolled world
    → IsTiming command.timing
    → 7200 < fuel
    → (r : Attempt (Unit {0})) × (wait_for_idle world command fuel ≡ some r)
      × IsWaited world (number_add command.timing.drain_timeout_ms world.drain_start) r
unfolding wait_for_idle
wait_for_idle-total world command fuel p t enough =
    poll_idle-total world (number_add command.timing.drain_timeout_ms world.drain_start) fuel 0
      (λ j h.
        deadline-le command.timing.drain_timeout_ms world.drain_start (world.clock j) t.drain
          (half_hour j h))
      (omega arith) (omega arith)
  where
    half_hour : (j : ℕ) → 7200 ≤ j → world.drain_start + 1800000 ≤ world.clock j
    half_hour j h = omega (arith, clock-le world p j)

-- Every run of `handle` ends, whatever the message: with a pause of 250 ms between two polls, 7201
-- polls are enough.
pub handle-total :
    (parse_url : String → Outcome Url) (device_id : String) (fuel : ℕ) (world : World) (m : Manager)
    (payload : Json)
    → IsPolled world
    → 7200 < fuel
    → (h : Handled) × (handle parse_url device_id fuel world m payload ≡ some h)
unfolding handle
handle-total parse_url device_id fuel world m payload p enough =
    by_command (parse_device_deployment_command parse_url payload) refl
  where
    by_command :
        (o : Outcome DeviceDeploymentCommand)
        → parse_device_deployment_command parse_url payload ≡ o
        → (h : Handled) × ((elim o [
          | Outcome.throw message ↦ some (record {
            manager = m;
            effects = [];
            outcome = refused (deployment_failure "DEPLOYMENT_COMMAND_INVALID" failed);
          })
          | Outcome.ok command ↦ elim (wait_for_idle world command fuel) [
            | none ↦ none
            | some waited ↦ some (with_wait device_id world m command waited)
          ]
        ])
            ≡ some h)
    by_command (Outcome.throw message) parsed = (_, refl)
    by_command (Outcome.ok command) parsed =
        let (_, _, sound) = parse_device_deployment_command-IsDeployable parse_url payload parsed in
        let (waited, w, _) = wait_for_idle-total world command fuel p sound.timing enough in
        (with_wait device_id world m command waited, rw w)
