-- ===== src/TaskRegistry/Execute.antt =====
-- What `executeTask` of mobile/src/client.ts decides before it runs anything.
use Prim.Native.Nat.{◌%◌, ◌/◌}
use Prim.Native.String
use one_autojs.Base.{
  ℕ, zero, suc, String, Bool, false, not, ◌&&◌, ◌||◌, Option, none, some, List, [], ◌∷◌, Fields,
  str_eq, ◌==◌, ltb, Number, of_ℕ, number_lt, number_le, number_eq, number_sub, number_min,
  number_max, Outcome, failing, if◌then◌else◌, get_elem?,
}
use one_autojs.Protocol.{DeviceTaskRequest}
use one_autojs.TaskRegistry.{autojs, client, RegisteredTaskScript, get_registered_script}
use one_autojs.TaskRegistry.Params.{validate_registered_task_params}

-- The configuration that `executeTask` reads.
pub record ExecutorConfig : Type 0 where
  pub allowed_script_ids : List String
  pub max_params_bytes : ℕ
  pub max_timeout_ms : ℕ

-- A task that is not run gets a result with a code and a message: `rejectQueuedTask`, or a TIMEOUT.
pub data Refusal : Type 0 where
  reject : String → String → Refusal
  expire : Refusal

pub data Verdict : Type 0 where
  refuse : Refusal → Verdict
  run_client : RegisteredTaskScript → Verdict
  run_script : RegisteredTaskScript → Number → Verdict

abbrev numerals : List String
numerals = "0" ∷ "1" ∷ "2" ∷ "3" ∷ "4" ∷ "5" ∷ "6" ∷ "7" ∷ "8" ∷ "9" ∷ []

digit : ℕ → String
digit n = elim (get_elem? numerals n) [ none ↦ String.[] | some s ↦ s ]

digits : ℕ → ℕ → String → String
unfolding digit
digits zero n acc = acc
digits (suc fuel) n acc =
    let shown = String.◌++◌ (digit (n % 10)) acc in
    let rest = digits fuel (n / 10) shown in if n / 10 == 0 then shown else rest

-- A safe integer in decimal has at most 16 digits.
unfoldable pub decimal : ℕ → String
unfolding digits
decimal n = digits 16 n String.[]

abbrev pub includes_id : String → List String → Bool
includes_id script_id [] = false
includes_id script_id (id ∷ ids) = str_eq id script_id || includes_id script_id ids

-- `request.scriptVersion && request.scriptVersion !== definition.version`
abbrev pub other_version : Option Number → ℕ → Bool
other_version none version = false
other_version (some n) version = not (number_eq n (of_ℕ 0)) && not (number_eq n (of_ℕ version))

-- `Math.max(1000, Math.min(…))`, with the default for a request without a timeout.
unfoldable pub task_timeout : ExecutorConfig → ℕ → DeviceTaskRequest → RegisteredTaskScript → Number
task_timeout config now request definition = number_max (of_ℕ 1000) (
    number_min
      (if number_eq request.timeout_ms (of_ℕ 0)
        then of_ℕ definition.default_timeout_ms
        else request.timeout_ms)
      (number_min (of_ℕ definition.max_timeout_ms)
        (number_min (of_ℕ config.max_timeout_ms) (number_sub request.expires_at now))))

-- The time that is left to the task when its parameters are checked.
abbrev pub remaining : ℕ → DeviceTaskRequest → Number
remaining now request = number_min request.timeout_ms (number_sub request.expires_at now)

-- `if (paramsError) rejectQueuedTask(…)`
abbrev pub invalid_params : Option String → Option Refusal → Option Refusal
invalid_params none rest = rest
invalid_params (some message) rest = some (reject "INVALID_PARAMS" message)

module _ (config : ExecutorConfig) (params_bytes : Fields → ℕ)
    (parse_policy : Fields → Outcome (Unit {0})) (routing_active : Bool) where
  -- The checks of `executeTask` on a registered and allowed script, in their order. `params_bytes`
  -- is the length of the parameters' JSON text, `routing_active` is `networkRoutingManager.isActive()`.
  unfoldable pub refusal : ℕ → DeviceTaskRequest → RegisteredTaskScript → Option Refusal
  unfolding decimal number_le number_eq number_sub number_lt
  refusal now request definition =
      failing (other_version request.script_version definition.version)
        (reject "SCRIPT_VERSION_MISMATCH" "Requested script version is not installed")
        (failing (number_le request.expires_at (of_ℕ now)) expire (
          failing (ltb config.max_params_bytes (params_bytes request.params))
            (reject "PARAMS_TOO_LARGE" (
              String.◌++◌ "Task params exceed "
                (String.◌++◌ (decimal config.max_params_bytes) " bytes")))
            (invalid_params
              (validate_registered_task_params parse_policy request.script_id request.params
                (some (remaining now request)))
              (failing (str_eq request.script_id "device.network.switch" && routing_active)
                (reject "NETWORK_ROUTING_ACTIVE"
                  "Disable persistent network routing before using device.network.switch")
                none))))

  abbrev pub verdict_for : ℕ → DeviceTaskRequest → RegisteredTaskScript → Option Refusal → Verdict
  verdict_for now request definition (some r) = refuse r
  verdict_for now request definition none = elim definition.kind [
    | client ↦ run_client definition
    | autojs ↦ run_script definition (task_timeout config now request definition)
  ]

  abbrev not_allowed : DeviceTaskRequest → Verdict
  not_allowed request =
      refuse (reject "SCRIPT_NOT_ALLOWED" (String.◌++◌ "Script is not allowed: " request.script_id))

  abbrev pub judge : ℕ → DeviceTaskRequest → Option RegisteredTaskScript → Verdict
  judge now request none = not_allowed request
  judge now request (some definition) =
      if includes_id request.script_id config.allowed_script_ids
      then verdict_for now request definition (refusal now request definition)
      else not_allowed request

  -- `executeTask`, up to the first side effect.
  unfoldable pub execute_task : ℕ → DeviceTaskRequest → Verdict
  unfolding get_registered_script
  execute_task now request = judge now request (get_registered_script request.script_id)
