-- ===== src/TaskRegistry/Tests.antt =====
-- Runs of the checks before a script, and instances of their theorems.
use one_autojs.Base.{
  ℕ, ◌≡◌, refl, true, false, none, some, [], ◌∷◌, Fields, str, arr, cons, nil, field, end, get,
  as_number, str_eq, of_ℕ, number_lt, number_le, number_eq, number_sub, number_add, is_finite,
  Outcome, ok,
}
use one_autojs.Protocol.{DeviceTaskRequest, high}
use one_autojs.TaskRegistry.{RegisteredTaskScript, autojs, registry, get_registered_script}
use one_autojs.TaskRegistry.Params.{
  validate_registered_task_params, validate_switch, has_target, has_timeout, text_of, IsSwitch,
}
use one_autojs.TaskRegistry.Execute.{
  ExecutorConfig, refuse, reject, run_script, task_timeout, remaining, refusal, decimal,
  execute_task,
}
use one_autojs.TaskRegistry.Runs.{
  IsChecked, IsBounded, execute_task-IsChecked, execute_task-IsSwitch,
}

abbrev config : ExecutorConfig
config = record {
  allowed_script_ids = "tiktok.post" ∷ "device.network.switch" ∷ [];
  max_params_bytes = 65536;
  max_timeout_ms = 900000;
}

abbrev switch : ℕ → DeviceTaskRequest
switch timeout_ms = record {
  task_id = "task_0001";
  device_id = "phone:1";
  script_id = "device.network.switch";
  script_version = none;
  params = field "target" (str "WiFi") end;
  timeout_ms = of_ℕ timeout_ms;
  created_at = of_ℕ 1000;
  expires_at = of_ℕ 101000;
  trace_id = "trace_0001";
  callback_url = none;
  priority = high;
  preempt_running = false;
}

abbrev switch_script : RegisteredTaskScript
switch_script = record {
  script_id = "device.network.switch";
  kind = autojs;
  file_name = some "device_network_switch.js";
  version = 1;
  default_timeout_ms = 60000;
  max_timeout_ms = 150000;
}

-- The parameters' size, and a routing policy that is valid.
abbrev size : Fields → ℕ
size fields = 17

abbrev accept_policy : Fields → Outcome (Unit {0})
accept_policy fields = ok tt

-- The timeout is cut to the time that is left.
runs :
    execute_task config size accept_policy false 2000 (switch 120000)
    ≡ run_script switch_script (of_ℕ 99000)
unfolding execute_task get_registered_script registry refusal validate_registered_task_params
    validate_switch has_target has_timeout text_of task_timeout get as_number str_eq number_lt
    number_le number_eq number_sub number_add is_finite decimal
runs = refl

no_reserve :
    execute_task config size accept_policy false 2000 (switch 30000)
    ≡ refuse (
        reject "INVALID_PARAMS"
          "Network task timeout must reserve 15000ms for restore and result delivery")
unfolding execute_task get_registered_script registry refusal validate_registered_task_params
    validate_switch has_target has_timeout text_of task_timeout get as_number str_eq number_lt
    number_le number_eq number_sub number_add is_finite decimal
no_reserve = refl

-- A one-element array is converted to its element's text.
array_target : has_target (field "target" (arr (cons (str "Data") nil)) end) ≡ true
unfolding has_target text_of get str_eq
array_target = refl

shows : decimal 65536 ≡ "65536"
unfolding decimal
shows = refl

execute_task-IsChecked_example :
    IsChecked config size accept_policy false 2000 (switch 120000) switch_script
    × IsBounded config 2000 (switch 120000) switch_script (of_ℕ 99000)
execute_task-IsChecked_example =
    execute_task-IsChecked config size accept_policy false 2000 (switch 120000) runs

execute_task-IsSwitch_example : IsSwitch (switch 120000).params (remaining 2000 (switch 120000))
execute_task-IsSwitch_example =
    execute_task-IsSwitch config size accept_policy false 2000 (switch 120000) refl runs
