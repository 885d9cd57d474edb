-- ===== src/TaskRegistry/Runs.antt =====
-- What is known of a task whose script is run.
use one_autojs.Base.{
  ℕ, ◌≡◌, refl, sym, ap, subst, ◌∙◌, String, Bool, true, false, Option, none, some, some_inj, List,
  [], ◌∷◌, Fields, str_eq, eq_iff, Bool-cases, inl, inr, ltb, Number, of_ℕ, number_le, number_sub,
  number_min, number_max, number_max-le, number_max-least, number_min-le, number_le_trans, Outcome,
  failing-eq-none, if_true, if_false,
}
use one_autojs.Protocol.{DeviceTaskRequest}
use one_autojs.TaskRegistry.{
  ScriptKind, autojs, client, RegisteredTaskScript, find_script, registry, get_registered_script,
}
use one_autojs.TaskRegistry.Params.{
  validate_registered_task_params, IsSwitch, validate_switch-IsSwitch,
}
use one_autojs.TaskRegistry.Execute.{
  ExecutorConfig, Refusal, Verdict, run_client, run_script, includes_id, other_version,
  task_timeout, remaining, refusal, judge, verdict_for, execute_task, invalid_params,
}

find_script-script_id :
    (script_id : String) (items : List RegisteredTaskScript) {d : RegisteredTaskScript}
    → find_script script_id items ≡ some d
    → d.script_id ≡ script_id
find_script-script_id script_id [] h = cc
find_script-script_id script_id (item ∷ items) {d} h =
    elim (Bool-cases (str_eq item.script_id script_id)) [
      | inl same ↦
          sym (ap (λ (x : RegisteredTaskScript). x.script_id) (some_inj (if_true _ _ same h)))
          ∙ (eq_iff item.script_id script_id).0 same
      | inr other ↦ find_script-script_id script_id items (if_false _ _ other h)
    ]

-- The timeout is between a second and what the script, the client and the task's expiry allow.
abbrev pub IsBounded :
    ExecutorConfig → ℕ → DeviceTaskRequest → RegisteredTaskScript → Number → Type 0
IsBounded config now request d t =
    (number_le (of_ℕ 1000) t ≡ true)
    × (number_le t (number_max (of_ℕ 1000) (of_ℕ d.max_timeout_ms)) ≡ true)
    × (number_le t (number_max (of_ℕ 1000) (of_ℕ config.max_timeout_ms)) ≡ true)
    × (number_le t (number_max (of_ℕ 1000) (number_sub request.expires_at now)) ≡ true)

number_max_mono :
    (a b c : Number) → number_le b c ≡ true → number_le (number_max a b) (number_max a c) ≡ true
number_max_mono a b c h =
    let (left, right) = number_max-le a c in
    number_max-least a b (number_max a c) left (number_le_trans b c (number_max a c) h right)

task_timeout-IsBounded :
    (config : ExecutorConfig) (now : ℕ) (request : DeviceTaskRequest) (d : RegisteredTaskScript)
    → IsBounded config now request d (task_timeout config now request d)
unfolding task_timeout
task_timeout-IsBounded config now request d = clamped _ _ _ _
  where
    clamped :
        (asked s c e : Number)
        → let t = number_max (of_ℕ 1000) (number_min asked (number_min s (number_min c e))) in
          (number_le (of_ℕ 1000) t ≡ true)
          × (number_le t (number_max (of_ℕ 1000) s) ≡ true)
          × (number_le t (number_max (of_ℕ 1000) c) ≡ true)
          × (number_le t (number_max (of_ℕ 1000) e) ≡ true)
    clamped asked s c e =
        let (_, inner) = number_min-le asked (number_min s (number_min c e)) in
        let (to_s, rest) = number_min-le s (number_min c e) in
        let (to_c, to_e) = number_min-le c e in
        let (least, _) =
          number_max-le (of_ℕ 1000) (number_min asked (number_min s (number_min c e))) in
        let under = number_le_trans _ _ _ inner rest in
        (
          least,
          number_max_mono _ _ _ (number_le_trans _ _ _ inner to_s),
          number_max_mono _ _ _ (number_le_trans _ _ _ under to_c),
          number_max_mono _ _ _ (number_le_trans _ _ _ under to_e),
        )

invalid_params-eq-none :
    (o : Option String) (rest : Option Refusal)
    → invalid_params o rest ≡ none
    → (o ≡ none) × (rest ≡ none)
invalid_params-eq-none none rest h = (refl, h)
invalid_params-eq-none (some message) rest h = cc

module _ (config : ExecutorConfig) (params_bytes : Fields → ℕ)
    (parse_policy : Fields → Outcome (Unit {0})) (routing_active : Bool) where
  -- What `executeTask` has checked of a task that it does not refuse.
  pub record IsChecked (now : ℕ) (request : DeviceTaskRequest) (d : RegisteredTaskScript)
      : Type 0 where
    pub registered : get_registered_script request.script_id ≡ some d
    pub same_id : d.script_id ≡ request.script_id
    pub allowed : includes_id request.script_id config.allowed_script_ids ≡ true
    pub version : other_version request.script_version d.version ≡ false
    pub alive : number_le request.expires_at (of_ℕ now) ≡ false
    pub small : ltb config.max_params_bytes (params_bytes request.params) ≡ false
    pub valid :
        validate_registered_task_params parse_policy request.script_id request.params
          (some (remaining now request))
        ≡ none

  refusal-eq-none :
      (now : ℕ) (request : DeviceTaskRequest) (d : RegisteredTaskScript)
      → refusal config params_bytes parse_policy routing_active now request d ≡ none
      → (other_version request.script_version d.version ≡ false)
        × (number_le request.expires_at (of_ℕ now) ≡ false)
        × (ltb config.max_params_bytes (params_bytes request.params) ≡ false)
        × (validate_registered_task_params parse_policy request.script_id request.params
              (some (remaining now request))
            ≡ none)
  unfolding refusal
  refusal-eq-none now request d h =
      let (version, h1) = failing-eq-none (other_version request.script_version d.version) _ _ h in
      let (alive, h2) = failing-eq-none (number_le request.expires_at (of_ℕ now)) _ _ h1 in
      let (small, h3) =
        failing-eq-none (ltb config.max_params_bytes (params_bytes request.params)) _ _ h2 in
      let (valid, _) = invalid_params-eq-none _ _ h3 in (version, alive, small, valid)

  run_script_of :
      (now : ℕ) (request : DeviceTaskRequest) (e : RegisteredTaskScript) (o : Option Refusal)
      {d : RegisteredTaskScript} {t : Number}
      → verdict_for config params_bytes parse_policy routing_active now request e o ≡ run_script d t
      → (o ≡ none) × (e ≡ d) × (t ≡ task_timeout config now request e)
  run_script_of now request e (some r) h = cc
  run_script_of now request e none {d} {t} h =
      let (same, timed) = by_kind e.kind h in (refl, same, timed)
    where
      by_kind :
          (k : ScriptKind) {d : RegisteredTaskScript} {t : Number}
          → elim k as (λ _. Verdict) [
            | client ↦ run_client e
            | autojs ↦ run_script e (task_timeout config now request e)
          ]
            ≡ run_script d t
          → (e ≡ d) × (t ≡ task_timeout config now request e)
      by_kind autojs h = (cc, cc)
      by_kind client h = cc

  checked :
      (now : ℕ) (request : DeviceTaskRequest) (o : Option RegisteredTaskScript)
      {d : RegisteredTaskScript} {t : Number}
      → get_registered_script request.script_id ≡ o
      → judge config params_bytes parse_policy routing_active now request o ≡ run_script d t
      → IsChecked now request d × (t ≡ task_timeout config now request d)
  unfolding get_registered_script registry
  checked now request none known h = cc
  checked now request (some e) {d} {t} known h =
      elim (Bool-cases (includes_id request.script_id config.allowed_script_ids)) [
        | inr denied ↦ let refused = if_false _ _ denied h in cc
        | inl allowed ↦
            let (fine, same, timed) =
              run_script_of now request e
                (refusal config params_bytes parse_policy routing_active now request e)
                (if_true _ _ allowed h) in
            let (version, alive, small, valid) = refusal-eq-none now request e fine in
            subst (λ x. IsChecked now request x × (t ≡ task_timeout config now request x)) same
              (
                record {
                  registered = known;
                  same_id = find_script-script_id request.script_id registry known;
                  allowed = allowed;
                  version = version;
                  alive = alive;
                  small = small;
                  valid = valid;
                },
                timed,
              )
      ]

  -- A script that `executeTask` runs is registered under the task's id, allowed by the configuration
  -- and of the requested version; the task has not expired, its parameters are within the size limit
  -- and valid for the time that is left; and the script's timeout is at least a second and at most
  -- what its registration, the configuration and the task's expiry allow, or a second.
  pub execute_task-IsChecked :
      (now : ℕ) (request : DeviceTaskRequest) {d : RegisteredTaskScript} {t : Number}
      → execute_task config params_bytes parse_policy routing_active now request ≡ run_script d t
      → IsChecked now request d × IsBounded config now request d t
  unfolding execute_task
  execute_task-IsChecked now request {d} h =
      let (is_checked, timed) =
        checked now request (get_registered_script request.script_id) refl h in
      (
        is_checked,
        subst (λ x. IsBounded config now request d x) (sym timed)
            (task_timeout-IsBounded config now request d),
      )

  -- A network switch that is run names one of the known targets. Its detection timeout, twenty
  -- seconds if none is given, is between one second and two minutes. The time the task has left when
  -- its parameters are checked, the smaller one of its own timeout and the time to its expiry, is at
  -- least fifteen seconds more.
  pub execute_task-IsSwitch :
      (now : ℕ) (request : DeviceTaskRequest) {d : RegisteredTaskScript} {t : Number}
      → request.script_id ≡ "device.network.switch"
      → execute_task config params_bytes parse_policy routing_active now request ≡ run_script d t
      → IsSwitch request.params (remaining now request)
  unfolding validate_registered_task_params str_eq
  execute_task-IsSwitch now request is_switch h =
      let (v, _) = execute_task-IsChecked now request h in
      let valid = v.valid in
      let switching =
        subst
          (λ id.
            validate_registered_task_params parse_policy id request.params
              (some (remaining now request))
            ≡ none)
          is_switch valid in
      validate_switch-IsSwitch request.params (remaining now request) switching
