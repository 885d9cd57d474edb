-- ===== src/TaskRegistry/Params.antt =====
-- `validateRegisteredTaskParams`, the checks of a script's parameters on the device.
use Prim.Native.Nat.{◌+◌}
use one_autojs.Base.{
  refl, subst, ◌⊎◌, inl, inr, number_le, ℕ, String, Bool, true, false, not, ◌&&◌, ◌||◌, Option,
  none, some, List, [], ◌∷◌, ◌++◌, Json, Items, Fields, null, bool, num, str, arr, obj, nil, cons,
  get, as_number, ◌≡◌, arith, str_eq, codes, is_upper, ◌==◌, Number, of_ℕ, number_lt, number_add,
  is_finite, is_integer, Outcome, ok, throw, failing, failing-eq-none, if◌then◌else◌,
}

abbrev bool_text : Bool → List ℕ
bool_text true = codes "true"
bool_text false = codes "false"

-- The text of an array's first element, before the text of the rest, if there is a rest.
abbrev joined : Option (List ℕ) → Items → Option (List ℕ) → Option (List ℕ)
joined first nil rest = first
joined (some s) (cons _ _) (some t) = some (s ++ b',' ∷ t)
joined _ (cons _ _) _ = none

-- `String(value)` as code points. `none` is a text with the decimal form of a number in it, or
-- with Infinity, which is no target's name.
unfoldable mutual
  pub text_of : Json → Option (List ℕ)
  text_of null = some (codes "null")
  text_of (bool b) = some (bool_text b)
  text_of (num n) = none
  text_of (str s) = some (codes s)
  text_of (arr items) = join items
  text_of (obj fields) = some (codes "[object Object]")

  -- `Array.prototype.join`, by which an array is converted: null elements are empty.
  pub join : Items → Option (List ℕ)
  join nil = some []
  join (cons v rest) = joined (element v) rest (join rest)

  pub element : Json → Option (List ℕ)
  element null = some []
  element (bool b) = some (bool_text b)
  element (num n) = none
  element (str s) = some (codes s)
  element (arr items) = join items
  element (obj fields) = some (codes "[object Object]")

-- `toLowerCase`, of which the tests below depend on the ASCII letters only.
abbrev pub to_lower : List ℕ → List ℕ
to_lower [] = []
to_lower (c ∷ s) = (if is_upper c then c + 32 else c) ∷ to_lower s

abbrev pub same_codes : List ℕ → List ℕ → Bool
same_codes [] [] = true
same_codes (c ∷ s) (d ∷ t) = c == d && same_codes s t
same_codes _ _ = false

abbrev pub includes : List String → List ℕ → Bool
includes [] s = false
includes (name ∷ names) s = same_codes (codes name) s || includes names s

-- The right side of `??`: null and undefined give way.
abbrev pub nullish_or : Option Json → Json → Json
nullish_or none other = other
nullish_or (some null) other = other
nullish_or (some v) other = v

abbrev pub network_targets : List String
network_targets = "wifi" ∷ "ethernet" ∷ "carrier" ∷ "cellular" ∷ "mobile" ∷ "data" ∷ []

abbrev is_target : Option (List ℕ) → Bool
is_target none = false
is_target (some s) = includes network_targets (to_lower s)

-- The target of a network switch is one of the six.
unfoldable pub has_target : Fields → Bool
unfolding text_of get
has_target params =
    is_target
      (text_of (nullish_or (get "target" params) (nullish_or (get "network" params) (str "wifi"))))

-- `params.timeoutMs`, which may be absent: at least 1000 and at most 120000.
unfoldable pub has_timeout : Option Json → Bool
unfolding is_finite number_lt
has_timeout none = true
has_timeout (some (num n)) =
    is_finite n && not (number_lt n (of_ℕ 1000)) && not (number_lt (of_ℕ 120000) n)
has_timeout (some _) = false

abbrev pub detection_timeout : Option Number → Number
detection_timeout (some n) = n
detection_timeout none = of_ℕ 20000

-- `taskTimeoutMs < detectionTimeoutMs + 15_000`
abbrev pub lacks_reserve : Option Number → Number → Bool
lacks_reserve none detection = false
lacks_reserve (some task_timeout) detection = number_lt task_timeout (number_add detection 15000)

-- The checks of `device.network.switch`, in their order.
unfoldable pub validate_switch : Fields → Option Number → Option String
unfolding has_target has_timeout get as_number
validate_switch params task_timeout =
    failing (not (has_target params)) "Network target must be wifi, ethernet or carrier" (
      failing (not (has_timeout (get "timeoutMs" params)))
        "Network detection timeoutMs must be between 1000 and 120000"
        (failing
          (lacks_reserve task_timeout (detection_timeout (as_number (get "timeoutMs" params))))
          "Network task timeout must reserve 15000ms for restore and result delivery" none))

abbrev pub is_positive_integer : Option Number → Bool
is_positive_integer none = false
is_positive_integer (some n) = is_integer n && not (number_lt n (of_ℕ 1))

abbrev pub policy_error : Outcome (Unit {0}) → Option String
policy_error (ok _) = none
policy_error (throw message) = some message

-- `validateRegisteredTaskParams`. `parse_policy` is `parseNetworkRoutingPolicy`, of which only its
-- success or its error is used.
unfoldable pub validate_registered_task_params :
    (Fields → Outcome (Unit {0})) → String → Fields → Option Number → Option String
unfolding validate_switch get as_number
validate_registered_task_params parse_policy script_id params task_timeout =
    if str_eq script_id "device.network.routing.apply"
    then policy_error (parse_policy params)
    else if str_eq script_id "device.network.routing.disable"
    then (if is_positive_integer (as_number (get "generation" params))
        then none
        else some "generation must be a positive integer")
    else if str_eq script_id "device.network.switch"
    then validate_switch params task_timeout
    else none

false_of_not : {b : Bool} → not b ≡ false → b ≡ true
false_of_not {b} h = ground arith

-- A given detection timeout is that of the parameters; else it is twenty seconds.
abbrev pub IsDetection : Option Json → Number → Type 0
IsDetection given detection =
    (given ≡ some (num detection)) ⊎ ((given ≡ none) × (detection ≡ of_ℕ 20000))

-- What holds of the parameters of an accepted network switch: the target is the text of one of six
-- networks, and the detection takes one second to two minutes and leaves fifteen seconds.
pub record IsSwitch (params : Fields) (task_timeout : Number) : Type 0 where
  pub target : has_target params ≡ true
  pub detection : Number
  pub given : IsDetection (get "timeoutMs" params) detection
  pub at_least : number_le (of_ℕ 1000) detection ≡ true
  pub at_most : number_le detection (of_ℕ 120000) ≡ true
  pub reserve : number_le (number_add detection 15000) task_timeout ≡ true

has_timeout-le :
    (given : Option Json)
    → has_timeout given ≡ true
    → (detection : Number) × IsDetection given detection
      × (detection_timeout (as_number given) ≡ detection)
      × (number_le (of_ℕ 1000) detection ≡ true)
      × (number_le detection (of_ℕ 120000) ≡ true)
unfolding has_timeout as_number number_le
has_timeout-le none h = (of_ℕ 20000, inr (refl, refl), refl, ground arith, ground arith)
has_timeout-le (some (num n)) h = (n, inl refl, refl, ground (arith, h), ground (arith, h))
has_timeout-le (some null) h = cc
has_timeout-le (some (bool b)) h = cc
has_timeout-le (some (str s)) h = cc
has_timeout-le (some (arr items)) h = cc
has_timeout-le (some (obj fields)) h = cc

pub validate_switch-IsSwitch :
    (params : Fields) (t : Number) → validate_switch params (some t) ≡ none → IsSwitch params t
unfolding validate_switch number_le
validate_switch-IsSwitch params t h =
    let (has, h1) = failing-eq-none (not (has_target params)) _ _ h in
    let (timed, h2) = failing-eq-none (not (has_timeout (get "timeoutMs" params))) _ _ h1 in
    let (reserved, _) = failing-eq-none _ _ _ h2 in
    let (detection, given, same, least, most) =
      has_timeout-le (get "timeoutMs" params) (false_of_not timed) in
    record {
      target = false_of_not has;
      detection = detection;
      given = given;
      at_least = least;
      at_most = most;
      reserve =
          subst (λ d. not (number_lt t (number_add d 15000)) ≡ true) same (not_of_false reserved);
    }
  where
    not_of_false : {b : Bool} → b ≡ false → not b ≡ true
    not_of_false {b} e = ground arith
