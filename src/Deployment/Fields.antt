-- ===== src/Deployment/Fields.antt =====
-- The types of mobile/src/deployment-protocol.ts, and its tests on single fields of a command.
use Prim.Native.Nat.{◌+◌}
use Prim.Native.String
use one_autojs.Base.{
  ℕ, String, Bool, true, false, not, ◌&&◌, ◌||◌, List, [], ◌∷◌, Option, none, some, Json, Items,
  Fields, null, bool, num, str, arr, obj, nil, cons, end, field, get, as_number, Number, number_lt,
  is_finite, is_integer, codes, matches_class, is_digit, is_upper, str_eq, leb, ◌==◌, Outcome, ok,
  ◌>>◌, require, or_throw, if◌then◌else◌, is_some,
}

pub data DeploymentActivationMode : Type 0 where
  graceful force : DeploymentActivationMode

pub data DeploymentPhase : Type 0 where
  pending staging draining preempting activating verifying : DeploymentPhase
  succeeded failed rolled_back timed_out cancelled : DeploymentPhase

pub data EnvironmentName : Type 0 where
  development staging production : EnvironmentName

-- The parts of a `DeviceDeploymentCommand`.
pub record ReleaseDescriptor : Type 0 where
  pub version : String
  pub artifact_url : String
  pub artifact_sha256 : String
  pub artifact_size : Number

pub record EnvironmentDescriptor : Type 0 where
  pub name : EnvironmentName
  pub revision : Number
  pub config : Fields
  pub required_secret_keys : List String

pub record Timing : Type 0 where
  pub activation_mode : DeploymentActivationMode
  pub drain_timeout_ms : Number
  pub created_at : Number
  pub expires_at : Number

pub record DeviceDeploymentCommand : Type 0 where
  pub deployment_id : String
  pub device_id : String
  pub release : ReleaseDescriptor
  pub environment : EnvironmentDescriptor
  pub timing : Timing

abbrev deployment_char : ℕ → Bool
deployment_char c = is_digit c || leb b'a' c && leb c b'f' || leb b'A' c && leb c b'F' || c == b'-'

-- `validId`
unfoldable pub valid_id : String → Bool
valid_id = matches_class deployment_char 36 36

-- The letters of a pattern with the flag `i`.
abbrev lower : ℕ → ℕ
lower c = if is_upper c then c + 32 else c

abbrev starts_with_word : List ℕ → List ℕ → Bool
starts_with_word [] s = true
starts_with_word (w ∷ word) [] = false
starts_with_word (w ∷ word) (c ∷ s) = lower c == w && starts_with_word word s

abbrev mentions : List ℕ → List ℕ → Bool
mentions word [] = starts_with_word word []
mentions word (c ∷ s) = starts_with_word word (c ∷ s) || mentions word s

-- `/(password|token|secret|credential)/i.test(key)`
unfoldable pub is_sensitive : String → Bool
is_sensitive key =
    mentions (codes "password") (codes key)
    || mentions (codes "token") (codes key)
    || mentions (codes "secret") (codes key)
    || mentions (codes "credential") (codes key)

-- `assertNonSensitiveConfig`, whose loops over items and entries are the other two functions.
unfoldable mutual
  pub assert_non_sensitive_config : Json → ℕ → Outcome (Unit {0})
  assert_non_sensitive_config null depth =
      require (leb depth 8) "Environment config is too deeply nested"
  assert_non_sensitive_config (bool b) depth =
      require (leb depth 8) "Environment config is too deeply nested"
  assert_non_sensitive_config (num n) depth =
      require (leb depth 8) "Environment config is too deeply nested"
  assert_non_sensitive_config (str s) depth =
      require (leb depth 8) "Environment config is too deeply nested"
  assert_non_sensitive_config (arr items) depth =
      require (leb depth 8) "Environment config is too deeply nested"
      >> assert_items items (depth + 1)
  assert_non_sensitive_config (obj fields) depth =
      require (leb depth 8) "Environment config is too deeply nested"
      >> assert_entries fields (depth + 1)

  pub assert_items : Items → ℕ → Outcome (Unit {0})
  assert_items nil depth = ok tt
  assert_items (cons value rest) depth =
      assert_non_sensitive_config value depth >> assert_items rest depth

  pub assert_entries : Fields → ℕ → Outcome (Unit {0})
  assert_entries end depth = ok tt
  assert_entries (field key value rest) depth =
      require (not (is_sensitive key))
        (String.◌++◌ "Environment config contains sensitive key: " key)
      >> (assert_non_sensitive_config value depth >> assert_entries rest depth)

unfoldable pub environment_named : Option Json → Option EnvironmentName
environment_named (some (str name)) =
    if str_eq name "development"
    then some development
    else if str_eq name "staging"
    then some EnvironmentName.staging
    else if str_eq name "production"
    then some production
    else none
environment_named _ = none

unfoldable pub mode_named : Option Json → Option DeploymentActivationMode
mode_named (some (str name)) =
    if str_eq name "GRACEFUL"
    then some graceful
    else if str_eq name "FORCE"
    then some force
    else none
mode_named _ = none

abbrev secret_char : ℕ → Bool
secret_char c = is_upper c || is_digit c || c == b'_'

abbrev starts_upper : List ℕ → Bool
starts_upper [] = false
starts_upper (c ∷ s) = is_upper c

-- `/^[A-Z][A-Z0-9_]{0,99}$/`
unfoldable pub is_secret_key : String → Bool
is_secret_key key = matches_class secret_char 1 100 key && starts_upper (codes key)

abbrev pub checked_texts : Option String → Option (List String) → Option (List String)
checked_texts (some s) (some rest) = some (s ∷ rest)
checked_texts _ _ = none

abbrev pub secret_key : Json → Option String
secret_key (str s) = if is_secret_key s then some s else none
secret_key _ = none

abbrev pub secret_items : Items → Option (List String)
secret_items nil = some []
secret_items (cons value rest) = checked_texts (secret_key value) (secret_items rest)

-- `Array.isArray(keys) && keys.every(…)`
unfoldable pub secret_keys : Option Json → Option (List String)
secret_keys (some (arr items)) = secret_items items
secret_keys _ = none

unfoldable pub list_has : String → List String → Bool
list_has x [] = false
list_has x (y ∷ ys) = str_eq y x || list_has x ys

abbrev pub append_new : String → List String → List String
append_new x [] = x ∷ []
append_new x (y ∷ ys) = if str_eq y x then y ∷ ys else y ∷ append_new x ys

abbrev pub add_all : List String → List String → List String
add_all set [] = set
add_all set (x ∷ xs) = add_all (append_new x set) xs

-- `[...new Set(keys)]`
unfoldable pub distinct : List String → List String
distinct keys = add_all [] keys

abbrev pub forbidden_keys : List String
forbidden_keys = "deviceId" ∷ "mqtt" ∷ "report" ∷ []

abbrev pub protected_secret_keys : List String
protected_secret_keys =
    "EMQX_PROTOCOL" ∷ "EMQX_USERNAME" ∷ "EMQX_PASSWORD" ∷ "EMQX_HOST" ∷ "EMQX_PORT"
    ∷ "AUTOJS6_REPORT_URL" ∷ "AUTOJS6_REPORT_TOKEN" ∷ []

-- The loop over the management fields.
unfoldable pub check_forbidden : List String → Fields → Outcome (Unit {0})
check_forbidden [] config = ok tt
check_forbidden (key ∷ keys) config =
    require (not (is_some (get key config)))
      (String.◌++◌ "Environment config cannot override management field: " key)
    >> check_forbidden keys config

unfoldable pub some_protected : List String → Bool
some_protected [] = false
some_protected (key ∷ keys) = list_has key protected_secret_keys || some_protected keys

-- A number field that is an integer within bounds; no upper bound is the infinite one.
abbrev pub integer_within : Number → Number → Option Number → Option Number
integer_within lo hi none = none
integer_within lo hi (some n) =
    if is_integer n && not (number_lt n lo) && not (number_lt hi n) then some n else none

unfoldable pub integer_field : Number → Number → String → Fields → String → Outcome Number
integer_field lo hi key value message =
    or_throw (integer_within lo hi (as_number (get key value))) message

abbrev finite_number : Option Number → Option Number
finite_number none = none
finite_number (some n) = if is_finite n then some n else none

unfoldable pub finite_field : String → Fields → String → Outcome Number
finite_field key value message = or_throw (finite_number (as_number (get key value))) message
