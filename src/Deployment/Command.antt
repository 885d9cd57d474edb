-- ===== src/Deployment/Command.antt =====
-- `parseDeviceDeploymentCommand` of mobile/src/deployment-protocol.ts.
use one_autojs.Base.{
  String, false, not, Json, Fields, obj, get, as_record, is_number, Number, of_ℕ, number_lt,
  is_device_id, is_sha256, str_eq, Outcome, ok, ◌>>=◌, ◌>>◌, require, or_throw,
}
use one_autojs.Protocol.Parse.{record_of}
use one_autojs.Ops.Parse.{Url, text_field, any_text}
use one_autojs.Deployment.Release.{is_release_version}
use one_autojs.Deployment.Fields.{
  ReleaseDescriptor, EnvironmentDescriptor, Timing, DeviceDeploymentCommand, valid_id,
  assert_non_sensitive_config, environment_named, mode_named, secret_keys, distinct, forbidden_keys,
  check_forbidden, some_protected, integer_field, finite_field,
}

-- The tests on the release; `parse_url` is `new URL`. The operands of one test throw the same error.
unfoldable pub parse_release : (String → Outcome Url) → Fields → Outcome ReleaseDescriptor
parse_release parse_url release = do
  version ← text_field is_release_version "version" release "Invalid deployment release descriptor"
  artifact_url ← text_field any_text "artifactUrl" release "Invalid deployment release descriptor"
  url ← parse_url artifact_url
  require (str_eq url.protocol "https:") "Invalid deployment release descriptor"
  sha256 ← text_field is_sha256 "artifactSha256" release "Invalid deployment release descriptor"
  size ←
      integer_field (of_ℕ 1) (of_ℕ 104857600) "artifactSize" release
        "Invalid deployment release descriptor"
  ok (record {
    version = version;
    artifact_url = artifact_url;
    artifact_sha256 = sha256;
    artifact_size = size;
  })

-- The tests on the environment.
unfoldable pub parse_environment : Fields → Outcome EnvironmentDescriptor
parse_environment environment = do
  name ← or_throw (environment_named (get "name" environment)) "Unsupported deployment environment"
  revision ←
      integer_field (of_ℕ 1) (Number.infinite false) "revision" environment
        "Invalid deployment environment descriptor"
  config ←
      or_throw (record_of (get "config" environment)) "Invalid deployment environment descriptor"
  keys ←
      or_throw (secret_keys (get "requiredSecretKeys" environment))
        "Invalid deployment environment descriptor"
  check_forbidden forbidden_keys config
  require (not (some_protected keys)) "Environment secrets cannot include management credentials"
  assert_non_sensitive_config (obj config) 0
  ok (record {
    name = name;
    revision = revision;
    config = config;
    required_secret_keys = distinct keys;
  })

-- The tests on the activation mode and the times.
unfoldable pub parse_timing : Fields → Outcome Timing
parse_timing value = do
  mode ← or_throw (mode_named (get "activationMode" value)) "Unsupported deployment activation mode"
  drain ←
      integer_field (of_ℕ 1000) (of_ℕ 1800000) "drainTimeoutMs" value
        "Invalid deployment timing policy"
  created_at ← finite_field "createdAt" value "Invalid deployment timing policy"
  expires_at ← finite_field "expiresAt" value "Invalid deployment timing policy"
  require (number_lt created_at expires_at) "Invalid deployment timing policy"
  ok (record {
    activation_mode = mode;
    drain_timeout_ms = drain;
    created_at = created_at;
    expires_at = expires_at;
  })

-- `parseDeviceDeploymentCommand`
unfoldable pub parse_device_deployment_command :
    (String → Outcome Url) → Json → Outcome DeviceDeploymentCommand
parse_device_deployment_command parse_url payload = do
  value ← or_throw (as_record payload) "Invalid deployment command envelope"
  require (is_number (of_ℕ 1) (get "protocolVersion" value)) "Invalid deployment command envelope"
  deployment_id ← text_field valid_id "deploymentId" value "Invalid deployment command envelope"
  device_id ← text_field is_device_id "deviceId" value "Invalid deployment command envelope"
  release_part ← or_throw (record_of (get "release" value)) "Invalid deployment command envelope"
  environment_part ←
      or_throw (record_of (get "environment" value)) "Invalid deployment command envelope"
  release ← parse_release parse_url release_part
  environment ← parse_environment environment_part
  timing ← parse_timing value
  ok (record {
    deployment_id = deployment_id;
    device_id = device_id;
    release = release;
    environment = environment;
    timing = timing;
  })
