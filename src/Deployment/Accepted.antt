-- ===== src/Deployment/Accepted.antt =====
-- What the parser of deployment commands guarantees of a command that it accepts.
use one_autojs.Base.{
  ◌≤◌, ◌≡◌, refl, subst, String, Bool, true, false, not, ◌&&◌, List, [], ◌∷◌, Option, none, some,
  Json, Fields, obj, get, as_record, as_number, Number, of_ℕ, number_lt, number_le, is_integer,
  is_device_id, is_sha256, is_number, str_eq, Outcome, ok, or_throw, >>=-eq-ok, require-eq-ok,
  or_throw-eq-ok, ok-injective, if◌then◌else◌, Bool-cases, inl, inr, All, is_some, ◌>>◌, arith,
}
use one_autojs.Protocol.Parse.{record_of}
use one_autojs.Ops.Parse.{Url, text_field, any_text}
use one_autojs.Ops.Sound.{text_field-test}
use one_autojs.Deployment.Release.{is_release_version}
use one_autojs.Deployment.Fields.{
  DeviceDeploymentCommand, ReleaseDescriptor, EnvironmentDescriptor, Timing, valid_id,
  assert_non_sensitive_config, environment_named, mode_named, secret_keys, forbidden_keys,
  check_forbidden, some_protected, integer_within, integer_field, finite_field,
}
use one_autojs.Deployment.Command.{
  parse_timing, parse_release, parse_environment, parse_device_deployment_command,
}
use one_autojs.Deployment.Config.{
  nested_depth, nested_keys, IsPlainKey, IsSecretKey, assert-depth, assert-keys, secret_keys-All,
}

abbrev pub IsWithin : Number → Number → Number → Type 0
IsWithin lo hi n = (is_integer n ≡ true) × (number_le lo n ≡ true) × (number_le n hi ≡ true)

abbrev pub IsAbsent : Fields → String → Type 0
IsAbsent config key = get key config ≡ none

-- A command that the manager may act on.
pub record IsRelease (url : Url) (r : ReleaseDescriptor) : Type 0 where
  pub version : is_release_version r.version ≡ true
  pub secure : str_eq url.protocol "https:" ≡ true
  pub digest : is_sha256 r.artifact_sha256 ≡ true
  pub size : IsWithin (of_ℕ 1) (of_ℕ 104857600) r.artifact_size

pub record IsEnvironment (e : EnvironmentDescriptor) : Type 0 where
  pub revision : IsWithin (of_ℕ 1) (Number.infinite false) e.revision
  pub managed : All (IsAbsent e.config) forbidden_keys
  pub keys : All IsPlainKey (nested_keys (obj e.config))
  pub depth : nested_depth (obj e.config) ≤ 8
  pub secrets : All IsSecretKey e.required_secret_keys

pub record IsTiming (t : Timing) : Type 0 where
  pub drain : IsWithin (of_ℕ 1000) (of_ℕ 1800000) t.drain_timeout_ms
  pub ordered : number_lt t.created_at t.expires_at ≡ true

pub record IsDeployable (url : Url) (c : DeviceDeploymentCommand) : Type 0 where
  pub deployment_id : valid_id c.deployment_id ≡ true
  pub device_id : is_device_id c.device_id ≡ true
  pub release : IsRelease url c.release
  pub environment : IsEnvironment c.environment
  pub timing : IsTiming c.timing

and_three : (a b c : Bool) → (a && b && c) ≡ true → (a ≡ true) × (b ≡ true) × (c ≡ true)
and_three true true c e = (refl, refl, e)
and_three true false c e = cc
and_three false b c e = cc

integer_field-IsWithin :
    (lo hi : Number) (key : String) (value : Fields) (message : String) {n : Number}
    → integer_field lo hi key value message ≡ ok n
    → IsWithin lo hi n
unfolding integer_field number_le
integer_field-IsWithin lo hi key value message {n} h = of_within (as_number (get key value)) h
  where
    of_within :
        (o : Option Number) → or_throw (integer_within lo hi o) message ≡ ok n → IsWithin lo hi n
    of_within none e = cc
    of_within (some m) e =
        elim (Bool-cases (is_integer m && not (number_lt m lo) && not (number_lt hi m))) [
          | inl fits ↦
              subst (IsWithin lo hi)
                (ok-injective
                  (subst (λ b. or_throw (if b then some m else none) message ≡ ok n) fits e))
                (and_three _ _ _ fits)
          | inr misfit ↦
              let failed =
                subst (λ b. or_throw (if b then some m else none) message ≡ ok n) misfit e in
              cc
        ]

check_forbidden-All :
    (keys : List String) (config : Fields)
    → check_forbidden keys config ≡ ok tt
    → All (IsAbsent config) keys
unfolding check_forbidden
check_forbidden-All [] config h = tt
check_forbidden-All (key ∷ keys) config h =
    let (a, r) = require-eq-ok (not (is_some (get key config))) _ _ h in
    (absent (get key config) a, check_forbidden-All keys config r)
  where
    absent : (o : Option Json) → not (is_some o) ≡ true → o ≡ none
    absent none e = refl
    absent (some v) e = cc

then_ok {ℓ} :
    {A : Type ℓ} (first : Outcome (Unit {0})) {a : A} (next : Outcome A)
    → (first >> next) ≡ ok a
    → (first ≡ ok tt) × (next ≡ ok a)
then_ok (Outcome.ok tt) next h = (refl, h)
then_ok (Outcome.throw e) next h = cc

not-true : (a : Bool) → not a ≡ true → a ≡ false
not-true true e = cc
not-true false e = refl

parse_release-IsRelease :
    (parse_url : String → Outcome Url) (release : Fields) {r : ReleaseDescriptor}
    → parse_release parse_url release ≡ ok r
    → (url : Url) × (parse_url r.artifact_url ≡ ok url) × IsRelease url r
unfolding parse_release
parse_release-IsRelease parse_url release h6 =
    let (version, d, h7) = >>=-eq-ok (text_field is_release_version "version" release _) _ h6 in
    let (artifact_url, _, h8) = >>=-eq-ok (text_field any_text "artifactUrl" release _) _ h7 in
    let (url, parsed, h9) = >>=-eq-ok (parse_url artifact_url) _ h8 in
    let (secure, h10) = require-eq-ok (str_eq url.protocol "https:") _ _ h9 in
    let (sha256, e, h11) = >>=-eq-ok (text_field is_sha256 "artifactSha256" release _) _ h10 in
    let (size, f, h12) =
      >>=-eq-ok (integer_field (of_ℕ 1) (of_ℕ 104857600) "artifactSize" release _) _ h11 in
    (
      url,
      subst (λ x. parse_url x.artifact_url ≡ ok url) (ok-injective h12) parsed,
      subst (IsRelease url) (ok-injective h12) (record {
        version = text_field-test is_release_version "version" release _ d;
        secure = secure;
        digest = text_field-test is_sha256 "artifactSha256" release _ e;
        size = integer_field-IsWithin (of_ℕ 1) (of_ℕ 104857600) "artifactSize" release _ f;
      }),
    )

parse_environment-IsEnvironment :
    (environment : Fields) {e : EnvironmentDescriptor}
    → parse_environment environment ≡ ok e
    → IsEnvironment e
unfolding parse_environment
parse_environment-IsEnvironment environment h12 =
    let (name, _, h13) = or_throw-eq-ok (environment_named (get "name" environment)) _ _ h12 in
    let (revision, g, h14) =
      >>=-eq-ok (integer_field (of_ℕ 1) (Number.infinite false) "revision" environment _) _ h13 in
    let (config, _, h15) = or_throw-eq-ok (record_of (get "config" environment)) _ _ h14 in
    let (keys, k, h16) =
      or_throw-eq-ok (secret_keys (get "requiredSecretKeys" environment)) _ _ h15 in
    let (forbidden, h17) = then_ok (check_forbidden forbidden_keys config) _ h16 in
    let (unprotected, h18) = require-eq-ok (not (some_protected keys)) _ _ h17 in
    let (plain, h19) = then_ok (assert_non_sensitive_config (obj config) 0) _ h18 in
    subst IsEnvironment (ok-injective h19) (record {
      revision = integer_field-IsWithin (of_ℕ 1) (Number.infinite false) "revision" environment _ g;
      managed = check_forbidden-All forbidden_keys config forbidden;
      keys = assert-keys (obj config) 0 plain;
      depth = deep config plain;
      secrets = secret_keys-All (get "requiredSecretKeys" environment) k (not-true _ unprotected);
    })
  where
    deep :
        (config : Fields)
        → assert_non_sensitive_config (obj config) 0 ≡ ok tt
        → nested_depth (obj config) ≤ 8
    deep config plain = omega (arith, assert-depth (obj config) 0 plain)

parse_timing-IsTiming : (value : Fields) {t : Timing} → parse_timing value ≡ ok t → IsTiming t
unfolding parse_timing
parse_timing-IsTiming value h19 =
    let (mode, _, h20) = or_throw-eq-ok (mode_named (get "activationMode" value)) _ _ h19 in
    let (drain, t, h21) =
      >>=-eq-ok (integer_field (of_ℕ 1000) (of_ℕ 1800000) "drainTimeoutMs" value _) _ h20 in
    let (created_at, _, h22) = >>=-eq-ok (finite_field "createdAt" value _) _ h21 in
    let (expires_at, _, h23) = >>=-eq-ok (finite_field "expiresAt" value _) _ h22 in
    let (ordered, h24) = require-eq-ok (number_lt created_at expires_at) _ _ h23 in
    subst IsTiming (ok-injective h24) (record {
      drain = integer_field-IsWithin (of_ℕ 1000) (of_ℕ 1800000) "drainTimeoutMs" value _ t;
      ordered = ordered;
    })

-- An accepted command has an HTTPS artifact of 1 to 104857600 bytes with a SHA-256 digest, a
-- revision from 1 on, a drain timeout of 1 second to 30 minutes, all integers, and an expiry after
-- its creation. Its configuration is at most 8 levels deep, has no sensitive key at any depth and no
-- management field at its top, and the secrets that it asks for are environment names that are not
-- management credentials.
pub parse_device_deployment_command-IsDeployable :
    (parse_url : String → Outcome Url) (payload : Json) {c : DeviceDeploymentCommand}
    → parse_device_deployment_command parse_url payload ≡ ok c
    → (url : Url) × (parse_url c.release.artifact_url ≡ ok url) × IsDeployable url c
unfolding parse_device_deployment_command
parse_device_deployment_command-IsDeployable parse_url payload {c} h0 =
    let (value, _, h1) = or_throw-eq-ok (as_record payload) _ _ h0 in
    let (_, h2) = require-eq-ok (is_number (of_ℕ 1) (get "protocolVersion" value)) _ _ h1 in
    let (deployment_id, a, h3) = >>=-eq-ok (text_field valid_id "deploymentId" value _) _ h2 in
    let (device_id, b, h4) = >>=-eq-ok (text_field is_device_id "deviceId" value _) _ h3 in
    let (release_part, _, h5) = or_throw-eq-ok (record_of (get "release" value)) _ _ h4 in
    let (environment_part, _, h6) = or_throw-eq-ok (record_of (get "environment" value)) _ _ h5 in
    let (release, r, h7) = >>=-eq-ok (parse_release parse_url release_part) _ h6 in
    let (environment, e, h19) = >>=-eq-ok (parse_environment environment_part) _ h7 in
    let (timing, t, h24) = >>=-eq-ok (parse_timing value) _ h19 in
    let (url, parsed, sound) = parse_release-IsRelease parse_url release_part r in
    (
      url,
      subst (λ x. parse_url x.release.artifact_url ≡ ok url) (ok-injective h24) parsed,
      subst (IsDeployable url) (ok-injective h24) (record {
        deployment_id = text_field-test valid_id "deploymentId" value _ a;
        device_id = text_field-test is_device_id "deviceId" value _ b;
        release = sound;
        environment = parse_environment-IsEnvironment environment_part e;
        timing = parse_timing-IsTiming value t;
      }),
    )
