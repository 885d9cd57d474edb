-- ===== src/Deployment/Tests.antt =====
-- Runs of the deployment manager and of its parsers on concrete data.
use Prim.Native.Nat.{◌*◌}
use one_autojs.Base.{
  ◌≢◌, ◌+◌, ◌≡◌, ◌⊎◌, refl, String, true, false, ◌||◌, ◌&&◌, not, [], ◌∷◌, none, some, none≢some,
  Json, num, str, arr, obj, nil, cons, end, field, of_ℕ, codes, Outcome, find, put, arith,
  number_add, number_le, zero, suc, as_record, is_number, get, as_string, matches_class,
  is_device_id, is_sha256, as_number, is_integer, number_lt, is_finite, number_eq,
}
use one_autojs.Ops.Parse.{Url, text_field}
use one_autojs.Protocol.Parse.{record_of}
use one_autojs.Deployment.Archive.{
  is_empty, is_absolute, has_control, strip_dot_slash, resolve, segments, render, normalize,
  dirname, before_last, safe_archive_path, link_path, is_safe_archive_symlink,
}
use one_autojs.Deployment.Walk.{walk, stays_inside}
use one_autojs.Deployment.Inside.{safe_archive_path-eq-walk}
use one_autojs.Deployment.Release.{
  digest_of, file_entry, is_file_path, is_git_commit, is_release_version, is_supervisor_compatible,
  parse_files, parse_release_manifest, parse_version,
}
use one_autojs.Deployment.Fields.{
  EnvironmentName, graceful, DeviceDeploymentCommand, valid_id, integer_field,
  assert_non_sensitive_config, assert_entries, check_forbidden, distinct, environment_named,
  finite_field, is_secret_key, is_sensitive, list_has, mode_named, secret_keys, some_protected,
}
use one_autojs.Deployment.Command.{
  parse_device_deployment_command, parse_release, parse_environment, parse_timing,
}
use one_autojs.Deployment.Accepted.{IsDeployable, parse_device_deployment_command-IsDeployable}
use one_autojs.Deployment.Unpack.{
  done, Tree, write_artifact_stream, write_chunks, validate_archive, check_entries, check_lines,
  check_line, check_link, after_last, verify_file, verify_files, verify_release,
}
use one_autojs.Deployment.Stage.{
  Download, Disk, check_archive, write_marker, without, clear_temporary, after_refusal,
  temporary_name, PendingActivation, stage, ensure_release, download_release, finish_stage,
  pending_activation, write_config,
}
use one_autojs.Deployment.Ensure.{IsIntact}
use one_autojs.Deployment.Installed.{IsPrepared, stage-IsIntact}
use one_autojs.Deployment.Manager.{World, Manager, Handled, handle, block_id}
use one_autojs.Deployment.Activation.{activations}
use one_autojs.Deployment.Warranted.{IsWarranted, handle-IsWarranted}
use one_autojs.Deployment.Waiting.{IsPolled, handle-total}
use one_autojs.Deployment.Cases.{IsRefused}
use one_autojs.Deployment.Blocking.{IsSettled, handle-Blocks}
use one_autojs.Deployment.Progress.{IsUnhindered, IsIdleInTime, handle-activates}

normalized : normalize (codes "a//b/./../c/") ≡ codes "a/c/"
unfolding normalize resolve segments render
normalized = refl

escaping : safe_archive_path (codes "dist/../../etc") ≡ false
unfolding safe_archive_path strip_dot_slash normalize resolve segments render
escaping = refl

-- After `./` a slash may follow, and what is left is read as an absolute path.
doubled_slash : safe_archive_path (codes ".//../etc") ≡ true
unfolding safe_archive_path strip_dot_slash normalize resolve segments render
doubled_slash = refl

doubled_slash_escapes : stays_inside (codes ".//../etc") ≡ false
unfolding stays_inside walk segments
doubled_slash_escapes = refl

link_up : is_safe_archive_symlink (codes "bin/tool") (codes "../../etc/passwd") ≡ false
unfolding is_safe_archive_symlink link_path dirname before_last safe_archive_path strip_dot_slash
    normalize resolve segments render
link_up = refl

link_inside : is_safe_archive_symlink (codes "bin/tool") (codes "../dist/tool.js") ≡ true
unfolding is_safe_archive_symlink link_path dirname before_last safe_archive_path strip_dot_slash
    normalize resolve segments render
link_inside = refl

safe_archive_path-eq-walk_example : safe_archive_path (codes "dist/../../etc") ≡ (
    not (
      is_empty (codes "dist/../../etc")
      || is_absolute (codes "dist/../../etc")
      || has_control (codes "dist/../../etc"))
    && (is_absolute (strip_dot_slash (codes "dist/../../etc"))
        || stays_inside (strip_dot_slash (codes "dist/../../etc"))))
safe_archive_path-eq-walk_example = safe_archive_path-eq-walk (codes "dist/../../etc")

version_with_label : is_release_version "v1.20.3-rc.1" ≡ true
unfolding is_release_version
version_with_label = refl

version_with_zero : is_release_version "v01.2.3" ≡ false
unfolding is_release_version
version_with_zero = refl

too_new : is_supervisor_compatible "1.0.1" ≡ false
unfolding is_supervisor_compatible
too_new = refl

abbrev sha : String
sha = "0123456789abcdef0123456789abcdef0123456789abcdef0123456789abcdef"

abbrev manifest : Json
manifest = obj (
    field "formatVersion" (num (of_ℕ 1)) (
      field "releaseVersion" (str "v1.2.3") (
        field "packageVersion" (str "1.2.3") (
          field "gitCommit" (str "abcdef0") (
            field "createdAt" (str "today") (
              field "protocolVersion" (num (of_ℕ 2)) (
                field "deploymentProtocolVersion" (num (of_ℕ 1)) (
                  field "minimumSupervisorVersion" (str "1.0.0") (
                    field "entrypoint" (str "dist/client.js")
                      (field "files" (obj (field "dist/client.js" (str sha) end)) end))))))))))

abbrev payload : Json
payload = obj (
    field "protocolVersion" (num (of_ℕ 1)) (
      field "deploymentId" (str "00000000-0000-0000-0000-00000000000a") (
        field "deviceId" (str "phone-1") (
          field "release"
            (obj (
              field "version" (str "v1.2.3") (
                field "artifactUrl" (str "https://releases/1.tgz")
                  (field "artifactSha256" (str sha) (field "artifactSize" (num (of_ℕ 300)) end)))))
            (field "environment"
              (obj (
                field "name" (str "staging") (
                  field "revision" (num (of_ℕ 4)) (
                    field "config" (obj (field "retries" (num (of_ℕ 3)) end))
                      (field "requiredSecretKeys" (arr (cons (str "API_KEY") nil)) end)))))
              (field "activationMode" (str "GRACEFUL") (
                field "drainTimeoutMs" (num (of_ℕ 60000)) (
                  field "createdAt" (num (of_ℕ 1000))
                    (field "expiresAt" (num (of_ℕ 900000)) end)))))))))

abbrev parse_url : String → Outcome Url
parse_url s = Outcome.ok (record {
  protocol = "https:";
  hostname = "releases";
  username = "";
  password = "";
  search = "";
  hash = "";
  origin = "https://releases";
  href = s;
})

abbrev command : DeviceDeploymentCommand
command = record {
  deployment_id = "00000000-0000-0000-0000-00000000000a";
  device_id = "phone-1";
  release = record {
    version = "v1.2.3";
    artifact_url = "https://releases/1.tgz";
    artifact_sha256 = sha;
    artifact_size = of_ℕ 300;
  };
  environment = record {
    name = EnvironmentName.staging;
    revision = of_ℕ 4;
    config = field "retries" (num (of_ℕ 3)) end;
    required_secret_keys = "API_KEY" ∷ [];
  };
  timing = record {
    activation_mode = graceful;
    drain_timeout_ms = of_ℕ 60000;
    created_at = of_ℕ 1000;
    expires_at = of_ℕ 900000;
  };
}

parsed : parse_device_deployment_command parse_url payload ≡ Outcome.ok command
unfolding parse_device_deployment_command as_record is_number get text_field as_string valid_id
    matches_class is_device_id record_of parse_release is_release_version is_sha256 integer_field
    as_number is_integer number_lt parse_environment is_finite number_eq assert_non_sensitive_config
    assert_entries check_forbidden distinct environment_named finite_field is_secret_key
    is_sensitive list_has mode_named parse_timing secret_keys some_protected
parsed = refl

parse_device_deployment_command-IsDeployable_example :
    (url : Url) × (parse_url "https://releases/1.tgz" ≡ Outcome.ok url) × IsDeployable url command
parse_device_deployment_command-IsDeployable_example =
    parse_device_deployment_command-IsDeployable parse_url payload parsed

abbrev tree : Tree
tree = record {
  manifest = Outcome.ok manifest;
  files = ("dist/client.js", sha) ∷ [];
  digest = none;
}

abbrev download : Download
download = record {
  response = Outcome.ok true;
  chunks = 200 ∷ 100 ∷ [];
  sha256 = sha;
  entries = codes "./dist/client.js" ∷ [];
  verbose = codes "-rw-r--r-- 0/0 12 ./dist/client.js" ∷ [];
  unpacked = Outcome.ok tree;
  marker_sha256 = sha;
}

abbrev disk : Disk
disk = record { releases = []; configs = []; secrets = λ name. "API_KEY" ∷ "OTHER" ∷ [] }

abbrev pending : PendingActivation
pending = record {
  deployment_id = "00000000-0000-0000-0000-00000000000a";
  release_version = "v1.2.3";
  release_digest = sha;
  entrypoint = "dist/client.js";
  environment = EnvironmentName.staging;
  environment_revision = of_ℕ 4;
}

staged : (stage download disk command).1 ≡ done pending
unfolding stage ensure_release check_archive write_marker without clear_temporary after_refusal
    download_release write_artifact_stream write_chunks validate_archive check_entries check_lines
    check_line check_link after_last finish_stage pending_activation verify_file verify_files
    verify_release write_config digest_of file_entry is_file_path is_git_commit is_release_version
    is_supervisor_compatible parse_files parse_release_manifest parse_version find put number_lt
    number_eq safe_archive_path normalize strip_dot_slash resolve segments render as_record
    as_string get is_number is_sha256 matches_class list_has text_field record_of
staged = refl

intact : IsIntact disk
unfolding find
intact version there h = absurd (none≢some h)

-- A declared file of that name is written over, and a release with the temporary name goes.
overwritten :
    digest_of ".artifact-sha256"
      (write_marker download command
        (record tree { files = (".artifact-sha256", "declared") ∷ [] })).files
    ≡ some sha
unfolding write_marker put digest_of
overwritten = refl

cleared :
    find
      (temporary_name command)
      (clear_temporary command
        (record disk { releases = (temporary_name command, tree) ∷ [] })).releases
    ≡ none
unfolding clear_temporary without find
cleared = refl

stage-IsIntact_example :
    IsIntact (stage download disk command).0
    × ((v : String) (t : Tree)
        → v ≢ temporary_name command
        → find v disk.releases ≡ some t
        → find v (stage download disk command).0.releases ≡ some t)
    × ((p : PendingActivation)
        → (stage download disk command).1 ≡ done p
        → IsPrepared command (stage download disk command).0 p)
stage-IsIntact_example = stage-IsIntact download disk command intact

-- The executor is busy at the first poll and idle at the second.
abbrev world : World
world = record {
  now = 2000;
  download = download;
  drain_start = 3000;
  clock = λ i. 3000 + 250 * i;
  is_idle = λ i. elim i [ zero ↦ false | suc j ↦ true ];
  force_stop = Outcome.ok true;
  publishes = λ phase. Outcome.ok tt;
  activates = Outcome.ok tt;
}

abbrev manager : Manager
manager = record { current_deployment_id = none; disk = disk }

polled : IsPolled world
polled = record { start = omega arith; pause = λ i. omega arith }

in_time : IsIdleInTime world (number_add (of_ℕ 60000) 3000) 7201
unfolding number_add number_le number_lt
in_time = record { poll = 1; within = omega arith; idle = refl; before = λ i h. ground arith }

unhindered : IsUnhindered "phone-1" 7201 world manager command pending
unfolding number_le number_lt
unhindered = record {
  meant = refl;
  fresh = refl;
  free = refl;
  gentle = refl;
  staged = staged;
  in_time = in_time;
  told_staging = refl;
  told_draining = refl;
  told_activating = refl;
  activates = refl;
}

handle-activates_example :
    (h : Handled) × (handle parse_url "phone-1" 7201 world manager payload ≡ some h)
    × (activations h.effects ≡ pending ∷ [])
    × (h.manager.current_deployment_id ≡ some "00000000-0000-0000-0000-00000000000a")
handle-activates_example =
    handle-activates parse_url "phone-1" 7201 world manager payload command pending parsed
      unhindered

handle-total_example :
    (h : Handled) × (handle parse_url "phone-1" 7201 world manager payload ≡ some h)
handle-total_example =
    handle-total parse_url "phone-1" 7201 world manager payload polled (omega arith)

handled : Handled
handled = handle-activates_example.0

handled_lem : handle parse_url "phone-1" 7201 world manager payload ≡ some handled
unfolding handled
handled_lem = handle-activates_example.1

handle-IsWarranted_example :
    (activations handled.effects ≡ [])
    ⊎ ((c : DeviceDeploymentCommand) × (p : PendingActivation) × (parse_device_deployment_command
            parse_url payload
          ≡ Outcome.ok c)
        × (activations handled.effects ≡ p ∷ [])
        × IsWarranted "phone-1" 7201 world manager c p)
handle-IsWarranted_example =
    handle-IsWarranted parse_url "phone-1" 7201 world manager payload handled_lem

handle-Blocks_example :
    (block_id none handled.effects ≡ handled.manager.current_deployment_id)
    × (IsRefused manager handled
        ⊎ ((c : DeviceDeploymentCommand) × (parse_device_deployment_command parse_url payload
              ≡ Outcome.ok c)
            × (manager.current_deployment_id ≡ none)
            × IsSettled c.deployment_id handled))
handle-Blocks_example = handle-Blocks parse_url "phone-1" 7201 world manager payload handled_lem
