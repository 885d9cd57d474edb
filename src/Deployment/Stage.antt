-- ===== src/Deployment/Stage.antt =====
-- `stage` of mobile/src/deployment-manager.ts: the download and the installation of a release and an
-- environment. Temporary files and the texts of messages are left out; a failure keeps its code and
-- its phase.
use Prim.Native.String
use one_autojs.Base.{
  ℕ, String, Bool, false, List, [], ◌∷◌, Option, none, some, Fields, Number, str_eq, Outcome,
  if◌then◌else◌, find, put,
}
use one_autojs.Deployment.Release.{ReleaseManifest, parse_release_manifest}
use one_autojs.Deployment.Fields.{
  failed, EnvironmentName, EnvironmentDescriptor, DeviceDeploymentCommand,
}
use one_autojs.Deployment.Unpack.{
  ◌>>=◌, deployment_failure, other_error, Attempt, done, refused, ◌>>◌, demand, calling,
  write_artifact_stream, validate_archive, Tree, has_all, verify_release,
}

-- What the artifact's server, SHA-256 and tar answer; `marker_sha256` is the SHA-256 of the text
-- that is written to `.artifact-sha256`.
pub record Download : Type 0 where
  pub response : Outcome Bool
  pub chunks : List ℕ
  pub sha256 : String
  pub entries : List (List ℕ)
  pub verbose : List (List ℕ)
  pub unpacked : Outcome Tree
  pub marker_sha256 : String

-- The directories below the deployment root; configurations are the latest first.
pub record Disk : Type 0 where
  pub releases : List (String × Tree)
  pub configs : List (EnvironmentName × Number × Fields)
  pub secrets : EnvironmentName → List String

-- The checks on the downloaded archive.
unfoldable pub check_archive : Download → DeviceDeploymentCommand → Attempt (Unit {0})
check_archive download command = do
  fine ← calling download.response
  demand fine "ARTIFACT_DOWNLOAD_FAILED"
  _ ← write_artifact_stream command.release.artifact_size download.chunks
  demand (str_eq download.sha256 command.release.artifact_sha256) "ARTIFACT_DIGEST_MISMATCH"
  validate_archive download.entries download.verbose

-- `.artifact-sha256` is written into the directory, over a file of that name.
unfoldable pub write_marker : Download → DeviceDeploymentCommand → Tree → Tree
unfolding put
write_marker download command tree = record tree {
  files = put ".artifact-sha256" download.marker_sha256 tree.files;
  digest = some command.release.artifact_sha256;
}

-- The branch that downloads: the directory that is renamed to the release.
unfoldable pub download_release : Download → DeviceDeploymentCommand → Attempt Tree
unfolding check_archive write_marker
download_release download command = do
  check_archive download command
  tree ← calling download.unpacked
  verify_release tree command.release.version
  done (write_marker download command tree)

-- The name of `temporaryDirectory`, which lies beside the releases.
abbrev pub temporary_name : DeviceDeploymentCommand → String
temporary_name command =
    String.◌++◌ command.release.version (String.◌++◌ "." (String.◌++◌ command.deployment_id ".tmp"))

unfoldable pub without : String → List (String × Tree) → List (String × Tree)
without name [] = []
without name ((k, tree) ∷ rest) =
    if str_eq k name then without name rest else (k, tree) ∷ without name rest

-- The `rmSync` of the temporary directory, a release with that name included.
unfoldable pub clear_temporary : DeviceDeploymentCommand → Disk → Disk
unfolding without
clear_temporary command disk = record disk {
  releases = without (temporary_name command) disk.releases;
}

-- What a refused installation leaves: the temporary directory is gone once the archive is checked.
unfoldable pub after_refusal : Option Tree → Download → DeviceDeploymentCommand → Disk → Disk
unfolding check_archive clear_temporary
after_refusal (some tree) download command disk = disk
after_refusal none download command disk = elim (check_archive download command) [
  | done u ↦ clear_temporary command disk
  | refused f ↦ disk
]

abbrev pub digest_matches : Option String → String → Bool
digest_matches none expected = false
digest_matches (some digest) expected = str_eq digest expected

-- The release directory that is there, or the one that is installed.
unfoldable pub ensure_release :
    Option Tree → Download → Disk → DeviceDeploymentCommand → Attempt Disk
unfolding download_release clear_temporary
ensure_release (some tree) download disk command = do
  demand (digest_matches tree.digest command.release.artifact_sha256)
      "RELEASE_IMMUTABILITY_VIOLATION"
  done disk
ensure_release none download disk command = do
  tree ← download_release download command
  let cleared = clear_temporary command disk
  done (record cleared { releases = put command.release.version tree cleared.releases })

-- `PendingActivation`
pub record PendingActivation : Type 0 where
  pub deployment_id : String
  pub release_version : String
  pub release_digest : String
  pub entrypoint : String
  pub environment : EnvironmentName
  pub environment_revision : Number

abbrev pub manifest_of : Option Tree → Attempt ReleaseManifest
manifest_of none = refused other_error
manifest_of (some tree) = do
  payload ← calling tree.manifest
  calling (parse_release_manifest payload)

unfoldable pub write_config : Disk → EnvironmentDescriptor → Disk
write_config disk environment = record disk {
  configs = (environment.name, environment.revision, environment.config) ∷ disk.configs;
}

unfoldable pub pending_activation : DeviceDeploymentCommand → ReleaseManifest → PendingActivation
pending_activation command manifest = record {
  deployment_id = command.deployment_id;
  release_version = command.release.version;
  release_digest = command.release.artifact_sha256;
  entrypoint = manifest.entrypoint;
  environment = command.environment.name;
  environment_revision = command.environment.revision;
}

-- The rest of `stage`, once the release is there.
unfoldable pub finish_stage : Disk → DeviceDeploymentCommand → Disk × Attempt PendingActivation
finish_stage disk command =
    if has_all (disk.secrets command.environment.name) command.environment.required_secret_keys
    then (
      write_config disk command.environment,
      manifest_of (find command.release.version disk.releases) >>= λ manifest.
          done (pending_activation command manifest),
    )
    else (disk, refused (deployment_failure "ENVIRONMENT_SECRETS_MISSING" failed))

-- `stage`: the disk after it, and the activation that it prepared.
unfoldable pub stage : Download → Disk → DeviceDeploymentCommand → Disk × Attempt PendingActivation
stage download disk command =
    elim (ensure_release (find command.release.version disk.releases) download disk command) [
      | done disk' ↦ finish_stage disk' command
      | refused f ↦ (
        after_refusal (find command.release.version disk.releases) download command disk,
        refused f,
      )
    ]
