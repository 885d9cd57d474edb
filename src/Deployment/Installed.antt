-- ===== src/Deployment/Installed.antt =====
-- The disk over a deployment: which releases it holds, and what a prepared activation names.
use one_autojs.Base.{◌≡◌, refl, sym, subst, String, true, some, Bool-cases, inl, inr, find, ◌≢◌}
use one_autojs.Deployment.Release.{ReleaseManifest}
use one_autojs.Deployment.Fields.{DeviceDeploymentCommand}
use one_autojs.Deployment.Unpack.{Attempt, done, refused, Tree, has_all, ◌>>=◌}
use one_autojs.Deployment.Stage.{
  Download, Disk, temporary_name, after_refusal, ensure_release, PendingActivation, manifest_of,
  write_config, pending_activation, finish_stage, stage,
}
use one_autojs.Deployment.Verified.{>>=-eq-done, done_inj}
use one_autojs.Deployment.Ensure.{IsIntact, ensure_release-IsStep, after_refusal-IsStep}

-- An activation that `stage` prepared, beside the disk after it: the release is there with the
-- digest of the command, the entry point is that of its manifest, and the local secrets that the
-- environment requires are there.
pub record IsPrepared (command : DeviceDeploymentCommand) (disk : Disk) (p : PendingActivation)
    : Type 0 where
  pub tree : Tree
  pub manifest : ReleaseManifest
  pub present : find command.release.version disk.releases ≡ some tree
  pub digest : tree.digest ≡ some command.release.artifact_sha256
  pub named : p ≡ pending_activation command manifest
  pub readable : manifest_of (some tree) ≡ done manifest
  pub secrets :
      has_all (disk.secrets command.environment.name) command.environment.required_secret_keys
      ≡ true

finish_stage-releases :
    (disk : Disk) (command : DeviceDeploymentCommand)
    → (finish_stage disk command).0.releases ≡ disk.releases
unfolding finish_stage write_config
finish_stage-releases disk command =
    elim (Bool-cases
      (has_all (disk.secrets command.environment.name) command.environment.required_secret_keys)) [
        | inl e ↦ rw e
        | inr e ↦ rw e
      ]

finish_stage-IsPrepared :
    (disk : Disk) (command : DeviceDeploymentCommand) {p : PendingActivation} (tree : Tree)
    → find command.release.version disk.releases ≡ some tree
    → tree.digest ≡ some command.release.artifact_sha256
    → (finish_stage disk command).1 ≡ done p
    → IsPrepared command (finish_stage disk command).0 p
unfolding finish_stage write_config
finish_stage-IsPrepared disk command {p} tree f d h =
    elim (Bool-cases
      (has_all (disk.secrets command.environment.name) command.environment.required_secret_keys)) [
        | inl e ↦ rw e (
            let there =
              >>=-eq-done (manifest_of (find command.release.version disk.releases)) _ (opened e) in
            record {
              tree = tree;
              manifest = there.0;
              present = f;
              digest = d;
              named = sym (done_inj there.2);
              readable = subst (λ o. manifest_of o ≡ done there.0) f there.1;
              secrets = e;
            })
        | inr e ↦ let closed = rw e at h in cc
      ]
  where
    opened :
        has_all (disk.secrets command.environment.name) command.environment.required_secret_keys
          ≡ true
        → (manifest_of (find command.release.version disk.releases) >>= λ manifest.
            done (pending_activation command manifest))
          ≡ done p
    opened e = rw e at h

-- A deployment keeps every release of the disk as it was, also where it fails, but for one with the
-- name of its temporary directory; and an intact disk stays intact: each release directory has a
-- readable manifest of its version, every file of the manifest with its digest except one with the
-- name `.artifact-sha256`, at most one file more than the manifest lists, and a recorded digest. An
-- activation is prepared only for a release that is there with the digest of the command, with the
-- entry point of its manifest, and with every required secret at hand.
pub stage-IsIntact :
    (download : Download) (disk : Disk) (command : DeviceDeploymentCommand)
    → IsIntact disk
    → IsIntact (stage download disk command).0
      × ((v : String) (t : Tree)
          → v ≢ temporary_name command
          → find v disk.releases ≡ some t
          → find v (stage download disk command).0.releases ≡ some t)
      × ((p : PendingActivation)
          → (stage download disk command).1 ≡ done p
          → IsPrepared command (stage download disk command).0 p)
unfolding stage
stage-IsIntact download disk command intact =
    by_release (ensure_release (find command.release.version disk.releases) download disk command)
      refl
  where
    after : Attempt Disk → Disk × Attempt PendingActivation
    after found = elim found [
      | done disk' ↦ finish_stage disk' command
      | refused f ↦ (
        after_refusal (find command.release.version disk.releases) download command disk,
        refused f,
      )
    ]

    by_release :
        (found : Attempt Disk)
        → ensure_release (find command.release.version disk.releases) download disk command ≡ found
        → IsIntact (after found).0
          × ((v : String) (t : Tree)
              → v ≢ temporary_name command
              → find v disk.releases ≡ some t
              → find v (after found).0.releases ≡ some t)
          × ((p : PendingActivation)
              → (after found).1 ≡ done p
              → IsPrepared command (after found).0 p)
    by_release (refused f) e =
        let left =
          after_refusal-IsStep (find command.release.version disk.releases) download command disk in
        (left.intact intact, left.kept, λ p h. absurd (never p h))
      where
        never : (p : PendingActivation) → refused f ≡ done p → ⊥
        never p h = cc
    by_release (done disk') e =
        let (step, (tree, f, d)) = ensure_release-IsStep download disk command e in
        let same = finish_stage-releases disk' command in
        (
          λ v t g. step.intact intact v t (subst (λ r. find v r ≡ some t) same g),
          λ v t n g. subst (λ r. find v r ≡ some t) (sym same) (step.kept v t n g),
          λ p h. finish_stage-IsPrepared disk' command tree f d h,
        )
