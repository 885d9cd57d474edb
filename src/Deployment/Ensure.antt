-- ===== src/Deployment/Ensure.antt =====
-- `ensureRelease` and the disk: which releases it holds afterwards.
use one_autojs.Base.{
  ◌≡◌, refl, sym, ap, subst, ◌∙◌, String, true, Option, none, some, some_inj, none≢some, str_eq,
  eq_iff, if_true, if_false, Bool-cases, inl, inr, find, put, find-put, arith, find-put_self, ◌⊎◌,
  List, [], ◌∷◌, length, ◌≤◌, ◌+◌, All-map, if◌then◌else◌, ◌≢◌,
}
use one_autojs.Deployment.Release.{digest_of}
use one_autojs.Deployment.Fields.{DeviceDeploymentCommand}
use one_autojs.Deployment.Unpack.{Attempt, done, refused, calling, Tree, names, verify_release}
use one_autojs.Deployment.Stage.{
  Download, Disk, check_archive, write_marker, temporary_name, without, clear_temporary,
  after_refusal, download_release, digest_matches, ensure_release,
}
use one_autojs.Deployment.Verified.{
  IsFile, IsVerified, IsRelease, demand-eq-done, >>=-eq-done, >>-eq-done, done_inj,
  verify_release-IsVerified,
}

-- A release on the disk is the one of its directory's version, and its digest is recorded.
pub record IsInstalled (version : String) (tree : Tree) : Type 0 where
  pub release : IsRelease version tree
  pub digest : String
  pub recorded : tree.digest ≡ some digest

abbrev pub IsIntact : Disk → Type 0
IsIntact disk =
    (version : String) (tree : Tree)
    → find version disk.releases ≡ some tree
    → IsInstalled version tree

digest_of-put :
    (key path digest : String) (files : List (String × String))
    → digest_of path (put key digest files)
      ≡ (if str_eq key path then some digest else digest_of path files)
unfolding digest_of put
digest_of-put key path digest [] = refl
digest_of-put key path digest ((p, d) ∷ files) =
    ground
      (arith, eq_iff key path, eq_iff p key, eq_iff p path, digest_of-put key path digest files)

names-put :
    (key digest : String) (files : List (String × String))
    → length (names (put key digest files)) ≤ length (names files) + 1
unfolding put
names-put key digest [] = omega arith
names-put key digest ((p, d) ∷ files) = elim (Bool-cases (str_eq p key)) [
  | inl same ↦ rw same (omega arith)
  | inr other ↦ rw other (omega (arith, names-put key digest files))
]

-- The file that is written last leaves every other file of the manifest as it is.
IsFile-put :
    (digest : String) (files : List (String × String)) (entry : String × String)
    → IsFile files entry
    → IsFile (put ".artifact-sha256" digest files) entry
IsFile-put digest files (path, expected) (inr marker) = inr marker
IsFile-put digest files (path, expected) (inl there) =
    elim (Bool-cases (str_eq ".artifact-sha256" path)) [
      | inl same ↦ inr (sym ((eq_iff ".artifact-sha256" path).0 same))
      | inr other ↦ inl (rw (digest_of-put, other) there)
    ]

-- The directory of a release with its digest written into it.
write_marker-IsRelease :
    (download : Download) (command : DeviceDeploymentCommand) (tree : Tree)
    → IsVerified command.release.version tree
    → IsRelease command.release.version (write_marker download command tree)
unfolding write_marker
write_marker-IsRelease download command tree v = record {
  payload = v.payload;
  manifest = v.manifest;
  readable = v.readable;
  parsed = v.parsed;
  same_version = v.same_version;
  few =
      let more = names-put ".artifact-sha256" download.marker_sha256 tree.files in
      let same = v.same_count in omega arith;
  files =
      All-map (IsFile tree.files) (IsFile (write_marker download command tree).files)
        (IsFile-put download.marker_sha256 tree.files) v.manifest.files v.files;
}

-- What a download that passes every check installs.
download_release-IsInstalled :
    (download : Download) (command : DeviceDeploymentCommand) {tree : Tree}
    → download_release download command ≡ done tree
    → IsInstalled command.release.version tree
      × (tree.digest ≡ some command.release.artifact_sha256)
unfolding download_release write_marker
download_release-IsInstalled download command {tree} h0 =
    let (_, h5) = >>-eq-done (check_archive download command) _ h0 in
    let (unpacked, _, h6) = >>=-eq-done (calling download.unpacked) _ h5 in
    let (checked, h7) = >>-eq-done (verify_release unpacked command.release.version) _ h6 in
    subst
      (λ t.
        IsInstalled command.release.version t × (t.digest ≡ some command.release.artifact_sha256))
      (done_inj h7)
      (
        record {
          release =
              write_marker-IsRelease download command unpacked
                (verify_release-IsVerified unpacked _ checked);
          digest = command.release.artifact_sha256;
          recorded = refl;
        },
        refl,
      )

-- The two ways in which the release of a command is there.
ensure_release-cases :
    (found : Option Tree) (download : Download) (disk : Disk) (command : DeviceDeploymentCommand)
    {disk' : Disk}
    → ensure_release found download disk command ≡ done disk'
    → ((tree : Tree) × (found ≡ some tree)
        × (tree.digest ≡ some command.release.artifact_sha256)
        × (disk ≡ disk'))
      ⊎ ((tree : Tree) × (found ≡ none)
          × (download_release download command ≡ done tree)
          × (record disk {
            releases = put command.release.version tree (clear_temporary command disk).releases;
          }
              ≡ disk'))
unfolding ensure_release clear_temporary
ensure_release-cases (some tree) download disk command h =
    let (same, e) =
      demand-eq-done (digest_matches tree.digest command.release.artifact_sha256) _ _ h in
    inl (tree, refl, matching tree.digest same, done_inj e)
  where
    matching :
        (o : Option String)
        → digest_matches o command.release.artifact_sha256 ≡ true
        → o ≡ some command.release.artifact_sha256
    matching none e = cc
    matching (some d) e = ap some ((eq_iff d command.release.artifact_sha256).0 e)
ensure_release-cases none download disk command h =
    let (tree, t, e) = >>=-eq-done (download_release download command) _ h in
    inr (tree, refl, t, done_inj e)

put-IsIntact :
    (version : String) (tree : Tree) (disk : Disk)
    → IsInstalled version tree
    → IsIntact disk
    → IsIntact (record disk { releases = put version tree disk.releases })
put-IsIntact version tree disk new old v t f = elim (Bool-cases (str_eq version v)) [
  | inl e ↦
      subst (IsInstalled v)
        (some_inj (if_true _ _ e (sym (find-put version v tree disk.releases) ∙ f)))
        (subst (λ w. IsInstalled w tree) ((eq_iff version v).0 e) new)
  | inr e ↦ old v t (if_false _ _ e (sym (find-put version v tree disk.releases) ∙ f))
]

find-without :
    (name v : String) (m : List (String × Tree))
    → find v (without name m) ≡ (if str_eq name v then none else find v m)
unfolding find without
find-without name v [] = ground arith
find-without name v ((k, tree) ∷ m) =
    ground (arith, eq_iff name v, eq_iff k name, eq_iff k v, find-without name v m)

-- What a step of a deployment guarantees: the releases stay as they are, but for one that has the
-- name of the deployment's temporary directory.
pub record IsStep (command : DeviceDeploymentCommand) (disk disk' : Disk) : Type 0 where
  pub intact : IsIntact disk → IsIntact disk'
  pub kept :
      (v : String) (t : Tree)
      → v ≢ temporary_name command
      → find v disk.releases ≡ some t
      → find v disk'.releases ≡ some t

IsStep-same : (command : DeviceDeploymentCommand) (disk : Disk) → IsStep command disk disk
IsStep-same command disk = record { intact = λ h. h; kept = λ v t n f. f }

clear_temporary-IsStep :
    (command : DeviceDeploymentCommand) (disk : Disk)
    → IsStep command disk (clear_temporary command disk)
unfolding clear_temporary
clear_temporary-IsStep command disk = record {
  intact = λ h v t f.
      let g = sym (find-without (temporary_name command) v disk.releases) ∙ f in
      elim (Bool-cases (str_eq (temporary_name command) v)) [
        | inl same ↦ absurd (none≢some (if_true _ _ same g))
        | inr other ↦ h v t (if_false _ _ other g)
      ];
  kept = λ v t n f.
      find-without (temporary_name command) v disk.releases
      ∙ elim (Bool-cases (str_eq (temporary_name command) v)) [
        | inl same ↦ absurd (n (sym ((eq_iff (temporary_name command) v).0 same)))
        | inr other ↦ rw other f
      ];
}

pub after_refusal-IsStep :
    (found : Option Tree) (download : Download) (command : DeviceDeploymentCommand) (disk : Disk)
    → IsStep command disk (after_refusal found download command disk)
unfolding after_refusal
after_refusal-IsStep (some tree) download command disk = IsStep-same command disk
after_refusal-IsStep none download command disk = checked (check_archive download command)
  where
    checked :
        (o : Attempt (Unit {0}))
        → IsStep command disk (elim o [ done u ↦ clear_temporary command disk | refused f ↦ disk ])
    checked (done u) = clear_temporary-IsStep command disk
    checked (refused f) = IsStep-same command disk

-- A version that is not on the disk is another one than those that are.
put-IsStep :
    (command : DeviceDeploymentCommand) (tree : Tree) (disk : Disk)
    → find command.release.version disk.releases ≡ none
    → IsInstalled command.release.version tree
    → IsStep command disk (record disk {
      releases = put command.release.version tree (clear_temporary command disk).releases;
    })
unfolding clear_temporary
put-IsStep command tree disk absent new =
    let cleared = clear_temporary-IsStep command disk in
    record {
      intact = λ h.
          put-IsIntact command.release.version tree (clear_temporary command disk) new
            (cleared.intact h);
      kept = λ v t n f.
          let g = cleared.kept v t n f in
          find-put command.release.version v tree (clear_temporary command disk).releases
          ∙ elim (Bool-cases (str_eq command.release.version v)) [
            | inl same ↦
                let back =
                  subst (λ w. find w disk.releases ≡ some t)
                    (sym ((eq_iff command.release.version v).0 same)) f in
                absurd (none≢some (sym absent ∙ back))
            | inr other ↦ rw other g
          ];
    }

pub ensure_release-IsStep :
    (download : Download) (disk : Disk) (command : DeviceDeploymentCommand) {disk' : Disk}
    → ensure_release (find command.release.version disk.releases) download disk command ≡ done disk'
    → IsStep command disk disk'
      × ((tree : Tree) × (find command.release.version disk'.releases ≡ some tree)
          × (tree.digest ≡ some command.release.artifact_sha256))
ensure_release-IsStep download disk command {disk'} h =
    elim (ensure_release-cases (find command.release.version disk.releases) download disk command
      h) [
        | inl (tree, f, d, e) ↦ subst IsDone e (IsStep-same command disk, (tree, f, d))
        | inr (tree, f, t, e) ↦
            let (new, digest) = download_release-IsInstalled download command t in
            subst IsDone e (
              put-IsStep command tree disk f new,
              (
                tree,
                find-put_self command.release.version tree (clear_temporary command disk).releases,
                digest,
              ),
            )
      ]
  where
    IsDone : Disk → Type 0
    IsDone x =
        IsStep command disk x
        × ((t : Tree) × (find command.release.version x.releases ≡ some t)
            × (t.digest ≡ some command.release.artifact_sha256))
