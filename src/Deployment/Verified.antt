-- ===== src/Deployment/Verified.antt =====
-- Releases on the disk: what the manager knows of a release that it installed, and how an
-- installation changes the releases.
use one_autojs.Base.{
  ℕ, ◌≡◌, refl, String, Bool, true, false, ◌&&◌, List, [], ◌∷◌, Option, none, some, Json, str_eq,
  eq_iff, ◌==◌, Outcome, All, length, arith, ◌⊎◌, inl, ◌≤◌, ◌+◌,
}
use one_autojs.Deployment.Release.{ReleaseManifest, parse_release_manifest, digest_of}
use one_autojs.Deployment.Unpack.{
  other_error, Attempt, done, refused, ◌>>◌, demand, calling, Tree, names, same_names, verify_file,
  verify_files, verify_release, ◌>>=◌,
}

pub demand-eq-done {ℓ} :
    {A : Type ℓ} (test : Bool) (code : String) (next : Attempt A) {a : A}
    → (demand test code >> next) ≡ done a
    → (test ≡ true) × (next ≡ done a)
demand-eq-done true code next h = (refl, h)
demand-eq-done false code next h = cc

pub >>=-eq-done {ℓ κ} :
    {A : Type ℓ} {B : Type κ} (first : Attempt A) (next : A → Attempt B) {b : B}
    → (first >>= next) ≡ done b
    → (a : A) × (first ≡ done a) × (next a ≡ done b)
>>=-eq-done (done a) next h = (a, refl, h)
>>=-eq-done (refused f) next h = cc

pub >>-eq-done {ℓ} :
    {A : Type ℓ} (first : Attempt (Unit {0})) (next : Attempt A) {a : A}
    → (first >> next) ≡ done a
    → (first ≡ done tt) × (next ≡ done a)
>>-eq-done (done tt) next h = (refl, h)
>>-eq-done (refused f) next h = cc

calling-eq-done {ℓ} : {A : Type ℓ} (o : Outcome A) {a : A} → calling o ≡ done a → o ≡ Outcome.ok a
calling-eq-done (Outcome.ok b) h = cc
calling-eq-done (Outcome.throw e) h = cc

pub done_inj {ℓ} : {A : Type ℓ} {a b : A} → done a ≡ done b → a ≡ b
done_inj h = cc

-- A file of the manifest is in the directory, with the digest that the manifest gives, unless it
-- has the name of the file that the installation writes.
abbrev pub IsFile : List (String × String) → String × String → Type 0
IsFile files entry = (digest_of entry.0 files ≡ some entry.1) ⊎ (entry.0 ≡ ".artifact-sha256")

-- A directory that passed every check: its manifest is readable and of the version, every file of
-- the manifest is there with its digest, and there are as many files.
pub record IsVerified (version : String) (tree : Tree) : Type 0 where
  pub payload : Json
  pub manifest : ReleaseManifest
  pub readable : tree.manifest ≡ Outcome.ok payload
  pub parsed : parse_release_manifest payload ≡ Outcome.ok manifest
  pub same_version : manifest.release_version ≡ version
  pub same_count : length (names tree.files) ≡ length (names manifest.files)
  pub files : All (IsFile tree.files) manifest.files

-- A release directory: its manifest is readable and of the version, every file of the manifest but
-- the one that is written last is there with its digest, and there is one file more at most.
pub record IsRelease (version : String) (tree : Tree) : Type 0 where
  pub payload : Json
  pub manifest : ReleaseManifest
  pub readable : tree.manifest ≡ Outcome.ok payload
  pub parsed : parse_release_manifest payload ≡ Outcome.ok manifest
  pub same_version : manifest.release_version ≡ version
  pub few : length (names tree.files) ≤ length (names manifest.files) + 1
  pub files : All (IsFile tree.files) manifest.files

verify_file-IsFile :
    (files : List (String × String)) (path expected : String)
    → verify_file files path expected ≡ done tt
    → IsFile files (path, expected)
unfolding verify_file
verify_file-IsFile files path expected h =
    inl (found (digest_of path files) (demand-eq-done _ _ _ h).1)
  where
    found :
        (o : Option String)
        → (elim o [
          | none ↦ refused other_error
          | some actual ↦ demand (str_eq actual expected) "RELEASE_FILE_DIGEST_MISMATCH"
        ])
          ≡ done tt
        → o ≡ some expected
    found none e = cc
    found (some actual) e = ground (arith, eq_iff actual expected)

verify_files-All :
    (files declared : List (String × String))
    → verify_files files declared ≡ done tt
    → All (IsFile files) declared
unfolding verify_files
verify_files-All files [] h = tt
verify_files-All files ((path, expected) ∷ rest) h =
    let (first, others) =
      >>-eq-done (verify_file files path expected) (verify_files files rest) h in
    (verify_file-IsFile files path expected first, verify_files-All files rest others)

pub verify_release-IsVerified :
    (tree : Tree) (version : String)
    → verify_release tree version ≡ done tt
    → IsVerified version tree
unfolding verify_release
verify_release-IsVerified tree version h0 =
    let (payload, p, h1) = >>=-eq-done (calling tree.manifest) _ h0 in
    let (manifest, m, h2) = >>=-eq-done (calling (parse_release_manifest payload)) _ h1 in
    let (v, h3) = demand-eq-done (str_eq manifest.release_version version) _ _ h2 in
    let (_, h4) = demand-eq-done _ _ _ h3 in
    let (s, h5) = demand-eq-done (same_names (names tree.files) (names manifest.files)) _ _ h4 in
    record {
      payload = payload;
      manifest = manifest;
      readable = calling-eq-done tree.manifest p;
      parsed = calling-eq-done (parse_release_manifest payload) m;
      same_version = (eq_iff manifest.release_version version).0 v;
      same_count = same_length (and_left _ _ s);
      files = verify_files-All tree.files manifest.files h5;
    }
  where
    same_length : {n m : ℕ} → (n == m) ≡ true → n ≡ m
    same_length h = ground arith

    and_left : (a b : Bool) → (a && b) ≡ true → a ≡ true
    and_left true b e = refl
    and_left false b e = cc
