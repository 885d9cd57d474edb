-- ===== src/Deployment/Unpack.antt =====
-- The checks of mobile/src/deployment-manager.ts on an artifact: the size of its stream, the listing
-- of the archive, and the files of the release in it.
use Prim.Native.Nat.{◌+◌, ◌-◌}
use one_autojs.Base.{
  ℕ, zero, suc, String, Bool, true, false, not, ◌&&◌, ◌||◌, List, [], ◌∷◌, Option, none, some, Json,
  Number, of_ℕ, number_lt, number_eq, codes, str_eq, ltb, ◌==◌, Outcome, if◌then◌else◌, length,
}
use one_autojs.Deployment.Archive.{
  segments, resolve, starts_up, safe_archive_path, is_safe_archive_symlink,
}
use one_autojs.Deployment.Release.{parse_release_manifest, is_supervisor_compatible, digest_of}
use one_autojs.Deployment.Fields.{DeploymentPhase, failed, list_has}

-- `DeploymentFailure`, or another error.
pub data Failure : Type 0 where
  deployment_failure : String → DeploymentPhase → Failure
  other_error : Failure

pub data Attempt {ℓ} (A : Type ℓ) : Type ℓ where
  done : A → Attempt A
  refused : Failure → Attempt A

module _ {ℓ κ} {A : Type ℓ} {B : Type κ} where
  infixl 5 ◌>>=◌
  abbrev pub ◌>>=◌ : Attempt A → (A → Attempt B) → Attempt B
  done a >>= next = next a
  refused f >>= next = refused f

infixl 5 ◌>>◌
abbrev pub ◌>>◌ {κ} : {B : Type κ} → Attempt (Unit {0}) → Attempt B → Attempt B
done _ >> next = next
refused f >> next = refused f

-- `if (!test) throw new DeploymentFailure(code, …)`
abbrev pub demand : Bool → String → Attempt (Unit {0})
demand true code = done tt
demand false code = refused (deployment_failure code failed)

-- A function of another module that may throw.
abbrev pub calling {ℓ} : {A : Type ℓ} → Outcome A → Attempt A
calling (Outcome.ok a) = done a
calling (Outcome.throw e) = refused other_error

-- The loop of `writeArtifactStream` over the sizes of the chunks.
unfoldable pub write_chunks : Number → ℕ → List ℕ → Attempt ℕ
write_chunks expected written [] = done written
write_chunks expected written (size ∷ rest) =
    demand (not (number_lt expected (of_ℕ (written + size)) || ltb 104857600 (written + size)))
      "ARTIFACT_SIZE_MISMATCH"
    >> write_chunks expected (written + size) rest

-- `writeArtifactStream`: the number of bytes in the file.
unfoldable pub write_artifact_stream : Number → List ℕ → Attempt ℕ
write_artifact_stream expected chunks = do
  written ← write_chunks expected 0 chunks
  demand (number_eq (of_ℕ written) expected) "ARTIFACT_SIZE_MISMATCH"
  done written

abbrev starts_with : List ℕ → List ℕ → Bool
starts_with [] s = true
starts_with (w ∷ word) [] = false
starts_with (w ∷ word) (c ∷ s) = c == w && starts_with word s

abbrev drop : ℕ → List ℕ → List ℕ
drop zero s = s
drop (suc n) [] = []
drop (suc n) (c ∷ s) = drop n s

-- The text after the last separator that is found from left to right.
abbrev last_part : List ℕ → ℕ → List ℕ → List ℕ → List ℕ
last_part separator skip best [] = best
last_part separator (suc skip) best (c ∷ s) = last_part separator skip best s
last_part separator zero best (c ∷ s) =
    let found = starts_with separator (c ∷ s) in
    last_part separator (if found then length separator - 1 else 0)
      (if found then drop (length separator) (c ∷ s) else best) s

-- `line.split(separator).at(-1)`
unfoldable pub after_last : String → List ℕ → List ℕ
after_last separator line = last_part (codes separator) 0 line line

abbrev is_special : ℕ → Bool
is_special type = type == b'b' || type == b'c' || type == b'p'

unfoldable pub check_link : ℕ → List ℕ → List ℕ → Attempt (Unit {0})
check_link type entry line =
    if type == b'l'
    then demand (is_safe_archive_symlink entry (after_last " -> " line)) "ARCHIVE_LINK_UNSAFE"
    else if type == b'h'
    then demand (safe_archive_path (after_last " link to " line)) "ARCHIVE_LINK_UNSAFE"
    else done tt

-- The checks on one line of the verbose listing, with the entry of the same index.
unfoldable pub check_line : List ℕ → List ℕ → Attempt (Unit {0})
check_line entry [] = done tt
check_line entry (type ∷ text) = do
  demand (not (is_special type)) "ARCHIVE_TYPE_UNSAFE"
  check_link type entry (type ∷ text)

unfoldable pub check_lines : List (List ℕ) → List (List ℕ) → Attempt (Unit {0})
check_lines (entry ∷ entries) (line ∷ lines) = check_line entry line >> check_lines entries lines
check_lines _ _ = done tt

unfoldable pub check_entries : List (List ℕ) → Attempt (Unit {0})
check_entries [] = done tt
check_entries (entry ∷ rest) =
    demand (safe_archive_path entry) "ARCHIVE_PATH_UNSAFE" >> check_entries rest

-- `validateArchive`, of the lines that the two calls of tar print.
unfoldable pub validate_archive : List (List ℕ) → List (List ℕ) → Attempt (Unit {0})
validate_archive entries lines = do
  demand (not (length entries == 0 || ltb 100000 (length entries))) "ARCHIVE_INVALID"
  check_entries entries
  demand (length lines == length entries) "ARCHIVE_INVALID"
  check_lines entries lines

-- A directory with a release in it: the value of its manifest, if that can be read, its other
-- regular files with their digests, `.artifact-sha256` among them, and the text of that file.
pub record Tree : Type 0 where
  pub manifest : Outcome Json
  pub files : List (String × String)
  pub digest : Option String

abbrev pub names : List (String × String) → List String
names [] = []
names ((name, _) ∷ rest) = name ∷ names rest

abbrev pub has_all : List String → List String → Bool
has_all present [] = true
has_all present (name ∷ rest) = list_has name present && has_all present rest

-- The sorted lists of the two sets of names are the same.
abbrev pub same_names : List String → List String → Bool
same_names actual declared = length actual == length declared && has_all actual declared

-- `path.resolve(directory, relativePath)` lies below the directory.
abbrev pub below : List (List ℕ) → Bool
below [] = false
below (seg ∷ stack) = not (starts_up (seg ∷ stack))

unfoldable pub verify_file : List (String × String) → String → String → Attempt (Unit {0})
verify_file files path expected = do
  demand (below (resolve true [] (segments (codes path)))) "MANIFEST_PATH_UNSAFE"
  elim (digest_of path files) [
    | none ↦ refused other_error
    | some actual ↦ demand (str_eq actual expected) "RELEASE_FILE_DIGEST_MISMATCH"
  ]

unfoldable pub verify_files : List (String × String) → List (String × String) → Attempt (Unit {0})
verify_files files [] = done tt
verify_files files ((path, expected) ∷ rest) =
    verify_file files path expected >> verify_files files rest

-- The checks on what the archive unpacks to.
unfoldable pub verify_release : Tree → String → Attempt (Unit {0})
verify_release tree version = do
  payload ← calling tree.manifest
  manifest ← calling (parse_release_manifest payload)
  demand (str_eq manifest.release_version version) "RELEASE_VERSION_MISMATCH"
  demand (is_supervisor_compatible manifest.minimum_supervisor_version)
      "SUPERVISOR_VERSION_UNSUPPORTED"
  demand (same_names (names tree.files) (names manifest.files)) "MANIFEST_FILE_SET_MISMATCH"
  verify_files tree.files manifest.files
