-- ===== src/Deployment/Release.antt =====
-- The release manifest, mobile/src/release-manifest.ts: versions and `parseReleaseManifest`.
use Prim.Native.Nat.{◌-◌, ◌*◌, ◌+◌}
use Prim.Native.String
use one_autojs.Base.{
  ℕ, String, Bool, true, false, not, ◌&&◌, ◌||◌, List, [], ◌∷◌, Option, none, some, Json, Fields,
  str, end, field, get, as_record, is_number, of_ℕ, codes, all_codes, matches_class, is_digit,
  is_upper, is_lower, is_sha256, hex_char, str_eq, ltb, ◌==◌, Outcome, ok, ◌>>=◌, ◌>>◌, require,
  or_throw, if◌then◌else◌, is_some,
}
use one_autojs.Protocol.Parse.{record_of}
use one_autojs.Ops.Parse.{text_field, any_text}
use one_autojs.Deployment.Archive.{is_empty, is_absolute, is_up, put_first}

abbrev drop_digits : List ℕ → List ℕ
drop_digits [] = []
drop_digits (c ∷ s) = if is_digit c then drop_digits s else c ∷ s

-- `(?:0|[1-9]\d*)`, with what follows it.
abbrev numeral : Option (List ℕ) → Option (List ℕ)
numeral none = none
numeral (some []) = none
numeral (some (c ∷ s)) =
    if c == b'0' then some s else if is_digit c then some (drop_digits s) else none

abbrev after_char : ℕ → Option (List ℕ) → Option (List ℕ)
after_char d none = none
after_char d (some []) = none
after_char d (some (c ∷ s)) = if c == d then some s else none

abbrev label_char : ℕ → Bool
label_char c = is_digit c || is_upper c || is_lower c || c == b'.' || c == b'-'

-- `(?:-[0-9A-Za-z.-]+)?$`
abbrev ends_with_label : Option (List ℕ) → Bool
ends_with_label none = false
ends_with_label (some []) = true
ends_with_label (some (c ∷ [])) = false
ends_with_label (some (c ∷ d ∷ s)) = c == b'-' && all_codes label_char (d ∷ s)

-- `isReleaseVersion`
unfoldable pub is_release_version : String → Bool
is_release_version value = ends_with_label (
    numeral (
      after_char b'.' (numeral (after_char b'.' (numeral (after_char b'v' (some (codes value))))))))

abbrev read_digits : ℕ → List ℕ → ℕ × List ℕ
read_digits acc [] = (acc, [])
read_digits acc (c ∷ s) = if is_digit c then read_digits (acc * 10 + (c - b'0')) s else (acc, c ∷ s)

-- `(\d+)` and its value, with what follows it.
abbrev read_number : Option (List ℕ) → Option (ℕ × List ℕ)
read_number none = none
read_number (some []) = none
read_number (some (c ∷ s)) = if is_digit c then some (read_digits 0 (c ∷ s)) else none

abbrev rest_of : Option (ℕ × List ℕ) → Option (List ℕ)
rest_of none = none
rest_of (some (n, s)) = some s

abbrev versions :
    Option (ℕ × List ℕ) → Option (ℕ × List ℕ) → Option (ℕ × List ℕ) → Option (ℕ × ℕ × ℕ)
versions (some (a, _)) (some (b, _)) (some (c, [])) = some (a, b, c)
versions _ _ _ = none

-- `/^(\d+)\.(\d+)\.(\d+)$/`
unfoldable pub parse_version : String → Option (ℕ × ℕ × ℕ)
parse_version value =
    let major = read_number (some (codes value)) in
    let minor = read_number (after_char b'.' (rest_of major)) in
    versions major minor (read_number (after_char b'.' (rest_of minor)))

-- `SUPERVISOR_VERSION`
abbrev pub supervisor_version : String
supervisor_version = "1.0.0"

-- The loop over the three parts: the first that differs decides.
abbrev at_least : Option (ℕ × ℕ × ℕ) → Option (ℕ × ℕ × ℕ) → Bool
at_least (some (a, b, c)) (some (x, y, z)) =
    if not (a == x)
    then ltb x a
    else if not (b == y)
    then ltb y b
    else if not (c == z)
    then ltb z c
    else true
at_least _ _ = false

-- `isSupervisorCompatible`
unfoldable pub is_supervisor_compatible : String → Bool
unfolding parse_version
is_supervisor_compatible minimum =
    at_least (parse_version supervisor_version) (parse_version minimum)

-- A manifest's files, with their digests.
pub record ReleaseManifest : Type 0 where
  pub release_version : String
  pub package_version : String
  pub git_commit : String
  pub created_at : String
  pub minimum_supervisor_version : String
  pub entrypoint : String
  pub files : List (String × String)

-- `split(/[\\/]/)`
abbrev split_path : List ℕ → List (List ℕ)
split_path [] = [] ∷ []
split_path (c ∷ s) =
    if c == b'/' || c == b'\\' then [] ∷ split_path s else put_first c (split_path s)

abbrev includes_up : List (List ℕ) → Bool
includes_up [] = false
includes_up (seg ∷ rest) = is_up seg || includes_up rest

-- The tests on the path of a file.
unfoldable pub is_file_path : String → Bool
is_file_path path =
    not (is_empty (codes path) || is_absolute (codes path) || includes_up (split_path (codes path)))

-- The digest of a file, if the entry passes the tests.
unfoldable pub file_entry : String → Json → Option (String × String)
unfolding is_file_path
file_entry path (str digest) =
    if is_file_path path && is_sha256 digest then some (path, digest) else none
file_entry path _ = none

-- The loop over `Object.entries(value.files)`.
unfoldable pub parse_files : Fields → Outcome (List (String × String))
parse_files end = ok []
parse_files (field path value rest) = do
  entry ← or_throw (file_entry path value) "Invalid release manifest file entry"
  more ← parse_files rest
  ok (entry ∷ more)

unfoldable pub digest_of : String → List (String × String) → Option String
digest_of path [] = none
digest_of path ((p, digest) ∷ rest) = if str_eq p path then some digest else digest_of path rest

abbrev starts_with_dist : List ℕ → Bool
starts_with_dist (a ∷ b ∷ c ∷ d ∷ e ∷ s) =
    a == b'd' && b == b'i' && c == b's' && d == b't' && e == b'/'
starts_with_dist _ = false

unfoldable pub is_git_commit : String → Bool
is_git_commit = matches_class hex_char 7 40

abbrev pub is_version : String → Bool
is_version value = is_some (parse_version value)

abbrev pub in_dist : String → Bool
in_dist value = starts_with_dist (codes value)

-- `parseReleaseManifest`. The many operands of the second test throw the same error.
unfoldable pub parse_release_manifest : Json → Outcome ReleaseManifest
parse_release_manifest payload = do
  value ← or_throw (as_record payload) "Unsupported release manifest format"
  require (is_number (of_ℕ 1) (get "formatVersion" value)) "Unsupported release manifest format"
  release_version ← text_field is_release_version "releaseVersion" value "Invalid release manifest"
  package_version ← text_field any_text "packageVersion" value "Invalid release manifest"
  require (str_eq (String.◌++◌ "v" package_version) release_version) "Invalid release manifest"
  git_commit ← text_field is_git_commit "gitCommit" value "Invalid release manifest"
  created_at ← text_field any_text "createdAt" value "Invalid release manifest"
  require
      (is_number (of_ℕ 2) (get "protocolVersion" value)
        && is_number (of_ℕ 1) (get "deploymentProtocolVersion" value))
      "Invalid release manifest"
  minimum ← text_field is_version "minimumSupervisorVersion" value "Invalid release manifest"
  entrypoint ← text_field in_dist "entrypoint" value "Invalid release manifest"
  entries ← or_throw (record_of (get "files" value)) "Invalid release manifest"
  files ← parse_files entries
  require (is_some (digest_of entrypoint files)) "Release entrypoint is not covered by the manifest"
  ok (record {
    release_version = release_version;
    package_version = package_version;
    git_commit = git_commit;
    created_at = created_at;
    minimum_supervisor_version = minimum;
    entrypoint = entrypoint;
    files = files;
  })
