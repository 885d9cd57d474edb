-- ===== src/Deployment/Archive.antt =====
-- `safeArchivePath` and `isSafeArchiveSymlink` of mobile/src/deployment-manager.ts, with the
-- functions of Node's path.posix that they call. A path is the list of its code units.
use one_autojs.Base.{
  ℕ, Bool, true, false, not, ◌&&◌, ◌||◌, List, [], ◌∷◌, ◌++◌, Option, none, some, leb, ◌==◌,
  if◌then◌else◌,
}

abbrev pub slash : ℕ
slash = b'/'

abbrev pub dot : ℕ
dot = b'.'

abbrev pub is_empty : List ℕ → Bool
is_empty [] = true
is_empty (c ∷ s) = false

-- `path.posix.isAbsolute`
abbrev pub is_absolute : List ℕ → Bool
is_absolute [] = false
is_absolute (c ∷ s) = c == slash

-- `/[\0-\x1f]/.test(value)`
abbrev pub has_control : List ℕ → Bool
has_control [] = false
has_control (c ∷ s) = leb c 31 || has_control s

-- `value.replace(/^\.\//, "")`
unfoldable pub strip_dot_slash : List ℕ → List ℕ
strip_dot_slash [] = []
strip_dot_slash (c ∷ []) = c ∷ []
strip_dot_slash (c ∷ d ∷ s) = if c == dot && d == slash then s else c ∷ d ∷ s

abbrev pub put_first : ℕ → List (List ℕ) → List (List ℕ)
put_first c [] = (c ∷ []) ∷ []
put_first c (s ∷ rest) = (c ∷ s) ∷ rest

-- The parts of a path between its slashes.
unfoldable pub segments : List ℕ → List (List ℕ)
segments [] = [] ∷ []
segments (c ∷ s) = if c == slash then [] ∷ segments s else put_first c (segments s)

-- An empty segment or `.`
abbrev pub is_here : List ℕ → Bool
is_here [] = true
is_here (c ∷ []) = c == dot
is_here (c ∷ d ∷ s) = false

-- `..`
abbrev pub is_up : List ℕ → Bool
is_up (c ∷ d ∷ []) = c == dot && d == dot
is_up _ = false

abbrev pub go_up : Bool → List ℕ → List (List ℕ) → List (List ℕ)
go_up above seg [] = if above then seg ∷ [] else []
go_up above seg (top ∷ stack) =
    if is_up top then (if above then seg ∷ top ∷ stack else top ∷ stack) else stack

abbrev pub enter : Bool → List ℕ → List (List ℕ) → List (List ℕ)
enter above seg stack =
    if is_here seg then stack else if is_up seg then go_up above seg stack else seg ∷ stack

-- Node's `normalizeString`: the segments that are left, the last one first.
unfoldable pub resolve : Bool → List (List ℕ) → List (List ℕ) → List (List ℕ)
resolve above stack [] = stack
resolve above stack (seg ∷ rest) = resolve above (enter above seg stack) rest

-- The segments, last one first, joined by slashes before a text.
unfoldable pub render : List (List ℕ) → List ℕ → List ℕ
render [] after = after
render (seg ∷ []) after = seg ++ after
render (seg ∷ next ∷ stack) after = render (next ∷ stack) (slash ∷ (seg ++ after))

-- Whether the text ends in a slash.
abbrev pub ends_in_slash : List ℕ → Bool
ends_in_slash [] = false
ends_in_slash (c ∷ []) = c == slash
ends_in_slash (c ∷ d ∷ s) = ends_in_slash (d ∷ s)

abbrev pub trailing : Bool → List ℕ
trailing true = slash ∷ []
trailing false = []

abbrev pub relative : List (List ℕ) → Bool → List ℕ
relative [] ends = dot ∷ trailing ends
relative (seg ∷ stack) ends = render (seg ∷ stack) (trailing ends)

abbrev pub rooted : List (List ℕ) → Bool → List ℕ
rooted [] ends = slash ∷ []
rooted (seg ∷ stack) ends = slash ∷ render (seg ∷ stack) (trailing ends)

-- `path.posix.normalize`
unfoldable pub normalize : List ℕ → List ℕ
normalize [] = dot ∷ []
normalize (c ∷ s) =
    if c == slash
    then rooted (resolve false [] (segments (c ∷ s))) (ends_in_slash (c ∷ s))
    else relative (resolve true [] (segments (c ∷ s))) (ends_in_slash (c ∷ s))

-- Whether the first segment of the path, which is the last of the stack, is `..`.
abbrev pub starts_up : List (List ℕ) → Bool
starts_up [] = false
starts_up (seg ∷ []) = is_up seg
starts_up (seg ∷ next ∷ stack) = starts_up (next ∷ stack)

-- `text === ".." || text.startsWith("../")`
abbrev pub leads_up : List ℕ → Bool
leads_up (c ∷ d ∷ []) = c == dot && d == dot
leads_up (c ∷ d ∷ e ∷ s) = c == dot && (d == dot && e == slash)
leads_up _ = false

-- `safeArchivePath`
unfoldable pub safe_archive_path : List ℕ → Bool
safe_archive_path value =
    not (is_empty value || is_absolute value || has_control value)
    && not (leads_up (normalize (strip_dot_slash value)))

abbrev pub has_name : List ℕ → Bool
has_name [] = false
has_name (c ∷ s) = not (c == slash) || has_name s

abbrev pub keep_or_cut : ℕ → List ℕ → Option (List ℕ) → Option (List ℕ)
keep_or_cut c s (some kept) = some (c ∷ kept)
keep_or_cut c s none = if c == slash && has_name s then some [] else none

-- The text before its last slash that a name follows.
unfoldable pub before_last : List ℕ → Option (List ℕ)
before_last [] = none
before_last (c ∷ s) = keep_or_cut c s (before_last s)

abbrev pub directory_of : ℕ → Option (List ℕ) → List ℕ
directory_of c none = if c == slash then slash ∷ [] else dot ∷ []
directory_of c (some kept) = if c == slash && is_empty kept then slash ∷ slash ∷ [] else c ∷ kept

-- `path.posix.dirname`
unfoldable pub dirname : List ℕ → List ℕ
dirname [] = dot ∷ []
dirname (c ∷ s) = directory_of c (before_last s)

-- The link's target read from the directory that holds the link, before it is normalised; both
-- arguments of `path.posix.join` are not empty where it is called.
unfoldable pub link_path : List ℕ → List ℕ → List ℕ
link_path entry target = dirname (normalize (strip_dot_slash entry)) ++ slash ∷ target

-- `isSafeArchiveSymlink`: `join` normalises, and its result is normalised again.
unfoldable pub is_safe_archive_symlink : List ℕ → List ℕ → Bool
is_safe_archive_symlink entry target =
    safe_archive_path entry
    && (not (is_empty target || is_absolute target || has_control target)
        && safe_archive_path (normalize (normalize (link_path entry target))))
