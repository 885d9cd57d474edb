-- ===== src/Campaign/Operations.antt =====
-- The operations of `TikTokCampaign` in pc/src/tiktok-campaign.ts. An operation that hands a task
-- to the transport is in two parts, before and after it; between them its first write of the
-- ledger is on the disk.
use one_autojs.Base.{
  ℕ, ◌+◌, ◌/◌, String, Bool, true, false, not, ◌&&◌, ◌||◌, List, [], ◌∷◌, ◌++◌, Option, none, some,
  codes, str_eq, leb, ltb, ◌==◌, Outcome, ok, throw, ◌>>=◌, ◌>>◌, require, or_throw, if◌then◌else◌,
}
use one_autojs.Deployment.Archive.{is_empty}
use one_autojs.Campaign.{
  CampaignCreative, CampaignApproval, EntryState, dispatching, accepted, hold, public_accepted,
  missed, RecoveryAction, RecoveryTask, CampaignEntry, Store, publish_action, recovery_action,
  CampaignRequest, Boundary,
}
use one_autojs.Campaign.Validate.{validate_campaign, creative_request}

abbrev pub is_accepted : EntryState → Bool
is_accepted public_accepted = true
is_accepted _ = false

abbrev pub is_missed : EntryState → Bool
is_missed missed = true
is_missed _ = false

-- `entries.every(e => e.state === "PUBLIC_ACCEPTED")`
unfoldable pub all_accepted : List CampaignEntry → Bool
all_accepted [] = true
all_accepted (e ∷ rest) = is_accepted e.state && all_accepted rest

-- `entries.find(e => e.publicationId === publicationId)`
unfoldable pub find_entry : String → List CampaignEntry → Option CampaignEntry
find_entry id [] = none
find_entry id (e ∷ rest) = if str_eq e.publication_id id then some e else find_entry id rest

-- The entry that `find` returns is changed in place.
unfoldable pub update_entry :
    String → (CampaignEntry → CampaignEntry) → List CampaignEntry → List CampaignEntry
update_entry id change [] = []
update_entry id change (e ∷ rest) =
    if str_eq e.publication_id id then change e ∷ rest else e ∷ update_entry id change rest

abbrev pub is_known : Option CampaignEntry → Bool
is_known none = false
is_known (some e) = true

unfoldable pub find_creative : String → List CampaignCreative → Option CampaignCreative
find_creative id [] = none
find_creative id (c ∷ rest) = if str_eq c.publication_id id then some c else find_creative id rest

-- The first creative that no entry names.
unfoldable pub next_creative : List CampaignCreative → List CampaignEntry → Option CampaignCreative
next_creative [] ledger = none
next_creative (c ∷ rest) ledger =
    if is_known (find_entry c.publication_id ledger) then next_creative rest ledger else some c

abbrev is_text : String → Bool
is_text s = not (is_empty (codes s))

-- The approval that `tick` requires.
unfoldable pub is_approved : Boundary → Store → ℕ → Option CampaignApproval → Bool
is_approved boundary store now none = false
is_approved boundary store now (some a) =
    str_eq a.manifest_sha256 (boundary.digest store.manifest)
    && is_text a.reviewer
    && leb a.approved_at now

-- `approval.manifestSha256 === digest`; reading a field of an absent approval throws.
unfoldable pub approves : Boundary → Store → Outcome Bool
approves boundary store = elim store.approval [
  | none ↦ throw "No approval"
  | some a ↦ ok (str_eq a.manifest_sha256 (boundary.digest store.manifest))
]

-- `verifyVideo`
unfoldable pub verify_video : Boundary → CampaignCreative → Outcome (Unit {0})
verify_video boundary creative = do
  file ← boundary.video creative.video_path
  require (file.is_file && ltb 0 file.size && leb file.size 209715200) "Invalid video size"
  require (str_eq file.sha256 creative.sha256) "Video changed after creative review"

unfoldable pub verify_videos : Boundary → List CampaignCreative → Outcome (Unit {0})
verify_videos boundary [] = ok tt
verify_videos boundary (c ∷ rest) = verify_video boundary c >> verify_videos boundary rest

-- `approve`
unfoldable pub approve : Boundary → Store → String → String → ℕ → Outcome Store
approve boundary store expected_digest reviewer now = do
  validate_campaign boundary store.manifest
  require
      (str_eq expected_digest (boundary.digest store.manifest) && is_text (boundary.trim reviewer))
      "Approval must match the reviewed manifest digest"
  require (all_accepted store.ledger)
      "Unresolved attempts or missed slots require review before approval"
  verify_videos boundary store.manifest.creatives
  ok (record store {
    approval = some (record {
      manifest_sha256 = boundary.digest store.manifest;
      reviewer = reviewer;
      approved_at = now;
    });
  })

-- `difference < 0` and `difference >= 60000`, both false for a date that is none.
abbrev pub is_early : ℕ → Option ℕ → Bool
is_early now none = false
is_early now (some slot) = ltb now slot

abbrev pub is_late : ℕ → Option ℕ → Bool
is_late now none = false
is_late now (some slot) = leb (slot + 60000) now

-- `toISOString().slice(0, 10)` is the same for both: the day in UTC.
abbrev same_day : ℕ → ℕ → Bool
same_day a b = a / 86400000 == b / 86400000

unfoldable pub some_on_day : ℕ → List CampaignEntry → Bool
some_on_day now [] = false
some_on_day now (e ∷ rest) = same_day e.attempted_at now || some_on_day now rest

abbrev pub has_entries : List CampaignEntry → Bool
has_entries [] = false
has_entries (e ∷ rest) = true

unfoldable pub new_entry : Boundary → Store → String → EntryState → ℕ → CampaignEntry
new_entry boundary store id state now = record {
  publication_id = id;
  manifest_sha256 = boundary.digest store.manifest;
  state = state;
  attempted_at = now;
  task_id = none;
  canonical_url = none;
  public_acceptance = none;
  recovery_tasks = [];
}

-- A scheduling pass has answered, or its entry is on the disk and its request goes to the
-- transport.
pub data Pass : Type 0 where
  answered : String → Store → Pass
  sending : String → CampaignRequest → Store → Pass

unfoldable pub push_entry : Store → CampaignEntry → Store
push_entry store entry = record store { ledger = store.ledger ++ entry ∷ [] }

-- The attempt on a creative whose minute has come.
unfoldable pub attempt : Boundary → Store → ℕ → Bool → CampaignCreative → Outcome Pass
attempt boundary store now observed_first creative = do
  require (has_entries store.ledger || observed_first) "First post requires an observing operator"
  require (not (some_on_day now store.ledger)) "Daily pilot limit reached"
  verify_video boundary creative
  request ← boundary.normalize (creative_request publish_action store.manifest creative)
  ok (
      sending creative.publication_id request
        (push_entry store (new_entry boundary store creative.publication_id dispatching now)))

unfoldable pub consider : Boundary → Store → ℕ → Bool → Option CampaignCreative → Outcome Pass
consider boundary store now observed_first none = ok (answered "COMPLETE" store)
consider boundary store now observed_first (some creative) =
    if is_early now creative.scheduled_at
    then ok (answered "NOT_DUE" store)
    else if is_late now creative.scheduled_at
    then ok (
        answered "MISSED"
          (push_entry store (new_entry boundary store creative.publication_id missed now)))
    else attempt boundary store now observed_first creative

abbrev pub unless_held : Bool → Store → Outcome Pass → Outcome Pass
unless_held true store pass = pass
unless_held false store pass = ok (answered "HOLD_EXISTING_ATTEMPT" store)

-- `tick`, up to the transport.
unfoldable pub begin_tick : Boundary → Store → ℕ → Bool → Outcome Pass
begin_tick boundary store now observed_first = do
  validate_campaign boundary store.manifest
  require (is_approved boundary store now store.approval) "Matching merchant approval required"
  unless_held (all_accepted store.ledger) store (
      consider boundary store now observed_first
        (next_creative store.manifest.creatives store.ledger))

-- A receipt with a task is accepted; any other outcome is uncertain.
unfoldable pub with_receipt : Outcome String → CampaignEntry → CampaignEntry
with_receipt (throw e) entry = record entry { state = hold }
with_receipt (ok task_id) entry =
    if is_text task_id
    then record entry { state = accepted; task_id = some task_id }
    else record entry { state = hold }

-- `tick`, after the transport: the entry that was pushed is the one of its id.
unfoldable pub finish_tick : Outcome String → String → Store → Store
finish_tick receipt id store = record store {
  ledger = update_entry id (with_receipt receipt) store.ledger;
}

-- An entry that is neither missed nor accepted.
abbrev pub is_pending : CampaignEntry → Bool
is_pending e = not (is_missed e.state) && not (is_accepted e.state)

unfoldable pub pending_entry : Option CampaignEntry → Option CampaignEntry
pending_entry none = none
pending_entry (some e) = if is_pending e then some e else none

-- The tests that `recover` and `inspect` share: the entry and the creative.
unfoldable pub open_attempt : Boundary → Store → String → Outcome (CampaignEntry × CampaignCreative)
open_attempt boundary store id = do
  validate_campaign boundary store.manifest
  entry ← or_throw (pending_entry (find_entry id store.ledger)) "No pending original attempt"
  same ← approves boundary store
  require (str_eq entry.manifest_sha256 (boundary.digest store.manifest) && same)
      "Original approved campaign identity required"
  creative ← or_throw (find_creative id store.manifest.creatives) "Unknown creative"
  ok (entry, creative)

abbrev pub held : CampaignEntry → CampaignEntry
held entry = record entry { state = hold }

-- `recover`, up to the transport.
unfoldable pub begin_recover :
    Boundary → Store → String → RecoveryAction → Outcome (CampaignRequest × Store)
begin_recover boundary store id action = do
  (entry, creative) ← open_attempt boundary store id
  request ← boundary.normalize (creative_request (recovery_action action) store.manifest creative)
  ok (request, record store { ledger = update_entry id held store.ledger })

abbrev pub with_recovery : RecoveryTask → CampaignEntry → CampaignEntry
with_recovery task entry = record entry { recovery_tasks = entry.recovery_tasks ++ task ∷ [] }

-- `recover`, after the transport: a failure is thrown on.
unfoldable pub finish_recover : Outcome String → String → RecoveryAction → ℕ → Store → Outcome Store
finish_recover receipt id action now store = do
  task_id ← receipt
  ok (record store {
    ledger =
        update_entry id (with_recovery (record { task_id = task_id; action = action; at = now }))
          store.ledger;
  })
