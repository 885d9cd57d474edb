-- ===== src/Campaign/Review.antt =====
-- The review of an attempt in pc/src/tiktok-campaign.ts: `inspect` and `acceptPublic`.
use one_autojs.Base.{
  ℕ, ◌+◌, String, Bool, true, false, not, ◌&&◌, ◌||◌, List, [], ◌∷◌, ◌++◌, Option, none, some, Json,
  bool, Number, of_ℕ, get, as_record, as_string, as_number, is_number, is_string, is_safe_integer,
  number_le, number_add, codes, str_eq, is_sha256, Outcome, ok, ◌>>=◌, ◌>>◌, require, if◌then◌else◌,
}
use one_autojs.Deployment.Archive.{is_empty}
use one_autojs.Campaign.{
  CampaignCreative, CampaignManifest, EntryState, hold, review_required, public_accepted,
  PublicAcceptance, CampaignEntry, Store, Boundary,
}
use one_autojs.Campaign.Validate.{validate_campaign, after_start, all_digits, ends_with}
use one_autojs.Campaign.Operations.{find_entry, update_entry, approves, open_attempt}
use one_autojs.Campaign.Attempt.{Resumed, Attempted, inspection_attempt}

-- What the transport's `inspect` answers.
pub record TaskView : Type 0 where
  pub status : String
  pub client_id : String
  pub script_id : Option String
  pub create_time_utc : Number
  pub result : Option Json

-- `value?.key` for a record.
abbrev pub field_of : String → Option Json → Option Json
field_of key none = none
field_of key (some value) = elim (as_record value) [ none ↦ none | some fields ↦ get key fields ]

abbrev is_true : Option Json → Bool
is_true (some (bool b)) = b
is_true _ = false

abbrev some_digits : Option (List ℕ) → Bool
some_digits none = false
some_digits (some []) = false
some_digits (some (c ∷ s)) = all_digits (c ∷ s)

-- `/^https:\/\/www\.tiktok\.com\/@…\/video\/\d+$/` for the pinned handle.
unfoldable pub is_canonical_url : String → String → Bool
is_canonical_url handle url = some_digits (
    after_start (codes "https://www.tiktok.com/@" ++ (codes handle ++ codes "/video/")) (codes url))

abbrev pub is_running : String → Bool
is_running status = str_eq status "PENDING" || str_eq status "EXECUTING" || str_eq status "RUNNING"

abbrev is_script : Option String → Bool
is_script none = false
is_script (some id) = str_eq id "tiktok.post"

-- `lo - 5000 <= n && n <= now + 5000`
unfoldable pub within_slack : ℕ → ℕ → Number → Bool
within_slack lo now n = number_le (of_ℕ lo) (number_add n 5000) && number_le n (of_ℕ (now + 5000))

-- The task is the one that was attempted, on the pinned device.
unfoldable pub is_own_task : CampaignManifest → Attempted → ℕ → TaskView → Bool
is_own_task manifest attempted now task =
    str_eq task.status "SUCCESS"
    && str_eq task.client_id manifest.device_client_id
    && is_script task.script_id
    && within_slack attempted.attempted_at now task.create_time_utc

-- The result reports a confirmed link of this publication.
unfoldable pub is_confirmed : String → Option Json → Bool
is_confirmed id result =
    is_number (of_ℕ 2) (field_of "contractVersion" result)
    && is_string id (field_of "publicationId" result)
    && (is_string "publish" (field_of "action" result)
        || is_string "recover" (field_of "action" result)
        || is_string "status" (field_of "action" result))
    && is_string "LINK_CONFIRMED" (field_of "phase" result)
    && is_string "SUCCESS" (field_of "outcome" result)
    && is_true (field_of "published" result)
    && is_true (field_of "success" result)
    && is_true (field_of "verified" (field_of "post" result))

-- The canonical link of the post, which ends in the id of the post.
unfoldable pub confirmed_url : Boundary → CampaignManifest → Option Json → Option String
confirmed_url boundary manifest result =
    elim (as_string (field_of "canonicalUrl" (field_of "post" result))) [
      | none ↦ none
      | some url ↦
          if is_canonical_url manifest.expected_handle url
            && ends_with (b'/' ∷ boundary.template (field_of "postId" (field_of "post" result)))
                (codes url)
          then some url
          else none
    ]

abbrev is_disclosed : Option Json → Bool
is_disclosed settings =
    is_string "PUBLIC" (field_of "audience" settings)
    && is_string "YOUR_BRAND" (field_of "commercialDisclosure" settings)

abbrev is_timely_proof : Attempted → ℕ → Option Number → Bool
is_timely_proof attempted now none = false
is_timely_proof attempted now (some at) =
    is_safe_integer at && within_slack attempted.publication_attempted_at now at

-- The settings of the post, their proof and the evidence of the creative.
unfoldable pub is_proven : Boundary → CampaignCreative → Attempted → ℕ → Option Json → Bool
is_proven boundary creative attempted now result =
    is_disclosed (field_of "postSettings" result)
    && is_true (field_of "verified" proof)
    && is_disclosed proof
    && is_timely_proof attempted now (as_number (field_of "verifiedAt" proof))
    && is_string creative.sha256 (field_of "mediaSha256" (field_of "creativeEvidence" result))
    && is_string (boundary.caption_sha256 creative.title creative.caption)
        (field_of "captionSha256" (field_of "creativeEvidence" result))
  where
    proof : Option Json
    proof = field_of "postSettingsEvidence" result

-- The confirmed link, if the outcome is valid.
unfoldable pub valid_url :
    Boundary → CampaignManifest → CampaignCreative → Attempted → ℕ → TaskView → Option String
valid_url boundary manifest creative attempted now task =
    if is_own_task manifest attempted now task
      && is_confirmed creative.publication_id task.result
      && is_proven boundary creative attempted now task.result
    then confirmed_url boundary manifest task.result
    else none

abbrev pub reviewed : Option String → CampaignEntry → CampaignEntry
reviewed none entry = record entry { state = hold }
reviewed (some url) entry = record entry { state = review_required; canonical_url = some url }

-- A task that is still running leaves the ledger as it is.
abbrev pub after_look :
    String → String → (CampaignEntry → CampaignEntry) → List CampaignEntry → List CampaignEntry
after_look state id change ledger =
    if is_running state then ledger else update_entry id change ledger

-- `inspect`: the answer of the transport is a function of the task that is inspected.
unfoldable pub inspect :
    Boundary → Option Resumed → (String → Outcome TaskView) → Store → String → ℕ → Outcome Store
inspect boundary resumed look store id now = do
  (entry, creative) ← open_attempt boundary store id
  attempted ← inspection_attempt entry resumed
  task ← look attempted.task_id
  ok (record store {
    ledger =
        after_look task.status id
          (reviewed (valid_url boundary store.manifest creative attempted now task)) store.ledger;
  })

abbrev pub is_review : EntryState → Bool
is_review review_required = true
is_review _ = false

abbrev same_url : String → Option String → Bool
same_url url none = false
same_url url (some u) = str_eq u url

-- The entry waits for its review with this link.
abbrev pub awaits : String → Option CampaignEntry → Bool
awaits url none = false
awaits url (some e) = is_review e.state && same_url url e.canonical_url

abbrev pub with_acceptance : String → PublicAcceptance → CampaignEntry → CampaignEntry
with_acceptance url acceptance entry = record entry {
  state = public_accepted;
  canonical_url = some url;
  public_acceptance = some acceptance;
}

-- `acceptPublic`
unfoldable pub accept_public :
    Boundary → Store → String → String → String → String → ℕ → Outcome Store
accept_public boundary store id url reviewer evidence now = do
  validate_campaign boundary store.manifest
  same ← approves boundary store
  require same "Creative changed since approval"
  require (is_canonical_url store.manifest.expected_handle url)
      "Expected canonical video URL for the pinned account"
  require (not (is_empty (codes (boundary.trim reviewer))) && is_sha256 evidence)
      "Independent public content/settings evidence required"
  require (awaits url (find_entry id store.ledger))
      "Verified original task result required before independent acceptance"
  ok (record store {
    ledger =
        update_entry id
          (with_acceptance url
            (record { reviewer = reviewer; verified_at = now; evidence_sha256 = evidence }))
          store.ledger;
  })
