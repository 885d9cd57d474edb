-- ===== src/Campaign.antt =====
-- The TikTok campaign of the server, pc/src/tiktok-campaign.ts: its records and what it is given
-- from outside. An instant is its number of milliseconds since 1970; `none` is a date that
-- Date.parse does not read.
pub mod Validate
pub mod Operations
pub mod Attempt
pub mod Review
pub mod Reschedule
pub mod Line
pub mod Moves
pub mod Find
pub mod Resume
pub mod Steps
pub mod Refine
pub mod Replan
pub mod Runs
pub mod Tracked
pub mod Once
mod Tests
use one_autojs.Base.{ℕ, String, Bool, List, Option, Number, Json, Outcome}

pub record CampaignCreative : Type 0 where
  pub publication_id : String
  pub sku : String
  pub video_path : String
  pub device_path : String
  pub sha256 : String
  pub title : String
  pub caption : String
  pub landing_url : String
  pub source_verified_at : Option ℕ
  pub source_evidence_sha256 : String
  pub scheduled_at : Option ℕ
  pub audience : String
  pub commercial_disclosure : String

pub record CampaignManifest : Type 0 where
  pub schema_version : ℕ
  pub campaign_id : String
  pub expected_handle : String
  pub device_client_id : String
  pub timezone : String
  pub creatives : List CampaignCreative

pub record CampaignApproval : Type 0 where
  pub manifest_sha256 : String
  pub reviewer : String
  pub approved_at : ℕ

pub data EntryState : Type 0 where
  dispatching accepted hold review_required public_accepted missed : EntryState

pub data RecoveryAction : Type 0 where
  status recover : RecoveryAction

pub record RecoveryTask : Type 0 where
  pub task_id : String
  pub action : RecoveryAction
  pub at : ℕ

pub record PublicAcceptance : Type 0 where
  pub reviewer : String
  pub verified_at : ℕ
  pub evidence_sha256 : String

-- `CampaignEntry`, without the texts of its reasons.
pub record CampaignEntry : Type 0 where
  pub publication_id : String
  pub manifest_sha256 : String
  pub state : EntryState
  pub attempted_at : ℕ
  pub task_id : Option String
  pub canonical_url : Option String
  pub public_acceptance : Option PublicAcceptance
  pub recovery_tasks : List RecoveryTask

-- An element of the reschedule journal.
pub record JournalEntry : Type 0 where
  pub reviewer : String
  pub at : ℕ
  pub original_manifest : CampaignManifest
  pub original_approval : Option CampaignApproval
  pub original_ledger : List CampaignEntry
  pub next_manifest_sha256 : String

-- The files of the campaign's directory; the lock is held over each operation.
pub record Store : Type 0 where
  pub manifest : CampaignManifest
  pub approval : Option CampaignApproval
  pub ledger : List CampaignEntry
  pub journal : List JournalEntry

pub data RequestAction : Type 0 where
  publish_action : RequestAction
  recovery_action : RecoveryAction → RequestAction

-- The fields of a TikTok request that the campaign fills in and reads.
pub record CampaignRequest : Type 0 where
  pub action : RequestAction
  pub publication_id : String
  pub expected_handle : String
  pub path : String
  pub expected_sha256 : String
  pub title : String
  pub details : String

-- What `new URL` gives of a landing page.
pub record Destination : Type 0 where
  pub origin : String
  pub pathname : String
  pub utm_source : Option String

-- `isFile()`, the size and the SHA-256 of a local file.
pub record VideoFile : Type 0 where
  pub is_file : Bool
  pub size : ℕ
  pub sha256 : String

-- The functions that the campaign calls: the digest of a manifest, `new URL`,
-- `normalizeTikTokRequest`, the local files, `trim` of a reviewer's name, the text of a value in a
-- template, and the digest of a title and a caption.
pub record Boundary : Type 0 where
  pub digest : CampaignManifest → String
  pub parse_url : String → Outcome Destination
  pub normalize : CampaignRequest → Outcome CampaignRequest
  pub video : String → Outcome VideoFile
  pub trim : String → String
  pub template : Option Json → List ℕ
  pub caption_sha256 : String → String → String
