-- ===== src/Ledger.antt =====
-- The private ledger of TikTok publications: mobile/src/tiktok-ledger.ts.
pub mod Operations
pub mod Checkpoint
pub mod Import
pub mod Storage
pub mod Inversion
pub mod Phases
pub mod Uses
pub mod Legacy
mod Tests
use one_autojs.Base.{ℕ, String, Bool, Option, none, some, List, [], Number}

-- `TikTokPublicationPhase`
pub data TikTokPublicationPhase : Type 0 where
  prechecked editor_ready committing submitted post_confirmed link_confirmed :
      TikTokPublicationPhase

-- `TikTokPublicationOutcome`
pub data TikTokPublicationOutcome : Type 0 where
  pending success failure published_link_pending publish_outcome_unknown : TikTokPublicationOutcome

pub data MediaKind : Type 0 where
  image video : MediaKind

-- `TikTokLedgerMedia`
pub record TikTokLedgerMedia : Type 0 where
  pub path : String
  pub kind : MediaKind
  pub fingerprint : String
  pub size : Number
  pub expected_sha256 : Option String

-- `TikTokPostSettings`: its two fields have one value each.
pub data TikTokPostSettings : Type 0 where
  public_your_brand : TikTokPostSettings

-- `TikTokPostSettingsEvidence`, less the fields that have one value.
pub record TikTokPostSettingsEvidence : Type 0 where
  pub verified_at : Number

-- `TikTokLedgerCaption`
pub record TikTokLedgerCaption : Type 0 where
  pub title : String
  pub details : String
  pub caption : String
  pub fingerprint : String

-- `NewTikTokPublication`
pub record NewTikTokPublication : Type 0 where
  pub publication_id : String
  pub request_fingerprint : String
  pub account : String
  pub media : TikTokLedgerMedia
  pub caption : TikTokLedgerCaption
  pub post_settings : Option TikTokPostSettings

-- `TikTokPublicationRecord`; the fields of the request that it was made from are `input`.
pub record TikTokPublicationRecord : Type 0 where
  pub input : NewTikTokPublication
  pub phase : TikTokPublicationPhase
  pub outcome : TikTokPublicationOutcome
  pub post_settings_evidence : Option TikTokPostSettingsEvidence
  pub created_at : Number
  pub updated_at : Number
  pub committed_at : Option Number
  pub submitted_at : Option Number
  pub published_at : Option Number
  pub baseline_post_ids : Option (List String)
  pub baseline_tile_count : Option Number
  pub post_url : Option String
  pub canonical_url : Option String
  pub share_url : Option String
  pub post_id : Option String
  pub error_code : Option String

-- `TikTokLedgerState`, without the constant `version: 1`; `legacy_import` is the import's time.
pub record TikTokLedgerState : Type 0 where
  pub publications : List (String × TikTokPublicationRecord)
  pub material_uses : List (String × Number)
  pub caption_uses : List (String × Number)
  pub legacy_import : Option Number

-- `emptyState`
unfoldable pub empty_state : TikTokLedgerState
empty_state = record {
  publications = [];
  material_uses = [];
  caption_uses = [];
  legacy_import = none;
}

-- `PHASE_ORDER`
abbrev pub phase_order : TikTokPublicationPhase → ℕ
phase_order prechecked = 0
phase_order editor_ready = 1
phase_order committing = 2
phase_order submitted = 3
phase_order post_confirmed = 4
phase_order link_confirmed = 5

-- What a file holds: nothing is there, a text that `readState` refuses, or a ledger.
pub data FileContent : Type 0 where
  missing : FileContent
  unreadable : FileContent
  holds : TikTokLedgerState → FileContent

-- The files `publications.json` and its `.bak`.
pub record Disk : Type 0 where
  pub file : FileContent
  pub backup : FileContent

-- An open `TikTokLedger`: its state in memory, and the files.
pub record TikTokLedger : Type 0 where
  pub state : TikTokLedgerState
  pub disk : Disk
