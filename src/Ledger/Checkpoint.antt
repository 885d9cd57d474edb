-- ===== src/Ledger/Checkpoint.antt =====
-- `checkpoint` of mobile/src/tiktok-ledger.ts.
use one_autojs.Base.{String, Option, none, some, Number, find, Outcome, ok, throw}
use one_autojs.Ledger.{TikTokPublicationRecord, TikTokLedger}
use one_autojs.Ledger.Operations.{changed, CheckpointPatch, with_record, commit_ledger}

unfoldable pub checkpoint_record :
    TikTokPublicationRecord → CheckpointPatch → Number → TikTokPublicationRecord
checkpoint_record r patch now = record r {
  baseline_post_ids = changed patch.baseline_post_ids r.baseline_post_ids;
  baseline_tile_count = changed patch.baseline_tile_count r.baseline_tile_count;
  post_id = changed patch.post_id r.post_id;
  post_url = changed patch.post_url r.post_url;
  canonical_url = changed patch.canonical_url r.canonical_url;
  share_url = changed patch.share_url r.share_url;
  post_settings_evidence = changed patch.post_settings_evidence r.post_settings_evidence;
  updated_at = now;
}

unfoldable pub checkpoint_with :
    TikTokLedger
    → String
    → CheckpointPatch
    → Number
    → Option TikTokPublicationRecord
    → Outcome (TikTokLedger × TikTokPublicationRecord)
unfolding checkpoint_record
checkpoint_with l id patch now none = throw "PUBLICATION_NOT_FOUND"
checkpoint_with l id patch now (some r) =
    let r' = checkpoint_record r patch now in ok (commit_ledger l (with_record l.state id r'), r')

unfoldable pub checkpoint :
    TikTokLedger
    → String
    → CheckpointPatch
    → Number
    → Outcome (TikTokLedger × TikTokPublicationRecord)
unfolding checkpoint_with
checkpoint l id patch now = checkpoint_with l id patch now (find id l.state.publications)
