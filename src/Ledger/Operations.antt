-- ===== src/Ledger/Operations.antt =====
-- `getPublication`, `begin`, `advance` and `setOutcome` of mobile/src/tiktok-ledger.ts.
use one_autojs.Base.{
  ℕ, String, Bool, true, false, ◌&&◌, Option, none, some, List, Number, find, put, str_eq, ltb, leb,
  if◌then◌else◌, Outcome, ok, throw,
}
use one_autojs.Ledger.{
  TikTokPublicationPhase, prechecked, TikTokPublicationOutcome, pending, NewTikTokPublication,
  TikTokPublicationRecord, TikTokPostSettingsEvidence, TikTokLedgerState, phase_order, TikTokLedger,
}
use one_autojs.Ledger.Storage.{persist}

-- A field of a `Partial` argument: absent, or given, with undefined as `none`.
pub data Change (A : Type 0) : Type 0 where
  keep : Change A
  assign : Option A → Change A

abbrev pub changed : {A : Type 0} → Change A → Option A → Option A
changed keep old = old
changed (assign v) old = v

-- `change ?? now`
abbrev pub given_or : Change Number → Number → Number
given_or (assign (some v)) now = v
given_or _ now = now

-- The `patch` of `advance`; an outcome is given or absent.
pub record AdvancePatch : Type 0 where
  pub outcome : Option TikTokPublicationOutcome
  pub committed_at : Change Number
  pub submitted_at : Change Number
  pub published_at : Change Number
  pub baseline_post_ids : Change (List String)
  pub baseline_tile_count : Change Number
  pub post_url : Change String
  pub canonical_url : Change String
  pub share_url : Change String
  pub post_id : Change String
  pub error_code : Change String

-- The `patch` of `checkpoint`.
pub record CheckpointPatch : Type 0 where
  pub baseline_post_ids : Change (List String)
  pub baseline_tile_count : Change Number
  pub post_id : Change String
  pub post_url : Change String
  pub canonical_url : Change String
  pub share_url : Change String
  pub post_settings_evidence : Change TikTokPostSettingsEvidence

abbrev pub outcome_or :
    Option TikTokPublicationOutcome → TikTokPublicationOutcome → TikTokPublicationOutcome
outcome_or (some o) old = o
outcome_or none old = old

abbrev pub new_record : NewTikTokPublication → Number → TikTokPublicationRecord
new_record input now = record {
  input = input;
  phase = prechecked;
  outcome = pending;
  post_settings_evidence = none;
  created_at = now;
  updated_at = now;
  committed_at = none;
  submitted_at = none;
  published_at = none;
  baseline_post_ids = none;
  baseline_tile_count = none;
  post_url = none;
  canonical_url = none;
  share_url = none;
  post_id = none;
  error_code = none;
}

-- The state with a publication's record replaced.
abbrev pub with_record : TikTokLedgerState → String → TikTokPublicationRecord → TikTokLedgerState
with_record s id r = record s { publications = put id r s.publications }

abbrev pub commit_ledger : TikTokLedger → TikTokLedgerState → TikTokLedger
commit_ledger l s = persist (record l { state = s })

-- `get`
unfoldable pub get_publication : TikTokLedger → String → Option TikTokPublicationRecord
get_publication l id = find id l.state.publications

-- What `begin` returns, beside the ledger that it leaves.
pub record Begun : Type 0 where
  pub ledger : TikTokLedger
  pub publication : TikTokPublicationRecord
  pub created : Bool

unfoldable pub begin_with :
    TikTokLedger → NewTikTokPublication → Number → Option TikTokPublicationRecord → Outcome Begun
begin_with l input now (some existing) =
    if str_eq existing.input.request_fingerprint input.request_fingerprint
    then ok (record { ledger = l; publication = existing; created = false })
    else throw "PUBLICATION_ID_CONFLICT"
begin_with l input now none =
    let r = new_record input now in
    ok (record {
      ledger = commit_ledger l (with_record l.state input.publication_id r);
      publication = r;
      created = true;
    })

unfoldable pub begin : TikTokLedger → NewTikTokPublication → Number → Outcome Begun
unfolding begin_with
begin l input now = begin_with l input now (find input.publication_id l.state.publications)

-- `PHASE_ORDER[record.phase] < n && PHASE_ORDER[phase] >= n`
abbrev pub crosses : ℕ → TikTokPublicationPhase → TikTokPublicationPhase → Bool
crosses n old new = ltb (phase_order old) n && leb n (phase_order new)

-- The assignments of `advance` to the record.
unfoldable pub advanced_record :
    TikTokPublicationRecord
    → TikTokPublicationPhase
    → AdvancePatch
    → Number
    → TikTokPublicationRecord
advanced_record r phase patch now = record r {
  phase = phase;
  updated_at = now;
  outcome = outcome_or patch.outcome r.outcome;
  committed_at =
      if crosses 2 r.phase phase
      then some (given_or patch.committed_at now)
      else changed patch.committed_at r.committed_at;
  submitted_at =
      if crosses 3 r.phase phase
      then some (given_or patch.submitted_at now)
      else changed patch.submitted_at r.submitted_at;
  published_at = changed patch.published_at r.published_at;
  baseline_post_ids = changed patch.baseline_post_ids r.baseline_post_ids;
  baseline_tile_count = changed patch.baseline_tile_count r.baseline_tile_count;
  post_url = changed patch.post_url r.post_url;
  canonical_url = changed patch.canonical_url r.canonical_url;
  share_url = changed patch.share_url r.share_url;
  post_id = changed patch.post_id r.post_id;
  error_code = changed patch.error_code r.error_code;
}

-- The uses that the first commit marks.
unfoldable pub mark_uses :
    TikTokLedgerState → TikTokPublicationRecord → Bool → Number → TikTokLedgerState
mark_uses s r first_commit now =
    if first_commit
    then record s {
      material_uses = put r.input.media.fingerprint now s.material_uses;
      caption_uses = put r.input.caption.fingerprint now s.caption_uses;
    }
    else s

unfoldable pub advance_with :
    TikTokLedger
    → String
    → TikTokPublicationPhase
    → AdvancePatch
    → Number
    → Option TikTokPublicationRecord
    → Outcome (TikTokLedger × TikTokPublicationRecord)
advance_with l id phase patch now none = throw "PUBLICATION_NOT_FOUND"
advance_with l id phase patch now (some r) =
    if ltb (phase_order phase) (phase_order r.phase)
    then throw "PUBLICATION_PHASE_REGRESSION"
    else let r' = advanced_record r phase patch now in
      ok (
        commit_ledger l (with_record (mark_uses l.state r (crosses 2 r.phase phase) now) id r'),
        r',
      )

unfoldable pub advance :
    TikTokLedger
    → String
    → TikTokPublicationPhase
    → AdvancePatch
    → Number
    → Outcome (TikTokLedger × TikTokPublicationRecord)
unfolding advance_with
advance l id phase patch now = advance_with l id phase patch now (find id l.state.publications)

unfoldable pub set_outcome_with :
    TikTokLedger
    → String
    → TikTokPublicationOutcome
    → Option String
    → Number
    → Option TikTokPublicationRecord
    → Outcome (TikTokLedger × TikTokPublicationRecord)
set_outcome_with l id outcome error_code now none = throw "PUBLICATION_NOT_FOUND"
set_outcome_with l id outcome error_code now (some r) =
    let r' = record r { outcome = outcome; error_code = error_code; updated_at = now } in
    ok (commit_ledger l (with_record l.state id r'), r')

unfoldable pub set_outcome :
    TikTokLedger
    → String
    → TikTokPublicationOutcome
    → Option String
    → Number
    → Outcome (TikTokLedger × TikTokPublicationRecord)
unfolding set_outcome_with
set_outcome l id outcome error_code now =
    set_outcome_with l id outcome error_code now (find id l.state.publications)
