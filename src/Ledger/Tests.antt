-- ===== src/Ledger/Tests.antt =====
-- A publication's life in the ledger, and instances of the theorems.
use one_autojs.Base.{
  ◌≡◌, ◌⊎◌, refl, String, true, false, none, some, List, [], ◌∷◌, Number, of_ℕ, find, put,
  number_le, number_lt, is_sha256, is_finite, if◌then◌else◌, str_eq, ok, throw, none≢some,
}
use one_autojs.Ledger.{
  NewTikTokPublication, TikTokPublicationRecord, video, editor_ready, committing, empty_state,
  missing, holds, TikTokLedger, TikTokLedgerState,
}
use one_autojs.Ledger.Storage.{persist, loaded, between, Crash-loaded, write_backup}
use one_autojs.Ledger.Import.{import_legacy_unverified, import_uses}
use one_autojs.Ledger.Operations.{
  AdvancePatch, keep, Begun, begin, advance, advanced_record, mark_uses, new_record,
}
use one_autojs.Ledger.Phases.{
  Grows, begun, advanced, LedgerRun, here, next, IsSaved, LedgerRun-Grows,
}
use one_autojs.Ledger.Uses.{HasUses, LedgerRun-HasUses, begin-begin}
use one_autojs.Ledger.Legacy.{use_of, Covers, import_legacy_unverified_lem}

abbrev input : NewTikTokPublication
input = record {
  publication_id = "pub_00001";
  request_fingerprint = "request";
  account = "shop";
  media = record {
    path = "/sdcard/a.mp4";
    kind = video;
    fingerprint = "material";
    size = of_ℕ 9;
    expected_sha256 = none;
  };
  caption = record { title = "t"; details = "d"; caption = "t d"; fingerprint = "caption" };
  post_settings = none;
}

abbrev no_change : AdvancePatch
no_change = record {
  outcome = none;
  committed_at = keep;
  submitted_at = keep;
  published_at = keep;
  baseline_post_ids = keep;
  baseline_tile_count = keep;
  post_url = keep;
  canonical_url = keep;
  share_url = keep;
  post_id = keep;
  error_code = keep;
}

abbrev blank : TikTokLedger
blank = record {
  state = record { publications = []; material_uses = []; caption_uses = []; legacy_import = none };
  disk = record { file = missing; backup = missing };
}

abbrev first_record : TikTokPublicationRecord
first_record = new_record input (of_ℕ 10)

abbrev begun_state : TikTokLedgerState
begun_state = record {
  publications = ("pub_00001", first_record) ∷ [];
  material_uses = [];
  caption_uses = [];
  legacy_import = none;
}

abbrev begun_ledger : TikTokLedger
begun_ledger = record {
  state = begun_state;
  disk = record { file = holds begun_state; backup = missing };
}

abbrev begun_result : Begun
begun_result = record { ledger = begun_ledger; publication = first_record; created = true }

begins : begin blank input (of_ℕ 10) ≡ ok begun_result
unfolding begin persist find put
begins = refl

abbrev committed_record : TikTokPublicationRecord
committed_record = record first_record {
  phase = committing;
  updated_at = of_ℕ 20;
  committed_at = some (of_ℕ 20);
}

abbrev committed_state : TikTokLedgerState
committed_state = record {
  publications = ("pub_00001", committed_record) ∷ [];
  material_uses = ("material", of_ℕ 20) ∷ [];
  caption_uses = ("caption", of_ℕ 20) ∷ [];
  legacy_import = none;
}

abbrev committed_ledger : TikTokLedger
committed_ledger = record {
  state = committed_state;
  disk = record { file = holds committed_state; backup = holds begun_state };
}

commits :
    advance begun_ledger "pub_00001" committing no_change (of_ℕ 20)
    ≡ ok (committed_ledger, committed_record)
unfolding advance advanced_record mark_uses persist find put
commits = refl

regresses :
    advance committed_ledger "pub_00001" editor_ready no_change (of_ℕ 30)
    ≡ throw "PUBLICATION_PHASE_REGRESSION"
unfolding advance find
regresses = refl

abbrev two_steps : LedgerRun blank committed_ledger
two_steps =
    next (next here (begun input (of_ℕ 10) begun_result begins refl))
      (advanced "pub_00001" committing no_change (of_ℕ 20) committed_record commits)

blank-IsSaved : IsSaved blank
unfolding loaded empty_state
blank-IsSaved = refl

blank-HasUses : HasUses blank.state
unfolding find
blank-HasUses id r at = absurd (none≢some at)

LedgerRun-Grows_example :
    Grows blank.state.publications committed_ledger.state.publications × IsSaved committed_ledger
LedgerRun-Grows_example = LedgerRun-Grows blank-IsSaved two_steps

LedgerRun-HasUses_example : HasUses committed_ledger.state
LedgerRun-HasUses_example = LedgerRun-HasUses blank-IsSaved blank-HasUses two_steps

begin-begin_example : begin begun_ledger input (of_ℕ 11) ≡ (
    if str_eq "request" "request"
    then ok (record { ledger = begun_ledger; publication = first_record; created = false })
    else throw "PUBLICATION_ID_CONFLICT")
begin-begin_example = begin-begin blank input input (of_ℕ 10) (of_ℕ 11) begun_result begins refl

-- A ledger about to persist its second state.
abbrev unsaved : TikTokLedger
unsaved = record committed_ledger { disk = begun_ledger.disk }

Crash-loaded_example :
    (loaded (write_backup begun_ledger.disk) ≡ loaded begun_ledger.disk)
    ⊎ (loaded (write_backup begun_ledger.disk) ≡ committed_state)
Crash-loaded_example = Crash-loaded unsaved between

abbrev hash : String
hash = "0123456789abcdef0123456789abcdef0123456789abcdef0123456789abcdef"

abbrev entries : List (String × Number)
entries = (hash, of_ℕ 5) ∷ ("bad", of_ℕ 6) ∷ []

import_legacy_unverified_example :
    let s = (import_legacy_unverified blank entries [] (of_ℕ 9)).state in
    ((key : String) → number_le (use_of key []) (use_of key s.material_uses) ≡ true)
    × ((key : String) → number_le (use_of key []) (use_of key s.caption_uses) ≡ true)
    × Covers s.material_uses entries
    × Covers s.caption_uses []
    × ((materials' captions' : List (String × Number)) (now' : Number)
        → import_legacy_unverified
            (import_legacy_unverified blank entries [] (of_ℕ 9))
            materials'
            captions'
            now'
          ≡ import_legacy_unverified blank entries [] (of_ℕ 9))
import_legacy_unverified_example = import_legacy_unverified_lem blank entries [] (of_ℕ 9) refl

imports_hash : import_uses entries [] ≡ (hash, of_ℕ 5) ∷ []
unfolding import_uses is_sha256 is_finite find put number_lt
imports_hash = refl
