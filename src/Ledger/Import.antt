-- ===== src/Ledger/Import.antt =====
-- `importLegacyUnverified` of mobile/src/tiktok-ledger.ts.
use one_autojs.Base.{
  String, ◌&&◌, Option, none, some, List, [], ◌∷◌, Number, of_ℕ, number_max, is_finite, is_sha256,
  find, put, if◌then◌else◌,
}
use one_autojs.Ledger.{TikTokLedger}
use one_autojs.Ledger.Operations.{commit_ledger}

abbrev pub use_or_zero : Option Number → Number
use_or_zero (some n) = n
use_or_zero none = of_ℕ 0

-- One of the two loops of `importLegacyUnverified`.
unfoldable pub import_uses :
    List (String × Number) → List (String × Number) → List (String × Number)
import_uses [] uses = uses
import_uses ((fingerprint, used_at) ∷ entries) uses = import_uses entries (
    if is_sha256 fingerprint && is_finite used_at
    then put fingerprint (number_max (use_or_zero (find fingerprint uses)) used_at) uses
    else uses)

unfoldable pub import_with :
    TikTokLedger
    → List (String × Number)
    → List (String × Number)
    → Number
    → Option Number
    → TikTokLedger
import_with l materials captions now (some imported) = l
import_with l materials captions now none = commit_ledger l (record l.state {
  material_uses = import_uses materials l.state.material_uses;
  caption_uses = import_uses captions l.state.caption_uses;
  legacy_import = some now;
})

-- `importLegacyUnverified`
unfoldable pub import_legacy_unverified :
    TikTokLedger → List (String × Number) → List (String × Number) → Number → TikTokLedger
unfolding import_with
import_legacy_unverified l materials captions now =
    import_with l materials captions now l.state.legacy_import
