-- ===== src/Campaign/Reschedule.antt =====
-- `reschedule` of pc/src/tiktok-campaign.ts: a manifest in which the publications that are not
-- accepted yet have new dates.
use Prim.Native.Nat.{◌*◌}
use one_autojs.Base.{
  ℕ, ◌+◌, String, Bool, true, false, not, ◌&&◌, ◌||◌, List, [], ◌∷◌, ◌++◌, Option, none, some,
  codes, ltb, Outcome, ok, ◌>>◌, require, if◌then◌else◌,
}
use one_autojs.Deployment.Archive.{is_empty}
use one_autojs.Campaign.{CampaignCreative, CampaignManifest, CampaignEntry, Store, Boundary}
use one_autojs.Campaign.Validate.{validate_campaign}
use one_autojs.Campaign.Operations.{is_accepted, is_missed, find_entry, is_known}

unfoldable pub some_missed : List CampaignEntry → Bool
some_missed [] = false
some_missed (e ∷ rest) = is_missed e.state || some_missed rest

unfoldable pub all_closed : List CampaignEntry → Bool
all_closed [] = true
all_closed (e ∷ rest) = (is_missed e.state || is_accepted e.state) && all_closed rest

unfoldable pub keep_accepted : List CampaignEntry → List CampaignEntry
keep_accepted [] = []
keep_accepted (e ∷ rest) =
    if is_accepted e.state then e ∷ keep_accepted rest else keep_accepted rest

-- The first entry of the id that is accepted.
abbrev is_settled : String → List CampaignEntry → Bool
is_settled id ledger = is_known (find_entry id (keep_accepted ledger))

-- The loop over the creatives: those that are not accepted get a slot each, two days apart.
unfoldable pub replan : List CampaignEntry → ℕ → List CampaignCreative → List CampaignCreative
replan ledger slot [] = []
replan ledger slot (c ∷ rest) =
    if is_settled c.publication_id ledger
    then c ∷ replan ledger slot rest
    else record c { scheduled_at = some slot } ∷ replan ledger (slot + 2 * 86400000) rest

abbrev pub is_future : ℕ → Option ℕ → Bool
is_future now none = false
is_future now (some start) = ltb now start

abbrev pub start_or_zero : Option ℕ → ℕ
start_or_zero none = 0
start_or_zero (some start) = start

unfoldable pub replanned : Store → ℕ → CampaignManifest
replanned store start = record store.manifest {
  creatives = replan store.ledger start store.manifest.creatives;
}

-- `reschedule`
unfoldable pub reschedule : Boundary → Store → Option ℕ → String → ℕ → Outcome Store
reschedule boundary store first_remaining_slot reviewer now = do
  validate_campaign boundary store.manifest
  require
      (not (is_empty (codes (boundary.trim reviewer)))
        && some_missed store.ledger
        && all_closed store.ledger)
      "Only missed, never-dispatched slots may be replanned"
  require (is_future now first_remaining_slot) "Replanned slots must be in the future"
  let next = replanned store (start_or_zero first_remaining_slot)
  validate_campaign boundary next
  ok (record {
    manifest = next;
    approval = none;
    ledger = keep_accepted store.ledger;
    journal =
        store.journal
        ++ record {
          reviewer = reviewer;
          at = now;
          original_manifest = store.manifest;
          original_approval = store.approval;
          original_ledger = store.ledger;
          next_manifest_sha256 = boundary.digest next;
        }
          ∷ [];
  })
