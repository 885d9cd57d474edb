-- ===== src/Campaign/Tests.antt =====
-- Runs of a campaign on concrete data.
use one_autojs.Base.{
  throw, ℕ, ◌≡◌, refl, String, true, false, [], ◌∷◌, none, some, str_eq, matches_class, is_sha256,
  ok, if◌then◌else◌,
}
use one_autojs.Deployment.Archive.{normalize, resolve, segments, render}
use one_autojs.Campaign.{
  CampaignCreative, CampaignManifest, EntryState, CampaignEntry, Store, CampaignRequest,
  publish_action, Boundary,
}
use one_autojs.Campaign.Validate.{
  is_sku, is_local_mp4, is_hidden, is_device_path, is_destination, is_slot, is_spaced,
  verified_before, creative_request, in_list, see, is_new, is_timely, is_reviewed,
  validate_creative, validate_creatives, validate_campaign,
}
use one_autojs.Campaign.Operations.{
  approves, find_creative, answered, sending, all_accepted, find_entry, next_creative, is_approved,
  verify_video, some_on_day, new_entry, push_entry, attempt, consider, begin_tick, finish_tick,
}
use one_autojs.Campaign.Review.{is_canonical_url}
use one_autojs.Campaign.Steps.{Campaign, publishing}
use one_autojs.Campaign.Resume.{
  begin_resume, new_attempt, held_entry, others_accepted, has_action, attempts_of,
}
use one_autojs.Campaign.Runs.{Reach, here, next}
use one_autojs.Campaign.Once.{IsOnce, Reach-IsOnce}

canonical : is_canonical_url "shop.one" "https://www.tiktok.com/@shop.one/video/7301" ≡ true
unfolding is_canonical_url
canonical = refl

other_account : is_canonical_url "shop.one" "https://www.tiktok.com/@shopxone/video/7301" ≡ false
unfolding is_canonical_url
other_account = refl

abbrev hash : String → String
hash path =
    if str_eq path "/v/1.mp4"
    then "1111111111111111111111111111111111111111111111111111111111111111"
    else if str_eq path "/v/2.mp4"
    then "2222222222222222222222222222222222222222222222222222222222222222"
    else "3333333333333333333333333333333333333333333333333333333333333333"

abbrev boundary : Boundary
boundary = record {
  digest = λ manifest. "digest";
  parse_url = λ url. ok (record {
    origin = "https://shop.this-time.com";
    pathname = "/wholesale";
    utm_source = some "tiktok";
  });
  normalize = λ request. ok request;
  video = λ path. ok (record { is_file = true; size = 1000; sha256 = hash path });
  trim = λ text. text;
  template = λ value. [];
  caption_sha256 = λ title caption. "caption";
}

abbrev creative : String → String → String → String → String → ℕ → CampaignCreative
creative id sku video_path device_path sha256 slot = record {
  publication_id = id;
  sku = sku;
  video_path = video_path;
  device_path = device_path;
  sha256 = sha256;
  title = "Title";
  caption = "Caption";
  landing_url = "https://shop.this-time.com/wholesale?utm_source=tiktok";
  source_verified_at = some 1000;
  source_evidence_sha256 = hash "/v/1.mp4";
  scheduled_at = some slot;
  audience = "PUBLIC";
  commercial_disclosure = "YOUR_BRAND";
}

abbrev manifest : CampaignManifest
manifest = record {
  schema_version = 1;
  campaign_id = "pilot";
  expected_handle = "shop.one";
  device_client_id = "phone-1";
  timezone = "Asia/Shanghai";
  creatives =
      creative "p1" "SHUSHA-L0001" "/v/1.mp4" "/sdcard/Download/a-1111111111111111.mp4"
        (hash "/v/1.mp4") 133200000
      ∷ creative "p2" "SHUSHA-L0002" "/v/2.mp4" "/sdcard/Download/b-2222222222222222.mp4"
          (hash "/v/2.mp4") 306000000
      ∷ creative "p3" "SHUSHA-L0003" "/v/3.mp4" "/sdcard/Download/c-3333333333333333.mp4"
          (hash "/v/3.mp4") 478800000
      ∷ [];
}

abbrev store : Store
store = record {
  manifest = manifest;
  approval = some (record { manifest_sha256 = "digest"; reviewer = "owner"; approved_at = 2000 });
  ledger = [];
  journal = [];
}

valid : validate_campaign boundary manifest ≡ ok tt
unfolding validate_campaign validate_creatives validate_creative is_sku is_local_mp4 is_device_path
    is_hidden is_destination is_slot is_spaced verified_before creative_request in_list see is_new
    is_timely is_reviewed is_sha256 matches_class normalize resolve segments render
valid = refl

abbrev entry : CampaignEntry
entry = record {
  publication_id = "p1";
  manifest_sha256 = "digest";
  state = EntryState.dispatching;
  attempted_at = 133230000;
  task_id = none;
  canonical_url = none;
  public_acceptance = none;
  recovery_tasks = [];
}

abbrev request : CampaignRequest
request = record {
  action = publish_action;
  publication_id = "p1";
  expected_handle = "shop.one";
  path = "/sdcard/Download/a-1111111111111111.mp4";
  expected_sha256 = hash "/v/1.mp4";
  title = "Title";
  details = "Caption";
}

abbrev stored : Store
stored = record store { ledger = entry ∷ [] }

-- Half a minute after the slot, with an operator who observes.
sent_in_time : begin_tick boundary store 133230000 true ≡ ok (sending "p1" request stored)
unfolding begin_tick all_accepted find_entry next_creative is_approved verify_video some_on_day
    new_entry push_entry attempt consider validate_campaign validate_creatives validate_creative
    is_sku is_local_mp4 is_device_path is_hidden is_destination is_slot is_spaced verified_before
    creative_request in_list see is_new is_timely is_reviewed is_sha256 matches_class normalize
    resolve segments render
sent_in_time = refl

-- A minute after the slot it is missed.
too_late :
    begin_tick boundary store 133260000 true
    ≡ ok (
        answered "MISSED" (record store {
          ledger = record entry { state = EntryState.missed; attempted_at = 133260000 } ∷ [];
        }))
unfolding begin_tick all_accepted find_entry next_creative is_approved verify_video some_on_day
    new_entry push_entry attempt consider validate_campaign validate_creatives validate_creative
    is_sku is_local_mp4 is_device_path is_hidden is_destination is_slot is_spaced verified_before
    creative_request in_list see is_new is_timely is_reviewed is_sha256 matches_class normalize
    resolve segments render
too_late = refl

-- A held publication is resumed once.
abbrev held_store : Store
held_store = record store {
  ledger = record entry { state = EntryState.hold; task_id = some "task-1" } ∷ [];
}

resumed :
    begin_resume boundary held_store [] false "p1" "action-1" (ok tt)
    ≡ ok (new_attempt false "p1" "action-1" ∷ [], ok request)
unfolding begin_resume approves find_entry find_creative held_entry others_accepted has_action
    attempts_of new_attempt verify_video validate_campaign validate_creatives validate_creative
    is_sku is_local_mp4 is_device_path is_hidden is_destination is_slot is_spaced verified_before
    creative_request in_list see is_new is_timely is_reviewed is_sha256 matches_class normalize
    resolve segments render str_eq
resumed = refl

resumed_once :
    begin_resume boundary held_store
      (new_attempt false "p1" "action-1" ∷ [])
      false
      "p1"
      "action-2"
      (ok tt)
    ≡ throw "A bounded resume already exists"
unfolding begin_resume approves find_entry find_creative held_entry others_accepted has_action
    attempts_of new_attempt verify_video validate_campaign validate_creatives validate_creative
    is_sku is_local_mp4 is_device_path is_hidden is_destination is_slot is_spaced verified_before
    creative_request in_list see is_new is_timely is_reviewed is_sha256 matches_class normalize
    resolve segments render str_eq
resumed_once = refl

abbrev campaign : Campaign
campaign = record { store = store; resumes = []; sent = []; resent = [] }

abbrev published : Campaign
published = record campaign { store = finish_tick (ok "task-1") "p1" stored; sent = "p1" ∷ [] }

run : Reach boundary campaign published
run = next here (publishing 133230000 true "p1" request stored (ok "task-1") sent_in_time)

Reach-IsOnce_example : IsOnce published
Reach-IsOnce_example = Reach-IsOnce boundary {c = campaign} {d = published} refl refl refl run
