-- ===== src/Campaign/Validate.antt =====
-- `validateCampaign` of pc/src/tiktok-campaign.ts.
use Prim.Native.Nat.{◌*◌}
use one_autojs.Base.{
  ℕ, zero, suc, ◌+◌, ◌%◌, String, Bool, true, false, not, ◌&&◌, ◌||◌, List, [], ◌∷◌, ◌++◌, Option,
  none, some, codes, matches_class, is_upper, is_lower, is_digit, is_sha256, str_eq, leb, ◌==◌,
  length, Outcome, ok, ◌>>=◌, ◌>>◌, require, if◌then◌else◌,
}
use one_autojs.Campaign.{
  CampaignCreative, CampaignManifest, RequestAction, publish_action, CampaignRequest, Destination,
  Boundary,
}
use one_autojs.Deployment.Archive.{normalize, is_absolute, is_empty}

abbrev day_ms : ℕ
day_ms = 86400000

abbrev campaign_char : ℕ → Bool
campaign_char c = is_lower c || is_upper c || is_digit c || c == b'.' || c == b'_' || c == b'-'

abbrev handle_char : ℕ → Bool
handle_char c = is_lower c || is_upper c || is_digit c || c == b'.' || c == b'_'

abbrev client_char : ℕ → Bool
client_char c = campaign_char c || c == b':'

abbrev same_text : List ℕ → List ℕ → Bool
same_text [] [] = true
same_text (c ∷ s) (d ∷ t) = c == d && same_text s t
same_text _ _ = false

-- `text.startsWith(start)`, with what follows the start.
abbrev pub after_start : List ℕ → List ℕ → Option (List ℕ)
after_start [] s = some s
after_start (w ∷ word) [] = none
after_start (w ∷ word) (c ∷ s) = if c == w then after_start word s else none

-- `text.endsWith(end)`
abbrev pub ends_with : List ℕ → List ℕ → Bool
ends_with end [] = same_text [] end
ends_with end (c ∷ s) = same_text (c ∷ s) end || ends_with end s

abbrev pub all_digits : List ℕ → Bool
all_digits [] = true
all_digits (c ∷ s) = is_digit c && all_digits s

abbrev four_digits : Option (List ℕ) → Bool
four_digits none = false
four_digits (some s) = length s == 4 && all_digits s

-- `/^SHUSHA-L\d{4}$/`
unfoldable pub is_sku : String → Bool
is_sku sku = four_digits (after_start (codes "SHUSHA-L") (codes sku))

abbrev lower_codes : List ℕ → List ℕ
lower_codes [] = []
lower_codes (c ∷ s) = (if is_upper c then c + 32 else c) ∷ lower_codes s

-- An absolute path that ends in `.mp4`, in any case of the letters.
unfoldable pub is_local_mp4 : String → Bool
is_local_mp4 path = is_absolute (codes path) && ends_with (codes ".mp4") (lower_codes (codes path))

abbrev take : ℕ → List ℕ → List ℕ
take zero s = []
take (suc n) [] = []
take (suc n) (c ∷ s) = c ∷ take n s

abbrev between : ℕ → ℕ → ℕ → Bool
between lo hi c = leb lo c && leb c hi

-- `[\\\p{Cc}\p{Cf}]`: the backslash, the control and the format characters.
unfoldable pub is_hidden : ℕ → Bool
is_hidden c =
    c == b'\\'
    || between 0 31 c
    || between 127 159 c
    || c == 0xad
    || between 0x600 0x605 c
    || c == 0x61c
    || c == 0x6dd
    || c == 0x70f
    || between 0x890 0x891 c
    || c == 0x8e2
    || c == 0x180e
    || between 0x200b 0x200f c
    || between 0x202a 0x202e c
    || between 0x2060 0x2064 c
    || between 0x2066 0x206f c
    || c == 0xfeff
    || between 0xfff9 0xfffb c
    || c == 0x110bd
    || c == 0x110cd
    || between 0x13430 0x1343f c
    || between 0x1bca0 0x1bca3 c
    || between 0x1d173 0x1d17a c
    || c == 0xe0001
    || between 0xe0020 0xe007f c

abbrev some_hidden : List ℕ → Bool
some_hidden [] = false
some_hidden (c ∷ s) = is_hidden c || some_hidden s

abbrev is_found : Option (List ℕ) → Bool
is_found none = false
is_found (some s) = true

-- The test on the path on the device, which names the hash of the video.
unfoldable pub is_device_path : String → String → Bool
is_device_path path sha256 =
    is_found (after_start (codes "/sdcard/Download/") (codes path))
    && same_text (normalize (codes path)) (codes path)
    && not (some_hidden (codes path))
    && ends_with (b'-' ∷ (take 16 (codes sha256) ++ codes ".mp4")) (codes path)

abbrev is_campaign : Option String → Bool
is_campaign none = false
is_campaign (some source) = str_eq source "tiktok"

unfoldable pub is_destination : Destination → Bool
is_destination url =
    str_eq url.origin "https://shop.this-time.com"
    && str_eq url.pathname "/wholesale"
    && is_campaign url.utm_source

-- `toISOString().slice(11) === "13:00:00.000Z"`
unfoldable pub is_slot : Option ℕ → Bool
is_slot none = false
is_slot (some slot) = slot % day_ms == 46800000

-- `!previous || slot - previous >= 2 * 86400000`
unfoldable pub is_spaced : ℕ → Option ℕ → Bool
is_spaced previous none = false
is_spaced previous (some slot) = previous == 0 || leb (previous + 2 * day_ms) slot

unfoldable pub verified_before : Option ℕ → Option ℕ → Bool
verified_before (some verified) (some slot) = leb verified slot
verified_before _ _ = false

-- The request of a creative, before it is normalised.
unfoldable pub creative_request :
    RequestAction → CampaignManifest → CampaignCreative → CampaignRequest
creative_request action manifest creative = record {
  action = action;
  publication_id = creative.publication_id;
  expected_handle = manifest.expected_handle;
  path = creative.device_path;
  expected_sha256 = creative.sha256;
  title = creative.title;
  details = creative.caption;
}

-- The three sets of the loop.
pub record Seen : Type 0 where
  pub ids : List String
  pub skus : List String
  pub hashes : List String
  pub previous : ℕ

unfoldable pub in_list : String → List String → Bool
in_list x [] = false
in_list x (y ∷ ys) = str_eq y x || in_list x ys

abbrev slot_or : ℕ → Option ℕ → ℕ
slot_or other none = other
slot_or other (some slot) = slot

unfoldable pub see : Seen → CampaignCreative → Seen
see seen creative = record {
  ids = creative.publication_id ∷ seen.ids;
  skus = creative.sku ∷ seen.skus;
  hashes = creative.sha256 ∷ seen.hashes;
  previous = slot_or seen.previous creative.scheduled_at;
}

unfoldable pub is_new : Seen → CampaignCreative → Bool
is_new seen creative =
    not (in_list creative.publication_id seen.ids)
    && not (in_list creative.sku seen.skus)
    && not (in_list creative.sha256 seen.hashes)

-- The schedule's part of the loop's body.
unfoldable pub is_timely : Seen → CampaignCreative → Bool
is_timely seen creative =
    is_slot creative.scheduled_at
    && is_spaced seen.previous creative.scheduled_at
    && verified_before creative.source_verified_at creative.scheduled_at

-- The tests on the normalised request.
unfoldable pub is_reviewed : CampaignRequest → CampaignCreative → Bool
is_reviewed normalized creative =
    str_eq creative.publication_id normalized.publication_id
    && str_eq creative.title normalized.title
    && str_eq creative.caption normalized.details
    && str_eq creative.audience "PUBLIC"
    && str_eq creative.commercial_disclosure "YOUR_BRAND"
    && not (is_empty (codes creative.title))
    && not (is_empty (codes creative.caption))

-- The body of the loop over the creatives. Some of its tests stand together under one message.
unfoldable pub validate_creative :
    Boundary → CampaignManifest → Seen → CampaignCreative → Outcome (Unit {0})
validate_creative boundary manifest seen creative = do
  require (is_new seen creative) "Duplicate publication, style or video"
  require (is_sku creative.sku) "Invalid style identity"
  require (is_sha256 creative.sha256 && is_sha256 creative.source_evidence_sha256)
      "Missing asset/source evidence hash"
  require (is_local_mp4 creative.video_path) "Expected a local MP4"
  require (is_device_path creative.device_path creative.sha256)
      "Device asset name must bind the video hash"
  destination ← boundary.parse_url creative.landing_url
  require (is_destination destination) "Invalid wholesale campaign destination"
  require (is_timely seen creative) "Invalid slot, spacing or source verification time"
  normalized ← boundary.normalize (creative_request publish_action manifest creative)
  require (is_reviewed normalized creative) "Creative differs from its reviewed request"

unfoldable pub validate_creatives :
    Boundary → CampaignManifest → Seen → List CampaignCreative → Outcome (Unit {0})
validate_creatives boundary manifest seen [] = ok tt
validate_creatives boundary manifest seen (creative ∷ rest) =
    validate_creative boundary manifest seen creative
    >> validate_creatives boundary manifest (see seen creative) rest

abbrev nothing_seen : Seen
nothing_seen = record { ids = []; skus = []; hashes = []; previous = 0 }

-- `validateCampaign`
unfoldable pub validate_campaign : Boundary → CampaignManifest → Outcome (Unit {0})
validate_campaign boundary manifest = do
  require (manifest.schema_version == 1 && str_eq manifest.timezone "Asia/Shanghai")
      "Unsupported campaign schema/timezone"
  require (matches_class campaign_char 1 80 manifest.campaign_id) "Invalid campaign ID"
  require (matches_class handle_char 2 24 manifest.expected_handle) "A pinned account is required"
  require (matches_class client_char 1 100 manifest.device_client_id) "A pinned device is required"
  require (length manifest.creatives == 3) "Pilot requires three complete creatives"
  validate_creatives boundary manifest nothing_seen manifest.creatives
