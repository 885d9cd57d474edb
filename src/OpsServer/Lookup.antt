-- ===== src/OpsServer/Lookup.antt =====
-- `parseDeviceUiTargetAtResult` of pc/src/device-ops-protocol.ts: the target, its bounds and the
-- screen around it.
use one_autojs.Base.{
  String, Bool, false, not, ◌&&◌, ◌||◌, List, [], ◌∷◌, Option, none, some, Json, Fields, null, bool,
  get, as_record, as_string, is_string, Number, number_lt, number_eq, codes, all_codes, ltb, length,
  Outcome, ok, ◌>>=◌, ◌>>◌, require, or_throw, if◌then◌else◌, is_some,
}
use one_autojs.Protocol.Parse.{record_of}
use one_autojs.Ops.Artifact.{only_keys}
use one_autojs.OpsServer.{includes, safe_in, string_of}
use one_autojs.OpsServer.Target.{
  DeviceUiClassifiedText, Bounds, Size, Foreground, DeviceUiTarget, DeviceUiTargetAtResult,
  component_char, parse_nullable, parse_classified_text,
}

unfoldable pub parse_foreground : Fields → Outcome Foreground
unfolding parse_nullable
parse_foreground value = do
  require (only_keys ("packageName" ∷ "activityName" ∷ []) value)
      "foreground contains unknown field"
  packaged ←
      parse_nullable (get "packageName" value)
        "foreground.packageName is not a bounded Android identifier"
  activity ←
      parse_nullable (get "activityName" value)
        "foreground.activityName is not a bounded Android identifier"
  ok (record { package_name = packaged; activity_name = activity })

unfoldable pub parse_display : Fields → Outcome Size
parse_display value = do
  require (only_keys ("width" ∷ "height" ∷ []) value) "display contains unknown field"
  width ←
      or_throw (safe_in 1 (some 16384) (get "width" value)) "device.ui.target-at display is invalid"
  height ←
      or_throw (safe_in 1 (some 16384) (get "height" value))
        "device.ui.target-at display is invalid"
  ok (record { width = width; height = height })

-- `Number.isSafeInteger(value.key) && value.key === size`
abbrev pub is_size : Number → Option Number → Bool
is_size size none = false
is_size size (some n) = number_eq n size

abbrev bounds_message : String
bounds_message = "device.ui.target-at bounds are invalid"

unfoldable pub parse_bounds : Size → Fields → Outcome Bounds
parse_bounds display value = do
  require
      (only_keys ("left" ∷ "top" ∷ "right" ∷ "bottom" ∷ "screenWidth" ∷ "screenHeight" ∷ []) value)
      "target.bounds contains unknown field"
  left ← or_throw (safe_in 0 none (get "left" value)) bounds_message
  top ← or_throw (safe_in 0 none (get "top" value)) bounds_message
  right ← or_throw (safe_in 0 none (get "right" value)) bounds_message
  bottom ← or_throw (safe_in 0 none (get "bottom" value)) bounds_message
  require
      (number_lt left right
        && number_lt top bottom
        && is_size display.width (safe_in 0 none (get "screenWidth" value))
        && is_size display.height (safe_in 0 none (get "screenHeight" value))
        && not (number_lt display.width right)
        && not (number_lt display.height bottom))
      bounds_message
  ok (record { left = left; top = top; right = right; bottom = bottom })

-- `/^[A-Za-z0-9_.$:-]{1,200}$/`
abbrev pub class_only : Option String → Option String
class_only none = none
class_only (some s) =
    if ltb 0 (length (codes s))
      && not (ltb 200 (length (codes s)))
      && all_codes component_char (codes s)
    then some s
    else none

abbrev pub as_bool : Option Json → Option Bool
as_bool (some (bool b)) = some b
as_bool _ = none

unfoldable pub parse_resource : Option Json → Outcome (Option String)
unfolding parse_nullable
parse_resource none = ok none
parse_resource (some value) = do
  parsed ← parse_nullable (some value) "target.resourceId is not a bounded Android identifier"
  identifier ← or_throw parsed "target.resourceId must not be null"
  ok (some identifier)

unfoldable pub parse_text : Option Json → Outcome (Option DeviceUiClassifiedText)
parse_text none = ok none
parse_text (some value) = do text ← parse_classified_text value; ok (some text)

abbrev pub target_keys : List String
target_keys =
    "source" ∷ "confidence" ∷ "packageName" ∷ "activityName" ∷ "className" ∷ "resourceId" ∷ "text"
    ∷ "description" ∷ "bounds" ∷ "clickable" ∷ "editable" ∷ []

abbrev fields_message : String
fields_message = "device.ui.target-at target fields are invalid"

module _ (number_text : Number → String) where
  abbrev pub is_confidence : Option Json → Bool
  is_confidence value =
      includes (string_of number_text value) ("exact-resource-id" ∷ "composite" ∷ "heuristic" ∷ [])

  unfoldable pub parse_target : Size → Fields → Outcome DeviceUiTarget
  unfolding parse_nullable parse_resource parse_text parse_bounds
  parse_target display value = do
    require (only_keys target_keys value) "target contains unknown field"
    require
        (is_string "android-uiautomator" (get "source" value)
          && is_confidence (get "confidence" value))
        fields_message
    class_name ← or_throw (class_only (as_string (get "className" value))) fields_message
    clickable ← or_throw (as_bool (get "clickable" value)) fields_message
    editable ← or_throw (as_bool (get "editable" value)) fields_message
    target_bounds ← or_throw (record_of (get "bounds" value)) fields_message
    packaged ←
        parse_nullable (get "packageName" value)
          "target.packageName is not a bounded Android identifier"
    activity ←
        parse_nullable (get "activityName" value)
          "target.activityName is not a bounded Android identifier"
    resource ← parse_resource (get "resourceId" value)
    require (not (is_string "exact-resource-id" (get "confidence" value)) || is_some resource)
        "exact-resource-id target requires resourceId"
    text ← parse_text (get "text" value)
    description ← parse_text (get "description" value)
    let summary = is_some resource || is_some text || is_some description
    require (not (is_string "composite" (get "confidence" value)) || summary)
        "composite target requires semantic summary fields"
    require (not (is_string "heuristic" (get "confidence" value) && summary))
        "heuristic target must not contain semantic summary fields"
    bounds ← parse_bounds display target_bounds
    ok (record {
      confidence = get "confidence" value;
      package_name = packaged;
      activity_name = activity;
      class_name = class_name;
      resource_id = resource;
      text = text;
      description = description;
      bounds = bounds;
      clickable = clickable;
      editable = editable;
    })

  -- The target is null, or an element.
  unfoldable pub parse_found : Size → Json → Outcome (Option DeviceUiTarget)
  unfolding parse_target
  parse_found display null = ok none
  parse_found display value = do
    element ← or_throw (as_record value) "device.ui.target-at target is invalid"
    target ← parse_target display element
    ok (some target)

  -- `parseDeviceUiTargetAtResult`
  unfoldable pub parse_target_at : Json → Outcome DeviceUiTargetAtResult
  unfolding parse_foreground parse_display parse_found
  parse_target_at json = do
    value ← or_throw (as_record json) "device.ui.target-at data must be an object"
    require (only_keys ("target" ∷ "foreground" ∷ "display" ∷ "capturedAt" ∷ []) value)
        "data contains unknown field"
    found ← or_throw (get "target" value) "device.ui.target-at data is incomplete"
    foreground ←
        or_throw (record_of (get "foreground" value)) "device.ui.target-at data is incomplete"
    display ← or_throw (record_of (get "display" value)) "device.ui.target-at data is incomplete"
    captured_at ←
        or_throw (safe_in 0 none (get "capturedAt" value)) "device.ui.target-at data is incomplete"
    around ← parse_foreground foreground
    size ← parse_display display
    target ← parse_found size found
    ok (record { target = target; foreground = around; display = size; captured_at = captured_at })
