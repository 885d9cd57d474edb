-- ===== src/OpsServer/Private.antt =====
-- What the server lets through of a lookup of a UI element.
use one_autojs.Base.{
  ◌≡◌, refl, sym, subst, ◌∙◌, arith, String, Bool, true, false, not, ◌&&◌, ◌||◌, Option, none, some,
  Json, Fields, null, bool, num, str, arr, obj, end, get, as_record, as_string, is_string, Number,
  number_lt, number_le, is_safe_integer, ℕ, ok, >>=-eq-ok, require-eq-ok, or_throw-eq-ok,
  ok-injective, is_some, Bool-cases, inl, inr, if_true, if_false, throw≢ok, [], ◌∷◌, some_inj,
  none≢some, false≢true, ap, of_ℕ,
}
use one_autojs.Ops.Artifact.{only_keys}
use one_autojs.Ops.Parse.{time_field}
use one_autojs.Protocol.Parse.{record_of}
use one_autojs.OpsServer.{safe_in}
use one_autojs.OpsServer.Target.{
  Bounds, Size, DeviceUiTarget, DeviceUiTargetAtResult, parse_nullable,
}
use one_autojs.OpsServer.Lookup.{
  is_size, class_only, as_bool, parse_resource, target_keys, is_confidence, parse_foreground,
  parse_display, parse_text, parse_bounds, parse_target, parse_found, parse_target_at,
}
use one_autojs.OpsServer.Response.{
  ResponseData, unread, target_at, ParsedResponse, target_messages, message_for, is_empty_object,
  response_keys, is_response, found_data, target_data, message_key, target_response, parse_response,
}
use one_autojs.OpsServer.Reviewed.{IsReviewed, parse_text-IsReviewed}

-- A rectangle within the screen.
pub record IsInside (display : Size) (b : Bounds) : Type 0 where
  pub left : number_le (of_ℕ 0) b.left ≡ true
  pub top : number_le (of_ℕ 0) b.top ≡ true
  pub wide : number_lt b.left b.right ≡ true
  pub high : number_lt b.top b.bottom ≡ true
  pub right : number_lt display.width b.right ≡ false
  pub bottom : number_lt display.height b.bottom ≡ false

-- A target that the server lets through. Where the confidence is a text, it goes with the target.
pub record IsPrivate (display : Size) (t : DeviceUiTarget) : Type 0 where
  pub text : IsReviewed t.text
  pub description : IsReviewed t.description
  pub inside : IsInside display t.bounds
  pub exact : is_string "exact-resource-id" t.confidence ≡ true → is_some t.resource_id ≡ true
  pub heuristic :
      is_string "heuristic" t.confidence ≡ true
      → (is_some t.resource_id || is_some t.text || is_some t.description) ≡ false

safe_in-le :
    (lo : ℕ) (value : Option Json) {n : Number}
    → safe_in lo none value ≡ some n
    → number_le (of_ℕ lo) n ≡ true
unfolding safe_in number_le
safe_in-le lo none h = cc
safe_in-le lo (some null) h = cc
safe_in-le lo (some (bool b)) h = cc
safe_in-le lo (some (str s)) h = cc
safe_in-le lo (some (arr items)) h = cc
safe_in-le lo (some (obj fields)) h = cc
safe_in-le lo (some (num m)) {n} h =
    elim (Bool-cases (is_safe_integer m && not (number_lt m (of_ℕ lo)))) [
      | inl fits ↦
          subst (λ x. not (number_lt x (of_ℕ lo)) ≡ true) (some_inj (if_true _ _ fits h))
            (ground arith)
      | inr out ↦ absurd (none≢some (if_false _ _ out h))
    ]

parse_bounds-IsInside :
    (display : Size) (value : Fields) {b : Bounds}
    → parse_bounds display value ≡ ok b
    → IsInside display b
unfolding parse_bounds
parse_bounds-IsInside display value h =
    let (only, h) =
      require-eq-ok
        (only_keys ("left" ∷ "top" ∷ "right" ∷ "bottom" ∷ "screenWidth" ∷ "screenHeight" ∷ [])
          value)
        _ _ h in
    let (left, l, h) = or_throw-eq-ok (safe_in 0 none (get "left" value)) _ _ h in
    let (top, t, h) = or_throw-eq-ok (safe_in 0 none (get "top" value)) _ _ h in
    let (right, _, h) = or_throw-eq-ok (safe_in 0 none (get "right" value)) _ _ h in
    let (bottom, _, h) = or_throw-eq-ok (safe_in 0 none (get "bottom" value)) _ _ h in
    let (c, h) =
      require-eq-ok
        (number_lt left right
          && number_lt top bottom
          && is_size display.width (safe_in 0 none (get "screenWidth" value))
          && is_size display.height (safe_in 0 none (get "screenHeight" value))
          && not (number_lt display.width right)
          && not (number_lt display.height bottom))
        _ _ h in
    subst (IsInside display) (ok-injective h) (record {
      left = safe_in-le 0 (get "left" value) l;
      top = safe_in-le 0 (get "top" value) t;
      wide = ground arith;
      high = ground arith;
      right = ground arith;
      bottom = ground arith;
    })

-- The data of a lookup that is let through: a private target in its display, or none.
abbrev pub IsPrivateResult : DeviceUiTargetAtResult → Type 0
IsPrivateResult r = (t : DeviceUiTarget) → r.target ≡ some t → IsPrivate r.display t

-- What goes through of a lookup: a private result of a success, and nothing else of a failure.
abbrev pub IsPrivateData : Fields → ResponseData → Type 0
IsPrivateData value (target_at r) =
    (is_string "SUCCESS" (get "status" value) ≡ true) × IsPrivateResult r
IsPrivateData value (unread json) =
    (is_string "SUCCESS" (get "status" value) ≡ false) × (json ≡ obj end)

module _ (number_text : Number → String) where
  parse_target-IsPrivate :
      (display : Size) (value : Fields) {t : DeviceUiTarget}
      → parse_target number_text display value ≡ ok t
      → IsPrivate display t
  unfolding parse_target
  parse_target-IsPrivate display value h =
      let (only, h) = require-eq-ok (only_keys target_keys value) _ _ h in
      let (source, h) =
        require-eq-ok
          (is_string "android-uiautomator" (get "source" value)
            && is_confidence number_text (get "confidence" value))
          _ _ h in
      let (class, _, h) = or_throw-eq-ok (class_only (as_string (get "className" value))) _ _ h in
      let (clickable, _, h) = or_throw-eq-ok (as_bool (get "clickable" value)) _ _ h in
      let (editable, _, h) = or_throw-eq-ok (as_bool (get "editable" value)) _ _ h in
      let (box, _, h) = or_throw-eq-ok (record_of (get "bounds" value)) _ _ h in
      let (packaged, _, h) = >>=-eq-ok (parse_nullable (get "packageName" value) _) _ h in
      let (activity, _, h) = >>=-eq-ok (parse_nullable (get "activityName" value) _) _ h in
      let (resource, _, h) = >>=-eq-ok (parse_resource (get "resourceId" value)) _ h in
      let (exact, h) =
        require-eq-ok
          (not (is_string "exact-resource-id" (get "confidence" value)) || is_some resource) _ _
          h in
      let (text, t, h) = >>=-eq-ok (parse_text (get "text" value)) _ h in
      let (description, d, h) = >>=-eq-ok (parse_text (get "description" value)) _ h in
      let summary : Bool = is_some resource || is_some text || is_some description in
      let (composite, h) =
        require-eq-ok (not (is_string "composite" (get "confidence" value)) || summary) _ _ h in
      let (heuristic, h) =
        require-eq-ok (not (is_string "heuristic" (get "confidence" value) && summary)) _ _ h in
      let (bounds, b, h) = >>=-eq-ok (parse_bounds display box) _ h in
      subst (IsPrivate display) (ok-injective h) (record {
        text = parse_text-IsReviewed (get "text" value) t;
        description = parse_text-IsReviewed (get "description" value) d;
        inside = parse_bounds-IsInside display box b;
        exact = λ e. implied _ _ exact e;
        heuristic = λ e. excluded _ _ heuristic e;
      })
    where
      implied : (a b : Bool) → (not a || b) ≡ true → a ≡ true → b ≡ true
      implied true b h e = h
      implied false b h e = cc

      excluded : (a b : Bool) → not (a && b) ≡ true → a ≡ true → b ≡ false
      excluded true true h e = cc
      excluded true false h e = refl
      excluded false b h e = cc

  parse_found-IsPrivate :
      (display : Size) (json : Json) {found : Option DeviceUiTarget} {t : DeviceUiTarget}
      → parse_found number_text display json ≡ ok found
      → found ≡ some t
      → IsPrivate display t
  unfolding parse_found as_record
  parse_found-IsPrivate display (obj fields) h e =
      let (t, p, h) = >>=-eq-ok (parse_target number_text display fields) _ h in
      subst (IsPrivate display) (some_inj (ok-injective h ∙ e))
        (parse_target-IsPrivate display fields p)
  parse_found-IsPrivate display null h e = absurd (none≢some (ok-injective h ∙ e))
  parse_found-IsPrivate display (bool b) h e = absurd (throw≢ok h)
  parse_found-IsPrivate display (num n) h e = absurd (throw≢ok h)
  parse_found-IsPrivate display (str s) h e = absurd (throw≢ok h)
  parse_found-IsPrivate display (arr items) h e = absurd (throw≢ok h)

  parse_target_at-IsPrivateResult :
      (json : Json) {r : DeviceUiTargetAtResult}
      → parse_target_at number_text json ≡ ok r
      → IsPrivateResult r
  unfolding parse_target_at
  parse_target_at-IsPrivateResult json h =
      let (value, _, h) = or_throw-eq-ok (as_record json) _ _ h in
      let (only, h) =
        require-eq-ok (only_keys ("target" ∷ "foreground" ∷ "display" ∷ "capturedAt" ∷ []) value) _
          _ h in
      let (found, _, h) = or_throw-eq-ok (get "target" value) _ _ h in
      let (around, _, h) = or_throw-eq-ok (record_of (get "foreground" value)) _ _ h in
      let (display, _, h) = or_throw-eq-ok (record_of (get "display" value)) _ _ h in
      let (at, _, h) = or_throw-eq-ok (safe_in 0 none (get "capturedAt" value)) _ _ h in
      let (foreground, _, h) = >>=-eq-ok (parse_foreground around) _ h in
      let (size, _, h) = >>=-eq-ok (parse_display display) _ h in
      let (target, p, h) = >>=-eq-ok (parse_found number_text size found) _ h in
      subst IsPrivateResult (ok-injective h) (λ t e. parse_found-IsPrivate size found p e)

  target_data-IsPrivateData :
      (value : Fields) {d : ResponseData}
      → target_data number_text value ≡ ok d
      → IsPrivateData value d
  unfolding target_data found_data
  target_data-IsPrivateData value h = elim (Bool-cases (is_string "SUCCESS" (get "status" value))) [
    | inl s ↦
        let (found, _, k) = or_throw-eq-ok (get "data" value) _ _ (if_true _ _ s h) in
        let (result, p, k) = >>=-eq-ok (parse_target_at number_text found) _ k in
        subst (IsPrivateData value) (ok-injective k) (s, parse_target_at-IsPrivateResult found p)
    | inr f ↦ elim (Bool-cases (is_empty_object (get "data" value))) [
      | inl e ↦
          subst (IsPrivateData value) (ok-injective (if_true _ _ e (if_false _ _ f h))) (f, refl)
      | inr n ↦ absurd (throw≢ok (if_false _ _ n (if_false _ _ f h)))
    ]
  ]

  -- Of a response to the lookup of a UI element that the server accepts, the message passed on is
  -- the fixed one of its status and code. The data passed on is nothing unless the response is a
  -- success, and then it is a result whose target, if there is one, lies in its display and has no
  -- literal text but a reviewed label; if its confidence is the text `exact-resource-id`, then it
  -- has a resource id, and if it is `heuristic`, then it has none and no text at all.
  pub parse_response-IsPrivateData :
      (frame : Json) {r : ParsedResponse}
      → parse_response number_text frame ≡ ok r
      → is_string "device.ui.target-at" (get "operation" r.value) ≡ true
      → ((code : String) × (as_string (get "code" r.value) ≡ some code)
          × (message_for (message_key number_text r.value code) target_messages ≡ some r.message))
        × IsPrivateData r.value r.contents
  unfolding parse_response target_response
  parse_response-IsPrivateData frame {r} h lookup =
      let (value, _, h) = or_throw-eq-ok (as_record frame) _ _ h in
      let (only, h) = require-eq-ok (only_keys response_keys value) _ _ h in
      let (envelope, h) = require-eq-ok (is_response number_text value) _ _ h in
      let (code, c, h) = or_throw-eq-ok (as_string (get "code" value)) _ _ h in
      let (message, _, h) = or_throw-eq-ok (as_string (get "message" value)) _ _ h in
      let (contents, _, h) = or_throw-eq-ok (get "data" value) _ _ h in
      let (started, _, h) = >>=-eq-ok (time_field "startedAt" value _) _ h in
      let (finished, _, h) = >>=-eq-ok (time_field "finishedAt" value _) _ h in
      let (duration, _, h) = >>=-eq-ok (time_field "durationMs" value _) _ h in
      let (times, h) =
        require-eq-ok (not (number_lt finished started) && not (number_lt duration (of_ℕ 0))) _ _
          h in
      elim (Bool-cases (is_string "device.ui.target-at" (get "operation" value))) [
        | inl o ↦
            let (text, m, k) =
              or_throw-eq-ok (message_for (message_key number_text value code) target_messages) _ _
                (if_true _ _ o h) in
            let (found, d, k) = >>=-eq-ok (target_data number_text value) _ k in
            subst
              (λ (x : ParsedResponse).
                ((code : String) × (as_string (get "code" x.value) ≡ some code)
                  × (message_for (message_key number_text x.value code) target_messages
                      ≡ some x.message))
                × IsPrivateData x.value x.contents)
              (ok-injective k) ((code, c, m), target_data-IsPrivateData value d)
        | inr o ↦
            let same : value ≡ r.value =
              ap (λ (x : ParsedResponse). x.value) (ok-injective (if_false _ _ o h)) in
            absurd (
              false≢true (
                sym o
                ∙ ap (λ v. is_string "device.ui.target-at" (get "operation" v)) same
                ∙ lookup))
      ]
