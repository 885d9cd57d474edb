-- ===== src/OpsServer/Stable.antt =====
-- Normalising the parameters of a request a second time.
use one_autojs.Base.{
  ◌≡◌, refl, arith, String, Bool, true, false, [], ◌∷◌, Option, none, some, Json, Fields, null,
  bool, num, str, arr, obj, end, field, get, as_string, str_eq, ok, throw, >>=-eq-ok, require-eq-ok,
  or_throw-eq-ok, ok-injective, if◌then◌else◌, subst,
}
use one_autojs.Ops.{
  DeviceOpsOperation, ops_capabilities, audio_get, audio_set, audio_mute, audio_unmute,
  brightness_get, brightness_set, storage_stat, files_list, foreground_get, ui_target_at,
  network_get, telephony_get, alert_find, screen_capture,
}
use one_autojs.Ops.Artifact.{only_keys}
use one_autojs.OpsServer.Params.{
  parse_audio_stream, or_default, target_params, no_params, stream_params, level_params,
  alert_params, root_only, storage_params, relative_only, cursor_only, list_params, params_of,
}
use one_autojs.OpsServer.Brightness.{brightness_params_again}
use one_autojs.OpsServer.Again.{safe_in-some, integer_in-some, IsIdem}

target_params_again : (params : Fields) → IsIdem target_params params
unfolding target_params get str_eq only_keys
target_params_again params p h =
    let (only, h) =
      require-eq-ok (only_keys ("x" ∷ "y" ∷ "screenWidth" ∷ "screenHeight" ∷ []) params) _ _ h in
    let (width, w, h) = or_throw-eq-ok _ _ _ h in
    let (height, v, h) = or_throw-eq-ok _ _ _ h in
    let (x, ex, h) = or_throw-eq-ok _ _ _ h in
    let (y, ey, h) = or_throw-eq-ok _ _ _ h in
    let (inside, h) = require-eq-ok _ _ _ h in
    let e : field "x" (num x) (
          field "y" (num y)
            (field "screenWidth" (num width) (field "screenHeight" (num height) end)))
        ≡ p =
      ok-injective h in
    subst (λ q. target_params q ≡ ok q) e
      (rw (
        safe_in-some _ _ _ w,
        safe_in-some _ _ _ v,
        safe_in-some _ _ _ ex,
        safe_in-some _ _ _ ey,
        inside,
      ))

no_params_again : (params : Fields) → IsIdem no_params params
unfolding no_params only_keys
no_params_again params p h =
    let (only, h) = require-eq-ok (only_keys [] params) _ _ h in
    subst (λ q. no_params q ≡ ok q) (ok-injective h) refl

kept :
    (test : Bool) (t : String) (e : String) {s : String}
    → (if test then ok t else throw e) ≡ ok s
    → (test ≡ true) × (t ≡ s)
kept true t e h = (refl, ok-injective h)
kept false t e h = cc

parse_audio_stream-some :
    (o : Option Json) (allow_all : Bool) {s : String}
    → parse_audio_stream o allow_all ≡ ok s
    → parse_audio_stream (some (str s)) allow_all ≡ ok s
unfolding parse_audio_stream
parse_audio_stream-some (some (str t)) allow_all h =
    let (listed, same) = kept _ t _ h in
    subst (λ u. parse_audio_stream (some (str u)) allow_all ≡ ok u) same (rw listed)
parse_audio_stream-some (some null) allow_all h = cc
parse_audio_stream-some (some (bool b)) allow_all h = cc
parse_audio_stream-some (some (num n)) allow_all h = cc
parse_audio_stream-some (some (arr items)) allow_all h = cc
parse_audio_stream-some (some (obj fields)) allow_all h = cc
parse_audio_stream-some none allow_all h = cc

or_same :
    (allow_all : Bool) (s : String)
    → (if allow_all then some (str s) else some (str s)) ≡ some (str s)
or_same true s = refl
or_same false s = refl

stream_params_again : (allow_all : Bool) (params : Fields) → IsIdem (stream_params allow_all) params
unfolding stream_params get str_eq only_keys
stream_params_again allow_all params p h =
    let (only, h) = require-eq-ok (only_keys ("stream" ∷ []) params) _ _ h in
    let (stream, d, h) =
      >>=-eq-ok
        (parse_audio_stream
          (if allow_all then or_default (str "all") (get "stream" params) else get "stream" params)
          allow_all)
        _ h in
    let e : field "stream" (str stream) end ≡ p = ok-injective h in
    subst (λ q. stream_params allow_all q ≡ ok q) e
      (rw (
        or_same allow_all stream,
        parse_audio_stream-some
            (if allow_all
              then or_default (str "all") (get "stream" params)
              else get "stream" params)
            allow_all d,
      ))

level_params_again : (params : Fields) → IsIdem level_params params
unfolding level_params get str_eq only_keys
level_params_again params p h =
    let (only, h) = require-eq-ok (only_keys ("stream" ∷ "level" ∷ []) params) _ _ h in
    let (level, l, h) = or_throw-eq-ok _ _ _ h in
    let (stream, d, h) = >>=-eq-ok (parse_audio_stream (get "stream" params) false) _ h in
    let e : field "stream" (str stream) (field "level" (num level) end) ≡ p = ok-injective h in
    subst (λ q. level_params q ≡ ok q) e
      (rw (safe_in-some _ _ _ l, parse_audio_stream-some (get "stream" params) false d))

alert_params_again : (params : Fields) → IsIdem alert_params params
unfolding alert_params get str_eq only_keys
alert_params_again params p h =
    let (only, h) = require-eq-ok (only_keys ("durationMs" ∷ []) params) _ _ h in
    let (duration, d, h) = or_throw-eq-ok _ _ _ h in
    let e : field "durationMs" (num duration) end ≡ p = ok-injective h in
    subst (λ q. alert_params q ≡ ok q) e (rw (integer_in-some _ _ _ d))

root_only-some :
    (o : Option String) {s : String} → root_only o ≡ some s → root_only (some s) ≡ some s
unfolding root_only
root_only-some (some t) h = ground arith
root_only-some none h = cc

relative_only-some :
    (o : Option String) {s : String} → relative_only o ≡ some s → relative_only (some s) ≡ some s
unfolding relative_only
relative_only-some (some t) h = ground arith
relative_only-some none h = cc

cursor_only-some :
    (o : Option String) {s : String} → cursor_only o ≡ some s → cursor_only (some s) ≡ some s
unfolding cursor_only
cursor_only-some (some t) h = ground arith
cursor_only-some none h = cc

storage_params_again : (params : Fields) → IsIdem storage_params params
unfolding storage_params get str_eq only_keys as_string
storage_params_again params p h =
    let (only, h) = require-eq-ok (only_keys ("rootId" ∷ []) params) _ _ h in
    let (root, r, h) = or_throw-eq-ok _ _ _ h in
    let e : field "rootId" (str root) end ≡ p = ok-injective h in
    subst (λ q. storage_params q ≡ ok q) e (rw (root_only-some _ r))

list_params_again : (params : Fields) → IsIdem list_params params
unfolding list_params get str_eq only_keys as_string
list_params_again params p h =
    let (only, h) =
      require-eq-ok (only_keys ("rootId" ∷ "path" ∷ "pageSize" ∷ "cursor" ∷ []) params) _ _ h in
    let (root, r, h) = or_throw-eq-ok (root_only (as_string (get "rootId" params))) _ _ h in
    let (path, l, h) =
      or_throw-eq-ok (relative_only (as_string (or_default (str "") (get "path" params)))) _ _ h in
    let (size, s, h) = or_throw-eq-ok _ _ _ h in
    let (cursor, c, h) =
      or_throw-eq-ok (cursor_only (as_string (or_default (str "") (get "cursor" params)))) _ _ h in
    let e : field "rootId" (str root)
          (field "path" (str path) (field "pageSize" (num size) (field "cursor" (str cursor) end)))
        ≡ p =
      ok-injective h in
    subst (λ q. list_params q ≡ ok q) e
      (rw (
        root_only-some (as_string (get "rootId" params)) r,
        relative_only-some (as_string (or_default (str "") (get "path" params))) l,
        integer_in-some _ _ _ s,
        cursor_only-some (as_string (or_default (str "") (get "cursor" params))) c,
      ))

pub params_of_again :
    (operation : DeviceOpsOperation) (params : Fields) → IsIdem (params_of operation) params
unfolding params_of
params_of_again ui_target_at params = target_params_again params
params_of_again ops_capabilities params = no_params_again params
params_of_again foreground_get params = no_params_again params
params_of_again network_get params = no_params_again params
params_of_again brightness_get params = no_params_again params
params_of_again telephony_get params = no_params_again params
params_of_again screen_capture params = no_params_again params
params_of_again audio_get params = stream_params_again true params
params_of_again audio_mute params = stream_params_again false params
params_of_again audio_unmute params = stream_params_again false params
params_of_again audio_set params = level_params_again params
params_of_again brightness_set params = brightness_params_again params
params_of_again alert_find params = alert_params_again params
params_of_again storage_stat params = storage_params_again params
params_of_again files_list params = list_params_again params
