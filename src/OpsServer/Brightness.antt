-- ===== src/OpsServer/Brightness.antt =====
-- Normalising the parameters of a brightness a second time.
use one_autojs.Base.{
  ◌≡◌, refl, sym, ◌∙◌, arith, String, true, ◌||◌, [], ◌∷◌, Option, none, some, Json, Fields, num,
  str, get, as_string, Number, str_eq, ok, ◌>>=◌, or_throw, >>=-eq-ok, require-eq-ok, ok-injective,
  subst, is_some, none≢some,
}
use one_autojs.Ops.Artifact.{only_keys}
use one_autojs.OpsServer.{integer_in}
use one_autojs.OpsServer.Params.{
  brightness_level, brightness_mode, mode_only, with_mode, with_level, brightness_params,
}
use one_autojs.OpsServer.Again.{integer_in-some, IsIdem}

-- What a test gives where it is required.
passed {ℓ} :
    {A : Type ℓ} (o : Option A) (message : String) {r : Option A}
    → (or_throw o message >>= λ a. ok (some a)) ≡ ok r
    → (a : A) × (r ≡ some a) × (o ≡ some a)
passed (some a) message h = (a, sym (ok-injective h), refl)
passed none message h = cc

brightness_level-some :
    (o : Option Json) {n : Number}
    → brightness_level o ≡ ok (some n)
    → brightness_level (some (num n)) ≡ ok (some n)
unfolding brightness_level
brightness_level-some none h = cc
brightness_level-some (some value) h =
    let (m, r, e) = passed (integer_in 1 255 (some value)) _ h in
    rw (integer_in-some _ _ _ (e ∙ sym r))

brightness_level-none : (value : Json) → brightness_level (some value) ≡ ok none → ⊥
unfolding brightness_level
brightness_level-none value h =
    let (m, r, e) = passed (integer_in 1 255 (some value)) _ h in none≢some r

mode_only-some :
    (o : Option String) {s : String} → mode_only o ≡ some s → mode_only (some s) ≡ some s
mode_only-some (some t) h = ground arith
mode_only-some none h = cc

brightness_mode-some :
    (o : Option Json) {s : String}
    → brightness_mode o ≡ ok (some s)
    → brightness_mode (some (str s)) ≡ ok (some s)
unfolding brightness_mode as_string
brightness_mode-some none h = cc
brightness_mode-some (some value) h =
    let (m, r, e) = passed (mode_only (as_string (some value))) _ h in
    rw (mode_only-some (as_string (some value)) (e ∙ sym r))

brightness_mode-none : (value : Json) → brightness_mode (some value) ≡ ok none → ⊥
unfolding brightness_mode
brightness_mode-none value h =
    let (m, r, e) = passed (mode_only (as_string (some value))) _ h in none≢some r

-- What a brightness is normalised to, in its four shapes.
with_level_idem :
    (level : Option Number) (mode : Option String) (l m : Option Json)
    → brightness_level l ≡ ok level
    → brightness_mode m ≡ ok mode
    → (is_some l || is_some m) ≡ true
    → brightness_params (with_level level (with_mode mode)) ≡ ok (with_level level (with_mode mode))
unfolding brightness_params get str_eq only_keys with_mode with_level
with_level_idem none none none none e d given = cc
with_level_idem none none (some value) m e d given = absurd (brightness_level-none value e)
with_level_idem none none none (some value) e d given = absurd (brightness_mode-none value d)
with_level_idem none (some mode) l m e d given = rw (brightness_mode-some m d, brightness_level)
with_level_idem (some level) none l m e d given = rw (brightness_level-some l e, brightness_mode)
with_level_idem (some level) (some mode) l m e d given =
    rw (brightness_level-some l e, brightness_mode-some m d)

pub brightness_params_again : (params : Fields) → IsIdem brightness_params params
unfolding brightness_params
brightness_params_again params p h =
    let (only, h) = require-eq-ok (only_keys ("level" ∷ "mode" ∷ []) params) _ _ h in
    let (given, h) =
      require-eq-ok (is_some (get "level" params) || is_some (get "mode" params)) _ _ h in
    let (level, e, h) = >>=-eq-ok (brightness_level (get "level" params)) _ h in
    let (mode, d, h) = >>=-eq-ok (brightness_mode (get "mode" params)) _ h in
    subst (λ q. brightness_params q ≡ ok q) (ok-injective h)
      (with_level_idem level mode (get "level" params) (get "mode" params) e d given)
