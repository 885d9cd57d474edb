-- ===== src/OpsServer/Reviewed.antt =====
-- The texts that go through as they are.
use one_autojs.Base.{
  ◌≡◌, subst, arith, String, true, Option, none, some, Json, Fields, get, as_record, as_string,
  str_eq, ok, >>=-eq-ok, require-eq-ok, or_throw-eq-ok, ok-injective, Bool-cases, inl, inr, if_true,
  if_false, throw≢ok, [], ◌∷◌,
}
use one_autojs.Ops.Artifact.{only_keys}
use one_autojs.OpsServer.{safe_in}
use one_autojs.OpsServer.Target.{
  DeviceUiClassifiedText, literal, parameter, redacted, is_public, public_only, is_true, of_mode,
  word_only, key_char, category_char, parse_literal, parse_parameter, parse_redacted,
  parse_classified_text,
}
use one_autojs.OpsServer.Lookup.{parse_text}

-- A text that goes through as it is has been reviewed for it.
abbrev pub IsReviewed : Option DeviceUiClassifiedText → Type 0
IsReviewed none = Unit {0}
IsReviewed (some (literal s)) = is_public s ≡ true
IsReviewed (some (parameter key)) = Unit {0}
IsReviewed (some (redacted category size)) = Unit {0}

public_only-some : (o : Option String) {s : String} → public_only o ≡ some s → is_public s ≡ true
public_only-some (some t) h = ground arith
public_only-some none h = cc

parse_literal-IsReviewed :
    (value : Fields) {t : DeviceUiClassifiedText} → parse_literal value ≡ ok t → IsReviewed (some t)
unfolding parse_literal
parse_literal-IsReviewed value h =
    let (only, h) = require-eq-ok (only_keys ("mode" ∷ "value" ∷ "reviewed" ∷ []) value) _ _ h in
    let (s, e, h) = or_throw-eq-ok (public_only (as_string (get "value" value))) _ _ h in
    let (seen, h) = require-eq-ok (is_true (get "reviewed" value)) _ _ h in
    subst (λ u. IsReviewed (some u)) (ok-injective h)
      (public_only-some (as_string (get "value" value)) e)

parse_parameter-IsReviewed :
    (value : Fields) {t : DeviceUiClassifiedText}
    → parse_parameter value ≡ ok t
    → IsReviewed (some t)
unfolding parse_parameter
parse_parameter-IsReviewed value h =
    let (only, h) = require-eq-ok (only_keys ("mode" ∷ "key" ∷ []) value) _ _ h in
    let (key, e, h) = or_throw-eq-ok (word_only key_char (as_string (get "key" value))) _ _ h in
    subst (λ u. IsReviewed (some u)) (ok-injective h) (tt {0})

parse_redacted-IsReviewed :
    (value : Fields) {t : DeviceUiClassifiedText}
    → parse_redacted value ≡ ok t
    → IsReviewed (some t)
unfolding parse_redacted
parse_redacted-IsReviewed value h =
    let (only, h) = require-eq-ok (only_keys ("mode" ∷ "category" ∷ "length" ∷ []) value) _ _ h in
    let (category, e, h) =
      or_throw-eq-ok (word_only category_char (as_string (get "category" value))) _ _ h in
    let (size, e, h) = or_throw-eq-ok (safe_in 1 (some 4096) (get "length" value)) _ _ h in
    subst (λ u. IsReviewed (some u)) (ok-injective h) (tt {0})

of_mode-IsReviewed :
    (mode : String) (value : Fields) {t : DeviceUiClassifiedText}
    → of_mode mode value ≡ ok t
    → IsReviewed (some t)
of_mode-IsReviewed mode value h = elim (Bool-cases (str_eq mode "literal")) [
  | inl e ↦ parse_literal-IsReviewed value (if_true _ _ e h)
  | inr n ↦ elim (Bool-cases (str_eq mode "parameter")) [
    | inl e ↦ parse_parameter-IsReviewed value (if_true _ _ e (if_false _ _ n h))
    | inr m ↦ elim (Bool-cases (str_eq mode "redacted")) [
      | inl e ↦ parse_redacted-IsReviewed value (if_true _ _ e (if_false _ _ m (if_false _ _ n h)))
      | inr l ↦ absurd (throw≢ok (if_false _ _ l (if_false _ _ m (if_false _ _ n h))))
    ]
  ]
]

pub parse_text-IsReviewed :
    (o : Option Json) {t : Option DeviceUiClassifiedText} → parse_text o ≡ ok t → IsReviewed t
unfolding parse_text parse_classified_text
parse_text-IsReviewed none h = subst IsReviewed (ok-injective h) (tt {0})
parse_text-IsReviewed (some json) h =
    let (text, e, h) = >>=-eq-ok (parse_classified_text json) _ h in
    let (value, _, e) = or_throw-eq-ok (as_record json) _ _ e in
    let (mode, _, e) = or_throw-eq-ok (as_string (get "mode" value)) _ _ e in
    subst IsReviewed (ok-injective h) (of_mode-IsReviewed mode value e)
