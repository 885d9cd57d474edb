-- ===== src/Ledger/Legacy.antt =====
-- The one-time import of unverified use times.
use one_autojs.Base.{
  none≢some, ap, ◌≡◌, refl, sym, subst, String, true, ◌&&◌, Option, none, some, List, [], ◌∷◌,
  Number, number_max, number_max-le, number_le_refl, number_le_trans, find, put, find-put,
  find-put_self, str_eq, eq_iff, Bool-cases, inl, inr, All, is_sha256, is_finite, number_le,
}
use one_autojs.Ledger.{TikTokLedger}
use one_autojs.Ledger.Import.{import_uses, use_or_zero, import_legacy_unverified, import_with}
use one_autojs.Ledger.Storage.{persist}

-- The recorded use time of a fingerprint, 0 if there is none.
abbrev pub use_of : String → List (String × Number) → Number
use_of key uses = use_or_zero (find key uses)

use_of-put :
    (key fingerprint : String) (used_at : Number) (uses : List (String × Number))
    → let uses' = put fingerprint (number_max (use_of fingerprint uses) used_at) uses in
      (number_le (use_of key uses) (use_of key uses') ≡ true)
      × (number_le used_at (use_of fingerprint uses') ≡ true)
use_of-put key fingerprint used_at uses =
    (rises, rw (find-put_self, use_or_zero) (number_max-le (use_of fingerprint uses) used_at).1)
  where
    rises :
        number_le
          (use_of key uses)
          (use_of key (put fingerprint (number_max (use_of fingerprint uses) used_at) uses))
        ≡ true
    rises = elim (Bool-cases (str_eq fingerprint key)) [
      | inl same ↦
          rw (find-put, same)
            (subst
              (λ k. number_le (use_of k uses) (number_max (use_of fingerprint uses) used_at) ≡ true)
              ((eq_iff fingerprint key).0 same) (number_max-le (use_of fingerprint uses) used_at).0)
      | inr other ↦ rw (find-put, other) (number_le_refl (use_of key uses))
    ]

import_uses-rises :
    (entries uses : List (String × Number)) (key : String)
    → number_le (use_of key uses) (use_of key (import_uses entries uses)) ≡ true
unfolding import_uses
import_uses-rises [] uses key = number_le_refl (use_of key uses)
import_uses-rises ((fingerprint, used_at) ∷ entries) uses key =
    elim (Bool-cases (is_sha256 fingerprint && is_finite used_at)) [
      | inl valid ↦ rw valid (
          number_le_trans (use_of key uses) (use_of key _) _
            (use_of-put key fingerprint used_at uses).0 (import_uses-rises entries _ key))
      | inr other ↦ rw other (import_uses-rises entries uses key)
    ]

-- Each well-formed entry is covered by the recorded use time.
abbrev pub Covers : List (String × Number) → List (String × Number) → Type 0
Covers uses =
    All (λ e. (is_sha256 e.0 && is_finite e.1) ≡ true → number_le e.1 (use_of e.0 uses) ≡ true)

import_uses-Covers :
    (entries uses : List (String × Number)) → Covers (import_uses entries uses) entries
unfolding import_uses
import_uses-Covers [] uses = tt
import_uses-Covers ((fingerprint, used_at) ∷ entries) uses = (
  λ valid. rw valid (
      number_le_trans used_at (use_of fingerprint _) _
        (use_of-put fingerprint fingerprint used_at uses).1
        (import_uses-rises entries _ fingerprint)),
  import_uses-Covers entries _,
)

import_twice :
    (l : TikTokLedger) (materials captions : List (String × Number)) (now : Number) {t : Number}
    → l.state.legacy_import ≡ some t
    → import_legacy_unverified l materials captions now ≡ l
unfolding import_legacy_unverified
import_twice l materials captions now h = ap (import_with l materials captions now) h

import_marks :
    (l : TikTokLedger) (materials captions : List (String × Number)) (now : Number)
    → l.state.legacy_import ≡ none
    → (import_legacy_unverified l materials captions now).state.legacy_import ≡ some now
unfolding import_legacy_unverified persist
import_marks l materials captions now h = rw (h, import_with) refl

-- The first import lowers no use time, and afterwards every use time given for a well-formed
-- fingerprint is covered; a second import changes nothing.
pub import_legacy_unverified_lem :
    (l : TikTokLedger) (materials captions : List (String × Number)) (now : Number)
    → l.state.legacy_import ≡ none
    → let s = (import_legacy_unverified l materials captions now).state in
      ((key : String)
        → number_le (use_of key l.state.material_uses) (use_of key s.material_uses) ≡ true)
      × ((key : String)
          → number_le (use_of key l.state.caption_uses) (use_of key s.caption_uses) ≡ true)
      × Covers s.material_uses materials
      × Covers s.caption_uses captions
      × ((materials' captions' : List (String × Number)) (now' : Number)
          → import_legacy_unverified
              (import_legacy_unverified l materials captions now)
              materials'
              captions'
              now'
            ≡ import_legacy_unverified l materials captions now)
unfolding import_legacy_unverified persist
import_legacy_unverified_lem l materials captions now first =
    let (rises, caption_rises, covers, caption_covers) = uses l.state.legacy_import first in
    (
      rises,
      caption_rises,
      covers,
      caption_covers,
      λ materials' captions' now'.
          import_twice (import_legacy_unverified l materials captions now) materials' captions' now'
            (import_marks l materials captions now first),
    )
  where
    uses :
        (o : Option Number)
        → o ≡ none
        → let s = (import_with l materials captions now o).state in
          ((key : String)
            → number_le (use_of key l.state.material_uses) (use_of key s.material_uses) ≡ true)
          × ((key : String)
              → number_le (use_of key l.state.caption_uses) (use_of key s.caption_uses) ≡ true)
          × Covers s.material_uses materials
          × Covers s.caption_uses captions
    uses (some t) e = absurd (none≢some (sym e))
    uses none e = (
      import_uses-rises materials l.state.material_uses,
      import_uses-rises captions l.state.caption_uses,
      import_uses-Covers materials l.state.material_uses,
      import_uses-Covers captions l.state.caption_uses,
    )
