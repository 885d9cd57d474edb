-- ===== src/Base/Maps.antt =====
-- Objects used as dictionaries: text keys, in order of insertion.
use Prim.Native.String.{String}
use mathlib.Core.Path.{◌≡◌, refl}
use mathlib.Core.Logic.{◌≢◌}
use mathlib.Core.Option.{Option, none, some}
use mathlib.Core.List.{List, [], ◌∷◌}
use native.Mathlib.Omega.{arith}
use text.Mathlib.Text.{◌==◌ as str_eq}
use text.Mathlib.TextEquality.{eq_iff}
use text.Mathlib.TextPositions.{eq_refl}
use one_autojs.Base.Tests.{if◌then◌else◌}

module _ {ℓ} {V : Type ℓ} where
  unfoldable pub find : String → List (String × V) → Option V
  find key [] = none
  find key ((k, v) ∷ m) = if str_eq k key then some v else find key m

  -- `object[key] = value`
  unfoldable pub put : String → V → List (String × V) → List (String × V)
  put key v [] = (key, v) ∷ []
  put key v ((k, w) ∷ m) = if str_eq k key then (k, v) ∷ m else (k, w) ∷ put key v m

  pub find-put :
      (key other : String) (v : V) (m : List (String × V))
      → find other (put key v m) ≡ (if str_eq key other then some v else find other m)
  unfolding find put
  find-put key other v [] = refl
  find-put key other v ((k, w) ∷ m) =
      ground (arith, eq_iff key other, eq_iff k key, eq_iff k other, find-put key other v m)

module _ {ℓ} {V : Type ℓ} where
  pub find-put_self :
      (key : String) (v : V) (m : List (String × V)) → find key (put key v m) ≡ some v
  find-put_self key v m = simp (find-put, eq_refl)

  pub find-put_ne :
      (key other : String) (v : V) (m : List (String × V))
      → key ≢ other
      → find other (put key v m) ≡ find other m
  find-put_ne key other v m h = rw find-put (ground (arith, eq_iff key other))
