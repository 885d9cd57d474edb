-- ===== src/Base/Outcomes.antt =====
-- A computation that may throw an Error with a message.
use Prim.Native.String.{String}
use mathlib.Core.Path.{◌≡◌, refl}
use mathlib.Core.Bool.{Bool, true, false}
use mathlib.Core.Option.{Option, none, some}

pub data Outcome {ℓ} (A : Type ℓ) : Type ℓ where
  ok : A → Outcome A
  throw : String → Outcome A

module _ {ℓ κ} {A : Type ℓ} {B : Type κ} where
  infixl 5 ◌>>=◌
  -- The next statement runs only if this one did not throw.
  abbrev pub ◌>>=◌ : Outcome A → (A → Outcome B) → Outcome B
  throw message >>= next = throw message
  ok value >>= next = next value

  -- Inversion of two successful steps.
  pub >>=-eq-ok :
      (first : Outcome A) (next : A → Outcome B) {b : B}
      → (first >>= next) ≡ ok b
      → (value : A) × (first ≡ ok value) × (next value ≡ ok b)
  >>=-eq-ok (throw message) next done = cc
  >>=-eq-ok (ok value) next done = (value, refl, done)

infixl 5 ◌>>◌
abbrev pub ◌>>◌ {κ} : {B : Type κ} → Outcome (Unit {0}) → Outcome B → Outcome B
throw message >> next = throw message
ok _ >> next = next

-- `if (!test) throw new Error(message)`
abbrev pub require : Bool → String → Outcome (Unit {0})
require true e = ok tt
require false e = throw e

abbrev pub or_throw {ℓ} : {A : Type ℓ} → Option A → String → Outcome A
or_throw (some a) e = ok a
or_throw none e = throw e

pub require-eq-ok {ℓ} :
    {B : Type ℓ} (t : Bool) (e : String) (k : Outcome B) {b : B}
    → (require t e >> k) ≡ ok b
    → (t ≡ true) × (k ≡ ok b)
require-eq-ok true e k h = (refl, h)
require-eq-ok false e k h = cc

pub or_throw-eq-ok {ℓ κ} :
    {A : Type ℓ} {B : Type κ} (o : Option A) (e : String) (f : A → Outcome B) {b : B}
    → (or_throw o e >>= f) ≡ ok b
    → (a : A) × (o ≡ some a) × (f a ≡ ok b)
or_throw-eq-ok (some a) e f h = (a, refl, h)
or_throw-eq-ok none e f h = cc

pub ok-injective {ℓ} : {A : Type ℓ} {a b : A} → ok a ≡ ok b → a ≡ b
ok-injective h = cc

pub throw≢ok {ℓ} : {A : Type ℓ} {e : String} {a : A} → throw e ≡ ok a → ⊥
throw≢ok h = cc

-- `if (test) return error;` in a chain of checks that ends in `null`.
abbrev pub failing {ℓ} : {A : Type ℓ} → Bool → A → Option A → Option A
failing true error rest = some error
failing false error rest = rest

pub failing-eq-none {ℓ} :
    {A : Type ℓ} (test : Bool) (error : A) (rest : Option A)
    → failing test error rest ≡ none
    → (test ≡ false) × (rest ≡ none)
failing-eq-none true error rest h = cc
failing-eq-none false error rest h = (refl, h)
