-- ===== src/Base/NumberOrder.antt =====
-- The order of the numbers.
use mathlib.Core.Path.{◌≡◌}
use mathlib.Core.Bool.{true}
use native.Mathlib.Omega.{arith}
use one_autojs.Base.Numbers.{Number, number_le, number_min, number_max}

pub number_le_refl : (a : Number) → number_le a a ≡ true
unfolding number_le
number_le_refl a = ground arith

pub number_le_trans :
    (a b c : Number) → number_le a b ≡ true → number_le b c ≡ true → number_le a c ≡ true
unfolding number_le
number_le_trans a b c h k = ground arith

pub number_max-le :
    (a b : Number) → (number_le a (number_max a b) ≡ true) × (number_le b (number_max a b) ≡ true)
unfolding number_le
number_max-le a b = ground arith

pub number_min-le :
    (a b : Number) → (number_le (number_min a b) a ≡ true) × (number_le (number_min a b) b ≡ true)
unfolding number_le
number_min-le a b = ground arith

-- The least upper bound.
pub number_max-least :
    (a b c : Number)
    → number_le a c ≡ true
    → number_le b c ≡ true
    → number_le (number_max a b) c ≡ true
unfolding number_le
number_max-least a b c h k = ground arith
