-- ===== src/Base/Numbers.antt =====
-- Numbers as JSON.parse yields them: no NaN. A finite number is its floor and its fractional part
-- in units of 2^-1074, which every double has exactly; an integer has part 0.
use Prim.Native.Nat.{ℕ, suc, ◌+◌, ◌-◌, ◌≤◌}
use mathlib.Core.Path.{◌≡◌}
use mathlib.Core.Bool.{Bool, true, false, not, ◌&&◌, ◌||◌}
use native.Mathlib.Omega.{arith}
use one_autojs.Base.Tests.{ltb, leb, ◌==◌, if◌then◌else◌}

-- `negsuc n` is -(n + 1).
pub data ℤ : Type 0 where
  pos : ℕ → ℤ
  negsuc : ℕ → ℤ

abbrev pub pos_part : ℤ → ℕ
pos_part (pos n) = n
pos_part (negsuc n) = 0

abbrev pub neg_part : ℤ → ℕ
neg_part (pos n) = 0
neg_part (negsuc n) = suc n

-- a - b, as an integer.
abbrev pub sub_ℕ : ℕ → ℕ → ℤ
sub_ℕ a b = if leb b a then pos (a - b) else negsuc (b - a - 1)

abbrev pub ltb_ℤ : ℤ → ℤ → Bool
ltb_ℤ a b = ltb (pos_part a + neg_part b) (pos_part b + neg_part a)

abbrev pub eqb_ℤ : ℤ → ℤ → Bool
eqb_ℤ a b = pos_part a + neg_part b == pos_part b + neg_part a

pub data Number : Type 0 where
  finite : ℤ → ℕ → Number
  infinite : Bool → Number

-- A non-negative integer as a number.
abbrev pub of_ℕ : ℕ → Number
of_ℕ n = finite (pos n) 0

-- `a < b`; `infinite true` is -Infinity.
unfoldable pub number_lt : Number → Number → Bool
number_lt (finite a p) (finite b q) = ltb_ℤ a b || eqb_ℤ a b && ltb p q
number_lt (finite a p) (infinite negative) = not negative
number_lt (infinite negative) (finite b q) = negative
number_lt (infinite negative) (infinite negative') = negative && not negative'

-- `a <= b`, which is the negation of `b < a` where no NaN occurs.
unfoldable pub number_le : Number → Number → Bool
unfolding number_lt
number_le a b = not (number_lt b a)

-- `a === b`
unfoldable pub number_eq : Number → Number → Bool
number_eq (finite a p) (finite b q) = eqb_ℤ a b && p == q
number_eq (infinite true) (infinite true) = true
number_eq (infinite false) (infinite false) = true
number_eq _ _ = false

-- `a + n` for a non-negative integer constant.
unfoldable pub number_add : Number → ℕ → Number
number_add (finite a p) n = finite (sub_ℕ (pos_part a + n) (neg_part a)) p
number_add (infinite negative) n = infinite negative

-- `Number.isFinite`
unfoldable pub is_finite : Number → Bool
is_finite (finite a p) = true
is_finite (infinite negative) = false

-- `Number.isInteger`
unfoldable pub is_integer : Number → Bool
is_integer (finite a p) = p == 0
is_integer (infinite negative) = false

-- `Number.isSafeInteger`
unfoldable pub is_safe_integer : Number → Bool
is_safe_integer (finite a p) =
    p == 0 && leb (pos_part a) 9007199254740991 && leb (neg_part a) 9007199254740991
is_safe_integer (infinite negative) = false

-- An integer below its sum with a constant: what a relative bound says of two clock values.
pub number_le-number_add :
    (n m k : ℕ) → (number_le (of_ℕ n) (number_add (of_ℕ m) k) ≡ true) → n ≤ m + k
unfolding number_le number_add
number_le-number_add n m k h = ground arith

pub number_lt-of_ℕ : (n m : ℕ) → number_lt (of_ℕ n) (of_ℕ m) ≡ ltb n m
unfolding number_lt
number_lt-of_ℕ n m = ground arith

-- `a - n` for a non-negative integer.
unfoldable pub number_sub : Number → ℕ → Number
number_sub (finite a p) n = finite (sub_ℕ (pos_part a) (neg_part a + n)) p
number_sub (infinite negative) n = infinite negative

-- `Math.min` and `Math.max` of two numbers.
abbrev pub number_min : Number → Number → Number
number_min a b = if number_lt b a then b else a

abbrev pub number_max : Number → Number → Number
number_max a b = if number_lt a b then b else a
