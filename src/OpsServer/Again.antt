-- ===== src/OpsServer/Again.antt =====
-- Tests that what they give passes again.
use one_autojs.Base.{ℕ, ◌≡◌, arith, Option, none, some, Json, Fields, num, Number, Outcome, ok}
use one_autojs.OpsServer.{integer_in, safe_in}

-- A value that passes one of the tests passes it again.
pub safe_in-some :
    (lo : ℕ) (hi : Option ℕ) (o : Option Json) {n : Number}
    → safe_in lo hi o ≡ some n
    → safe_in lo hi (some (num n)) ≡ some n
unfolding safe_in
safe_in-some lo none (some (num m)) e = ground arith
safe_in-some lo (some hi) (some (num m)) e = ground arith
safe_in-some lo hi _ e = ground arith

pub integer_in-some :
    (lo hi : ℕ) (o : Option Json) {n : Number}
    → integer_in lo hi o ≡ some n
    → integer_in lo hi (some (num n)) ≡ some n
unfolding integer_in
integer_in-some lo hi (some (num m)) e = ground arith
integer_in-some lo hi _ e = ground arith

-- What a normalisation gives, it gives again.
abbrev pub IsIdem : (Fields → Outcome Fields) → Fields → Type 0
IsIdem normal params = (p : Fields) → normal params ≡ ok p → normal p ≡ ok p
