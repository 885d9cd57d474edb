-- ===== src/Base/Texts.antt =====
-- Texts as code points, and the character classes of the program's regular expressions.
use Prim.Native.Nat.{ℕ}
use Prim.Native.Char.{code}
use Prim.Native.String.{String}
use mathlib.Core.Bool.{Bool, true, ◌&&◌, ◌||◌}
use mathlib.Core.List.{List, [], ◌∷◌}
use one_autojs.Base.Tests.{leb, ◌==◌}
use one_autojs.Base.Lists.{length}

abbrev pub codes : String → List ℕ
codes (String.◌∷◌ first rest) = code first ∷ codes rest
codes String.[] = []

abbrev pub all_codes : (ℕ → Bool) → List ℕ → Bool
all_codes p [] = true
all_codes p (c ∷ s) = p c && all_codes p s

abbrev pub is_upper : ℕ → Bool
is_upper c = leb b'A' c && leb c b'Z'

abbrev pub is_lower : ℕ → Bool
is_lower c = leb b'a' c && leb c b'z'

abbrev pub is_digit : ℕ → Bool
is_digit c = leb b'0' c && leb c b'9'

-- `/^[…]{lo,hi}$/` for a class of ASCII characters.
unfoldable pub matches_class : (ℕ → Bool) → ℕ → ℕ → String → Bool
matches_class in_class lo hi s =
    leb lo (length (codes s)) && leb (length (codes s)) hi && all_codes in_class (codes s)

abbrev pub id_char : ℕ → Bool
id_char c = is_upper c || is_lower c || is_digit c || c == b'_' || c == b'-'

abbrev pub device_char : ℕ → Bool
device_char c =
    is_upper c || is_lower c || is_digit c || c == b'.' || c == b'_' || c == b':' || c == b'-'

abbrev pub script_char : ℕ → Bool
script_char c = is_lower c || is_digit c || c == b'.' || c == b'_' || c == b'-'

abbrev pub hex_char : ℕ → Bool
hex_char c = is_digit c || leb b'a' c && leb c b'f'

-- `/^[A-Za-z0-9_-]{8,100}$/`
unfoldable pub is_identifier : String → Bool
unfolding matches_class
is_identifier = matches_class id_char 8 100

-- `/^[A-Za-z0-9._:-]{1,100}$/`
unfoldable pub is_device_id : String → Bool
unfolding matches_class
is_device_id = matches_class device_char 1 100

-- `/^[a-z0-9._-]{1,100}$/`
unfoldable pub is_script_id : String → Bool
unfolding matches_class
is_script_id = matches_class script_char 1 100

-- `/^[a-f0-9]{64}$/`
unfoldable pub is_sha256 : String → Bool
unfolding matches_class
is_sha256 = matches_class hex_char 64 64
