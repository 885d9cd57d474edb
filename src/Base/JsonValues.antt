-- ===== src/Base/JsonValues.antt =====
-- Decoded JSON values. An object's fields have distinct names, as JSON.parse leaves them.
use Prim.Native.String.{String}
use mathlib.Core.Bool.{Bool, false}
use mathlib.Core.Option.{Option, none, some}
use text.Mathlib.Text.{◌==◌ as str_eq}
use one_autojs.Base.Tests.{if◌then◌else◌}
use one_autojs.Base.Numbers.{Number, number_eq}

mutual
  pub data Json : Type 0 where
    null : Json
    bool : Bool → Json
    num : Number → Json
    str : String → Json
    arr : Items → Json
    obj : Fields → Json

  pub data Items : Type 0 where
    nil : Items
    cons : Json → Items → Items

  pub data Fields : Type 0 where
    end : Fields
    field : String → Json → Fields → Fields

-- `value[key]`; `none` is undefined.
unfoldable pub get : String → Fields → Option Json
get key end = none
get key (field k v fs) = if str_eq k key then some v else get key fs

-- `isRecord`
unfoldable pub as_record : Json → Option Fields
as_record (obj fs) = some fs
as_record _ = none

unfoldable pub as_string : Option Json → Option String
as_string (some (str s)) = some s
as_string _ = none

unfoldable pub as_number : Option Json → Option Number
as_number (some (num n)) = some n
as_number _ = none

-- `value === n`
unfoldable pub is_number : Number → Option Json → Bool
unfolding number_eq
is_number n (some (num m)) = number_eq m n
is_number n _ = false

-- `value === s`
unfoldable pub is_string : String → Option Json → Bool
is_string s (some (str t)) = str_eq t s
is_string s _ = false
