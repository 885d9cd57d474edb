-- ===== src/OpsServer/Target.antt =====
-- `parseDeviceUiTargetAtResult` of pc/src/device-ops-protocol.ts: the element of the phone's screen
-- that a UI lookup found, with its texts classified.
use one_autojs.Base.{
  ℕ, ◌+◌, String, Bool, true, false, not, ◌&&◌, ◌||◌, List, [], ◌∷◌, Option, none, some, Json,
  Fields, null, bool, str, get, as_record, as_string, Number, str_eq, codes, all_codes, is_upper,
  is_lower, is_digit, leb, ltb, ◌==◌, length, Outcome, ok, throw, ◌>>=◌, ◌>>◌, require, or_throw,
  if◌then◌else◌,
}
use one_autojs.Ops.Artifact.{only_keys}
use one_autojs.OpsServer.{units, safe_in}

-- `DeviceUiClassifiedText`
pub data DeviceUiClassifiedText : Type 0 where
  literal : String → DeviceUiClassifiedText
  parameter : String → DeviceUiClassifiedText
  redacted : String → Number → DeviceUiClassifiedText

-- `bounds`; the size of the screen is that of the display.
pub record Bounds : Type 0 where
  pub left : Number
  pub top : Number
  pub right : Number
  pub bottom : Number

pub record Size : Type 0 where
  pub width : Number
  pub height : Number

pub record Foreground : Type 0 where
  pub package_name : Option String
  pub activity_name : Option String

-- `DeviceUiTarget`; `confidence` is the value that the parser passes on.
pub record DeviceUiTarget : Type 0 where
  pub confidence : Option Json
  pub package_name : Option String
  pub activity_name : Option String
  pub class_name : String
  pub resource_id : Option String
  pub text : Option DeviceUiClassifiedText
  pub description : Option DeviceUiClassifiedText
  pub bounds : Bounds
  pub clickable : Bool
  pub editable : Bool

-- `DeviceUiTargetAtResult`
pub record DeviceUiTargetAtResult : Type 0 where
  pub target : Option DeviceUiTarget
  pub foreground : Foreground
  pub display : Size
  pub captured_at : Number

abbrev pub component_char : ℕ → Bool
component_char c =
    is_upper c
    || is_lower c
    || is_digit c
    || c == b'_'
    || c == b'.'
    || c == b'$'
    || c == b':'
    || c == b'-'

-- `+(?:\/…+)?$` after one character of the class or more; the flag says that no `/` has come.
unfoldable pub component_rest : Bool → List ℕ → Bool
component_rest first [] = true
component_rest first (c ∷ []) = component_char c
component_rest first (c ∷ d ∷ s) =
    (component_char c || first && c == b'/' && component_char d)
    && component_rest (first && not (c == b'/')) (d ∷ s)

-- `/^[A-Za-z0-9_.$:-]+(?:\/[A-Za-z0-9_.$:-]+)?$/`
abbrev is_component : List ℕ → Bool
is_component [] = false
is_component (c ∷ s) = component_char c && component_rest true s

unfoldable pub component_only : String → Option String
unfolding component_rest
component_only s =
    if ltb 0 (length (codes s)) && not (ltb 200 (length (codes s))) && is_component (codes s)
    then some s
    else none

-- `parseNullableAndroidIdentifier`
unfoldable pub parse_nullable : Option Json → String → Outcome (Option String)
unfolding component_only
parse_nullable (some null) message = ok none
parse_nullable (some (str s)) message = do
  identifier ← or_throw (component_only s) message
  ok (some identifier)
parse_nullable _ message = throw message

-- `DEVICE_UI_PUBLIC_LITERAL_VALUES`
abbrev public_literals : List String
public_literals =
    "add" ∷ "allow" ∷ "back" ∷ "cancel" ∷ "close" ∷ "continue" ∷ "delete" ∷ "deny" ∷ "done" ∷ "edit"
    ∷ "home" ∷ "log in" ∷ "messages" ∷ "more" ∷ "new" ∷ "next" ∷ "ok" ∷ "open" ∷ "previous"
    ∷ "publish" ∷ "retry" ∷ "save" ∷ "search" ∷ "send" ∷ "share" ∷ "sign in" ∷ "sms" ∷ "上一步" ∷ "下一步"
    ∷ "主页" ∷ "主屏幕" ∷ "允许" ∷ "信息" ∷ "保存" ∷ "关闭" ∷ "分享" ∷ "删除" ∷ "发送" ∷ "发布" ∷ "取消" ∷ "完成" ∷ "打开"
    ∷ "拒绝" ∷ "新建" ∷ "更多" ∷ "消息" ∷ "添加" ∷ "短信" ∷ "确定" ∷ "继续" ∷ "编辑" ∷ "返回" ∷ "重试" ∷ []

-- The lower case of a character, as far as the table is concerned: of the characters whose lower
-- case is one of its, only the Kelvin sign is no capital of ASCII.
abbrev lower : ℕ → ℕ
lower c = if is_upper c then c + 32 else if c == 8490 then 107 else c

abbrev lower_codes : List ℕ → List ℕ
lower_codes [] = []
lower_codes (c ∷ s) = lower c ∷ lower_codes s

abbrev same_codes : List ℕ → List ℕ → Bool
same_codes [] [] = true
same_codes (c ∷ s) (d ∷ t) = c == d && same_codes s t
same_codes _ _ = false

abbrev among : List ℕ → List String → Bool
among s [] = false
among s (t ∷ ts) = same_codes s (codes t) || among s ts

-- `\s`
abbrev is_space : ℕ → Bool
is_space c =
    leb 9 c && leb c 13
    || c == 32
    || c == 160
    || c == 5760
    || leb 8192 c && leb c 8202
    || c == 8232
    || c == 8233
    || c == 8239
    || c == 8287
    || c == 12288
    || c == 65279

-- `value === value.trim().replace(/\s+/g, " ")`: no space at an end, every space a blank, and no two
-- together. The flag says that a space or the start stands before.
unfoldable pub is_tidy : Bool → List ℕ → Bool
is_tidy spaced [] = not spaced
is_tidy spaced (c ∷ s) = not (is_space c && (spaced || not (c == 32))) && is_tidy (is_space c) s

abbrev has_control : List ℕ → Bool
has_control [] = false
has_control (c ∷ s) = ltb c 32 || c == 127 || has_control s

-- A literal that is reviewed for transport.
unfoldable pub is_public : String → Bool
unfolding units is_tidy
is_public s =
    ltb 0 (units (codes s))
    && not (ltb 80 (units (codes s)))
    && not (has_control (codes s))
    && is_tidy true (codes s)
    && among (lower_codes (codes s)) public_literals

abbrev pub public_only : Option String → Option String
public_only none = none
public_only (some s) = if is_public s then some s else none

abbrev pub is_true : Option Json → Bool
is_true (some (bool b)) = b
is_true _ = false

-- A lower letter, and then up to 79 characters of a class.
abbrev is_word : (ℕ → Bool) → List ℕ → Bool
is_word in_class [] = false
is_word in_class (c ∷ s) = is_lower c && not (ltb 79 (length s)) && all_codes in_class s

abbrev pub key_char : ℕ → Bool
key_char c = is_lower c || is_digit c || c == b'_' || c == b'.' || c == b'-'

abbrev pub category_char : ℕ → Bool
category_char c = is_lower c || is_digit c || c == b'-'

unfoldable pub word_only : (ℕ → Bool) → Option String → Option String
word_only in_class none = none
word_only in_class (some s) = if is_word in_class (codes s) then some s else none

unfoldable pub parse_literal : Fields → Outcome DeviceUiClassifiedText
parse_literal value = do
  require (only_keys ("mode" ∷ "value" ∷ "reviewed" ∷ []) value) "text contains unknown field"
  text ← or_throw (public_only (as_string (get "value" value))) "text literal is invalid"
  require (is_true (get "reviewed" value)) "text literal is invalid"
  ok (literal text)

unfoldable pub parse_parameter : Fields → Outcome DeviceUiClassifiedText
unfolding word_only
parse_parameter value = do
  require (only_keys ("mode" ∷ "key" ∷ []) value) "text contains unknown field"
  key ← or_throw (word_only key_char (as_string (get "key" value))) "text parameter key is invalid"
  ok (parameter key)

unfoldable pub parse_redacted : Fields → Outcome DeviceUiClassifiedText
unfolding word_only
parse_redacted value = do
  require (only_keys ("mode" ∷ "category" ∷ "length" ∷ []) value) "text contains unknown field"
  category ←
      or_throw (word_only category_char (as_string (get "category" value)))
        "text redaction metadata is invalid"
  size ← or_throw (safe_in 1 (some 4096) (get "length" value)) "text redaction metadata is invalid"
  ok (redacted category size)

abbrev pub of_mode : String → Fields → Outcome DeviceUiClassifiedText
of_mode mode value =
    if str_eq mode "literal"
    then parse_literal value
    else if str_eq mode "parameter"
    then parse_parameter value
    else if str_eq mode "redacted"
    then parse_redacted value
    else throw "text mode is unsupported"

-- `parseDeviceUiClassifiedText`
unfoldable pub parse_classified_text : Json → Outcome DeviceUiClassifiedText
unfolding parse_literal parse_parameter parse_redacted
parse_classified_text json = do
  value ← or_throw (as_record json) "text is not a classified text object"
  mode ← or_throw (as_string (get "mode" value)) "text is not a classified text object"
  of_mode mode value
