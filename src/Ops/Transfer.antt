-- ===== src/Ops/Transfer.antt =====
-- The screenshot frame from the encoder of mobile/src/ops-protocol.ts to the decoder of
-- pc/src/device-ops-protocol.ts.
use one_autojs.Base.{
  ℕ, suc, ◌+◌, ◌≤◌, ◌<◌, ◌≡◌, refl, sym, subst, ap, ◌∙◌, arith, String, Bool, true, not, ◌&&◌, List,
  [], ◌∷◌, ◌++◌, Option, some, Json, obj, get, as_record, as_string, as_number, is_number,
  is_string, number_lt, number_eq, is_integer, is_finite, is_identifier, is_sha256, str_eq, eq_iff,
  length, length-append, ltb, ◌==◌, Outcome, ok, ◌>>◌, require, require-eq-ok, ok-injective,
}
use one_autojs.Ops.Artifact.{
  DeviceOpsArtifact, artifact_header, write_uint32_be, read_uint32_be, take, drop,
  encode_artifact_frame, artifact_keys, only_keys, is_artifact_header, has_size, has_digest,
  has_frame_size, has_header_size, parse_parts, parse_artifact_frame,
}

read-write :
    (n : ℕ) (rest : List ℕ) → n < 4294967296 → read_uint32_be (write_uint32_be n ++ rest) ≡ n
unfolding read_uint32_be write_uint32_be
read-write n rest h = omega arith

take-append : (xs ys : List ℕ) → take (length xs) (xs ++ ys) ≡ xs
take-append [] ys = refl
take-append (x ∷ xs) ys = ap (λ zs. x ∷ zs) (take-append xs ys)

drop-append : (xs ys : List ℕ) → drop (length xs) (xs ++ ys) ≡ ys
drop-append [] ys = refl
drop-append (x ∷ xs) ys = drop-append xs ys

drop_frame : (n a b c d : ℕ) (xs : List ℕ) → drop (4 + n) (a ∷ b ∷ c ∷ d ∷ xs) ≡ drop n xs
drop_frame n a b c d xs =
    let four : 4 + n ≡ suc (suc (suc (suc n))) = omega arith in
    ap (λ k. drop k (a ∷ b ∷ c ∷ d ∷ xs)) four

only_keys-header :
    (session_id request_id : String) (a : DeviceOpsArtifact)
    → only_keys artifact_keys (artifact_header session_id request_id a) ≡ true
unfolding only_keys artifact_header str_eq
only_keys-header session_id request_id a = refl

-- What the executor and the session guarantee of an artifact.
pub record IsSound (digest : List ℕ → String) (session request : String) (a : DeviceOpsArtifact)
    : Type 0 where
  pub session_id : is_identifier session ≡ true
  pub request_id : is_identifier request ≡ true
  pub artifact_id : is_identifier a.artifact_id ≡ true
  pub sha256 : is_sha256 a.sha256 ≡ true
  pub digested : digest a.content ≡ a.sha256
  pub wide : (1 ≤ a.width) × (a.width ≤ 16384)
  pub high : (1 ≤ a.height) × (a.height ≤ 16384)

is_artifact_header-header :
    (digest : List ℕ → String) (session_id request_id : String) (a : DeviceOpsArtifact)
    → IsSound digest session_id request_id a
    → 1 ≤ a.size_bytes
    → a.size_bytes ≤ 16777216
    → is_artifact_header (artifact_header session_id request_id a) ≡ true
unfolding is_artifact_header artifact_header get as_string as_number is_number is_string str_eq
    number_eq is_integer is_finite number_lt
is_artifact_header-header digest session_id request_id a v some_bytes few_bytes =
    ground (arith, v.session_id, v.request_id, v.artifact_id, v.sha256, v.wide, v.high)

has_size-header :
    (session_id request_id : String) (a : DeviceOpsArtifact)
    → a.size_bytes ≡ length a.content
    → has_size
        (as_number (get "sizeBytes" (artifact_header session_id request_id a)))
        (length a.content)
      ≡ true
unfolding artifact_header get as_number str_eq number_eq
has_size-header session_id request_id a sized = ground (arith, sized)

has_digest-header :
    (digest : List ℕ → String) (session_id request_id : String) (a : DeviceOpsArtifact)
    → digest a.content ≡ a.sha256
    → has_digest
        (as_string (get "sha256" (artifact_header session_id request_id a)))
        (digest a.content)
      ≡ true
unfolding artifact_header get as_string str_eq
has_digest-header digest session_id request_id a digested =
    (eq_iff (digest a.content) a.sha256).1 digested

require-true {ℓ} :
    {B : Type ℓ} (t : Bool) (e : String) (k : Outcome B) → t ≡ true → (require t e >> k) ≡ k
require-true t e k h = rw h refl

module _ (parse_json : List ℕ → Option Json) (digest : List ℕ → String) where
  cut :
      (frame header content : List ℕ) (n : ℕ)
      → read_uint32_be frame ≡ n
      → take n (drop 4 frame) ≡ header
      → drop (4 + n) frame ≡ content
      → has_frame_size frame ≡ true
      → has_header_size frame n ≡ true
      → parse_artifact_frame parse_json digest frame ≡ parse_parts parse_json digest header content
  unfolding parse_artifact_frame
  cut frame header content n reads first second sized headed =
      let headed' : has_header_size frame (read_uint32_be frame) ≡ true =
        subst (λ k. has_header_size frame k ≡ true) (sym reads) headed in
      require-true (has_frame_size frame) _ _ sized
      ∙ require-true (has_header_size frame (read_uint32_be frame)) _ _ headed'
      ∙ subst
          (λ k.
            parse_parts parse_json digest (take k (drop 4 frame)) (drop (4 + k) frame)
            ≡ parse_parts parse_json digest header content)
          (sym reads)
          (ap (λ h. parse_parts parse_json digest h (drop (4 + n) frame)) first
            ∙ ap (parse_parts parse_json digest header) second)

  cut-append :
      (header content : List ℕ)
      → 2 ≤ length header
      → length header ≤ 4096
      → 1 ≤ length content
      → length content ≤ 16777216
      → parse_artifact_frame parse_json digest
          (write_uint32_be (length header) ++ header ++ content)
        ≡ parse_parts parse_json digest header content
  unfolding write_uint32_be
  cut-append header content h1 h2 h3 h4 =
      let total = length-append header content in
      cut (write_uint32_be (length header) ++ header ++ content) header content (length header)
        (read-write (length header) (header ++ content) (omega arith)) (take-append header content)
        (drop_frame (length header) _ _ _ _ (header ++ content) ∙ drop-append header content)
        (ground arith) (ground arith)

  parse_parts-header :
      (session_id request_id : String) (a : DeviceOpsArtifact) (text : List ℕ)
      → IsSound digest session_id request_id a
      → a.size_bytes ≡ length a.content
      → 1 ≤ a.size_bytes
      → a.size_bytes ≤ 16777216
      → parse_json text ≡ some (obj (artifact_header session_id request_id a))
      → parse_parts parse_json digest text a.content
        ≡ ok (record { header = artifact_header session_id request_id a; content = a.content })
  unfolding parse_parts as_record
  parse_parts-header session_id request_id a text v sized some_bytes few_bytes parsed = rw parsed (
      require-true _ _ _ (only_keys-header session_id request_id a)
      ∙ require-true _ _ _
          (is_artifact_header-header digest session_id request_id a v some_bytes few_bytes)
      ∙ require-true _ _ _ (has_size-header session_id request_id a sized)
      ∙ require-true _ _ _ (has_digest-header digest session_id request_id a v.digested))

  -- What the device encodes the server decodes: if a screenshot of a well-formed id, a digest that is
  -- its content's and dimensions from 1 to 16384 is encoded for a session and a request, then the
  -- server's parser accepts the frame and gets the same header and the same content. It is used that
  -- the header's JSON text has at least two bytes and that parsing it gives the header back.
  pub parse_artifact_frame-encode :
      (stringify : Json → List ℕ) (session_id request_id : String) (a : DeviceOpsArtifact)
      {frame : List ℕ}
      → IsSound digest session_id request_id a
      → let header = obj (artifact_header session_id request_id a) in
        2 ≤ length (stringify header)
        → parse_json (stringify header) ≡ some header
        → encode_artifact_frame stringify session_id request_id a ≡ ok frame
        → parse_artifact_frame parse_json digest frame
          ≡ ok (record { header = artifact_header session_id request_id a; content = a.content })
  unfolding encode_artifact_frame
  parse_artifact_frame-encode stringify session_id request_id a v long back h0 =
      let header = stringify (obj (artifact_header session_id request_id a)) in
      let (sizes, h1) =
        require-eq-ok
          (length a.content == a.size_bytes
            && ltb 0 a.size_bytes
            && not (ltb 16777216 a.size_bytes))
          _ _ h0 in
      let (short, h2) = require-eq-ok (not (ltb 4096 (length header))) _ _ h1 in
      let sized : a.size_bytes ≡ length a.content = ground arith in
      let some_bytes : 1 ≤ a.size_bytes = ground arith in
      let few_bytes : a.size_bytes ≤ 16777216 = ground arith in
      let fits : length header ≤ 4096 = ground arith in
      subst
        (λ f.
          parse_artifact_frame parse_json digest f
          ≡ ok (record { header = artifact_header session_id request_id a; content = a.content }))
        (ok-injective h2)
        (cut-append header a.content long fits (omega arith) (omega arith)
          ∙ parse_parts-header session_id request_id a header v sized some_bytes few_bytes back)
